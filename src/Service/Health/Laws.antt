-- ===== src/Service/Health/Laws.antt =====
-- health.ts: the three statuses as conditions, and their order.
use cbdc_tokenization_sandbo.Prelude.{
  Option-cases, arith, inl, inr, minus_parts, some, true, ℕ, ℤ, ◌-ℤ◌, ◌↔◌, ◌≡◌, ◌≤ℤ◌, ◌≤◌,
}
use cbdc_tokenization_sandbo.Service.Health.{
  ChainProbe, DerivedStatus, IngestionStatus, above, compute_lag, degraded_status, derive_status,
  down_status, lag_degraded_blocks, ok_status, stale_degraded_ms, tick_age,
}

abbrev pub severity : DerivedStatus → ℕ
severity ok_status = 0
severity degraded_status = 1
severity down_status = 2

-- A status of `ok` means that the chain is reachable, the loop runs, no tick failed since the last
-- success, the last tick is at most thirty seconds old and the projection at most five blocks behind.
pub derive_status-ok :
    (chain : ChainProbe) (ingestion : IngestionStatus) (now head processed at : ℤ)
    → chain.head ≡ some head
    → ingestion.last_block_processed ≡ some processed
    → ingestion.last_tick_at ≡ some at
    → (derive_status chain ingestion now ≡ ok_status) ↔ (
        (chain.head_reachable ≡ true)
        × (ingestion.loop_running ≡ true)
        × (ingestion.consecutive_failures ≡ 0)
        × (now -ℤ at ≤ℤ stale_degraded_ms)
        × (head -ℤ processed ≤ℤ lag_degraded_blocks))
unfolding derive_status above tick_age compute_lag
derive_status-ok chain ingestion now head processed at h p t = rw (h, p, t) (ground arith)

-- As time passes and nothing else changes, the health never gets better.
pub derive_status-stale :
    (chain : ChainProbe) (ingestion : IngestionStatus) (now later : ℤ)
    → now ≤ℤ later
    → severity (derive_status chain ingestion now) ≤ severity (derive_status chain ingestion later)
unfolding derive_status above tick_age
derive_status-stale chain ingestion now later h = elim (Option-cases ingestion.last_tick_at) [
  | inl e ↦ rw e (ground arith)
  | inr (at, e) ↦ rw e (ground (arith, minus_parts now at, minus_parts later at))
]
