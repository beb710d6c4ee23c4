-- ===== src/Service/Health.antt =====
-- services/nb-bond-api/src/health.ts: the health of the service from the chain and the ingestion.
pub mod Laws
use cbdc_tokenization_sandbo.Prelude.{
  Bool, Option, case_option, false, if◌then◌else◌, ltb, ltb_ℤ, none, not, pos, some, ℕ, ℤ, ◌-ℤ◌,
}

pub record ChainProbe : Type 0 where
  pub chain_id : Option ℤ
  pub head : Option ℤ
  pub head_reachable : Bool

-- The fields of `IngestionStatus` that health reads.
pub record IngestionStatus : Type 0 where
  pub loop_running : Bool
  pub last_tick_at : Option ℤ
  pub consecutive_failures : ℕ
  pub last_block_processed : Option ℤ

pub data DerivedStatus : Type 0 where
  ok_status degraded_status down_status : DerivedStatus

abbrev pub lag_degraded_blocks : ℤ
lag_degraded_blocks = pos 5

abbrev pub stale_degraded_ms : ℤ
stale_degraded_ms = pos 30000

abbrev pub stale_down_ms : ℤ
stale_down_ms = pos 60000

unfoldable pub compute_lag : ChainProbe → IngestionStatus → Option ℤ
compute_lag chain ingestion = case_option chain.head none (λ head.
    case_option ingestion.last_block_processed none (λ processed. some (head -ℤ processed)))

-- Is there a value, and is it above the bound?
unfoldable pub above : ℤ → Option ℤ → Bool
above bound value = case_option value false (ltb_ℤ bound)

-- How long ago the last tick was, if there was one.
unfoldable pub tick_age : IngestionStatus → ℤ → Option ℤ
tick_age ingestion now = case_option ingestion.last_tick_at none (λ at. some (now -ℤ at))

unfoldable pub derive_status : ChainProbe → IngestionStatus → ℤ → DerivedStatus
derive_status chain ingestion now =
    if not chain.head_reachable
    then down_status
    else if not ingestion.loop_running
    then down_status
    else if above stale_down_ms (tick_age ingestion now)
    then down_status
    else if above lag_degraded_blocks (compute_lag chain ingestion)
    then degraded_status
    else if ltb 0 ingestion.consecutive_failures
    then degraded_status
    else if above stale_degraded_ms (tick_age ingestion now)
    then degraded_status
    else ok_status
