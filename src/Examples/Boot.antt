-- ===== src/Examples/Boot.antt =====
-- A start of the ingestion that fails twice.
use cbdc_tokenization_sandbo.Prelude.{
  All, Error, Result, [], arith, codes, err, external, if◌then◌else◌, length, ltb, max, none, ok,
  refl, true, unbound_legacy_checkpoint, ℕ, ◌*◌, ◌<◌, ◌∷◌, ◌≡◌, ◌≤◌,
}
use cbdc_tokenization_sandbo.Ingestion.Boot.{
  Boot, BootEnd, RetryOptions, booted, gave_up, is_identity_mismatch,
  start_ingestion_loop_with_retry, still_retrying,
}
use cbdc_tokenization_sandbo.Ingestion.Boot.Laws.{end_of, start_ingestion_loop_with_retry-ends}

abbrev opts : RetryOptions
opts = record { initial_delay_ms = 1000; max_delay_ms = 30000; factor = 2 }

abbrev node_away : Error
node_away = external (codes "ECONNREFUSED")

abbrev third_time : ℕ → Result (Unit {0})
third_time attempt = if ltb attempt 2 then err node_away else ok tt

abbrev clock : ℕ → ℕ
clock attempt = 5000 * attempt

abbrev three_attempts : Boot × BootEnd
three_attempts = start_ingestion_loop_with_retry opts clock third_time 3 []

slept_run : three_attempts.0.slept ≡ 2000 ∷ 1000 ∷ []
unfolding start_ingestion_loop_with_retry
slept_run = refl

-- A legacy checkpoint ends the loop at once.
legacy_run :
    (start_ingestion_loop_with_retry opts clock (λ k. err unbound_legacy_checkpoint) 5 []).1
    ≡ gave_up unbound_legacy_checkpoint
unfolding start_ingestion_loop_with_retry is_identity_mismatch
legacy_run = refl

fails_twice : (k : ℕ) → k < 2 → end_of (third_time k) ≡ none
unfolding is_identity_mismatch
fails_twice k few = let early : ltb k 2 ≡ true = ground arith in rw (early) refl

start_ingestion_loop_with_retry-ends_example :
    (three_attempts.1 ≡ booted)
    × (length three_attempts.0.slept ≡ 2)
    × All (λ (d : ℕ). d ≤ max 1000 30000) three_attempts.0.slept
    × ((start_ingestion_loop_with_retry opts clock third_time 2 []).1 ≡ still_retrying)
start_ingestion_loop_with_retry-ends_example =
    start_ingestion_loop_with_retry-ends opts clock third_time [] 2 booted fails_twice refl
