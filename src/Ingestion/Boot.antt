-- ===== src/Ingestion/Boot.antt =====
-- ingestion.ts, `startIngestionLoopWithRetry`: the start of the ingestion, tried again after a delay
-- that grows. What the attempts do and when they fail are parameters, by the number of the attempt.
pub mod Laws
use cbdc_tokenization_sandbo.Prelude.{
  Bool, Error, List, Result, [], case_result, chain_identity_mismatch, false, if◌then◌else◌, min,
  suc, true, unbound_legacy_checkpoint, zero, ℕ, ◌*◌, ◌+◌, ◌∷◌,
}
use cbdc_tokenization_sandbo.Ingestion.Window.{push_error}

-- In milliseconds; the defaults are 1000, 30000 and 2.
pub record RetryOptions : Type 0 where
  pub initial_delay_ms : ℕ
  pub max_delay_ms : ℕ
  pub factor : ℕ

-- The delays that were slept and the errors that were pushed, both newest first.
pub record Boot : Type 0 where
  pub slept : List ℕ
  pub recent_errors : List (ℕ × Error)

pub data BootEnd : Type 0 where
  booted : BootEnd
  gave_up : Error → BootEnd
  still_retrying : BootEnd

-- `err instanceof ChainIdentityMismatchError`: bindChainIdentity throws it on another identity, and on
-- a checkpoint with no identity.
unfoldable pub is_identity_mismatch : Error → Bool
is_identity_mismatch chain_identity_mismatch = true
is_identity_mismatch unbound_legacy_checkpoint = true
is_identity_mismatch _ = false

abbrev pub next_delay : RetryOptions → ℕ → ℕ
next_delay opts delay = min (delay * opts.factor) opts.max_delay_ms

abbrev pub failed_at : ℕ → Error → Boot → Boot
failed_at now e st = record st { recent_errors = push_error now e st.recent_errors }

abbrev pub slept_for : ℕ → Boot → Boot
slept_for delay st = record st { slept = delay ∷ st.slept }

module _ (opts : RetryOptions) (now : ℕ → ℕ) (start : ℕ → Result (Unit {0})) where
  -- The `for`, from an attempt on.
  unfoldable pub retry_loop : ℕ → ℕ → ℕ → Boot → Boot × BootEnd
  unfolding is_identity_mismatch
  retry_loop zero attempt delay st = (st, still_retrying)
  retry_loop (suc fuel) attempt delay st =
      case_result (start attempt)
        (λ e.
          if is_identity_mismatch e
          then (failed_at (now attempt) e st, gave_up e)
          else retry_loop fuel (attempt + 1) (next_delay opts delay)
              (slept_for delay (failed_at (now attempt) e st)))
        (λ _. (st, booted))

  -- With the errors that were pushed before.
  unfoldable pub start_ingestion_loop_with_retry : ℕ → List (ℕ × Error) → Boot × BootEnd
  unfolding retry_loop
  start_ingestion_loop_with_retry fuel errors =
      retry_loop fuel 0 opts.initial_delay_ms (record { slept = []; recent_errors = errors })
