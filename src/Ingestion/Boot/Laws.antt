-- ===== src/Ingestion/Boot/Laws.antt =====
-- ingestion.ts, `startIngestionLoopWithRetry`: how it ends, and how long it sleeps.
use cbdc_tokenization_sandbo.Prelude.{
  All, Bool-cases, Error, List, Option, Result, Result-cases, [], ap, arith, err, if◌then◌else◌,
  inl, inr, length, max, none, ok, refl, some, some-injective, suc, zero, ℕ, ◌+◌, ◌<◌, ◌∙◌, ◌≡◌,
  ◌≤◌,
}
use cbdc_tokenization_sandbo.Ingestion.Boot.{
  Boot, BootEnd, RetryOptions, booted, failed_at, gave_up, is_identity_mismatch, next_delay,
  retry_loop, slept_for, start_ingestion_loop_with_retry, still_retrying,
}

-- How the loop ends with an attempt, if it does.
abbrev pub end_of : Result (Unit {0}) → Option BootEnd
end_of (ok _) = some booted
end_of (err e) = if is_identity_mismatch e then some (gave_up e) else none

module _ (opts : RetryOptions) (now : ℕ → ℕ) (start : ℕ → Result (Unit {0})) where
  -- A failed attempt that is not the last sleeps, and the loop goes on.
  retry_loop-again :
      (fuel attempt delay : ℕ) (st : Boot)
      → end_of (start attempt) ≡ none
      → (e : Error) × (retry_loop opts now start (suc fuel) attempt delay st
          ≡ retry_loop opts now start fuel
              (attempt + 1)
              (next_delay opts delay)
              (slept_for delay (failed_at (now attempt) e st)))
  unfolding retry_loop
  retry_loop-again fuel attempt delay st goes_on = elim (Result-cases (start attempt)) [
    | inl (e, throws) ↦ elim (Bool-cases (is_identity_mismatch e)) [
      | inl over ↦
          let impossible : some (gave_up e) ≡ none = rw (throws, over) at goes_on in absurd cc
      | inr retries ↦ (e, rw (throws, retries) refl)
    ]
    | inr (done, returns) ↦
        let impossible : some booted ≡ none = rw (returns) at goes_on in absurd cc
  ]

  -- The attempt that ends the loop.
  retry_loop-last :
      (fuel attempt delay : ℕ) (st : Boot) (last : BootEnd)
      → end_of (start attempt) ≡ some last
      → ((retry_loop opts now start (suc fuel) attempt delay st).1 ≡ last)
        × ((retry_loop opts now start (suc fuel) attempt delay st).0.slept ≡ st.slept)
  unfolding retry_loop
  retry_loop-last fuel attempt delay st last ends = elim (Result-cases (start attempt)) [
    | inl (e, throws) ↦ elim (Bool-cases (is_identity_mismatch e)) [
      | inl over ↦
          let is_last : some (gave_up e) ≡ some last = rw (throws, over) at ends in
          (rw (throws, over) (some-injective is_last), rw (throws, over) refl)
      | inr retries ↦ let impossible : none ≡ some last = rw (throws, retries) at ends in absurd cc
    ]
    | inr (done, returns) ↦
        let is_last : some booted ≡ some last = rw (returns) at ends in
        (rw (returns) (some-injective is_last), rw (returns) refl)
  ]

  -- While no attempt ends the loop, it sleeps once for each.
  retry_loop-goes_on :
      (bound n fuel total attempt reached delay : ℕ) (st : Boot)
      → total ≡ n + fuel
      → reached ≡ attempt + n
      → opts.max_delay_ms ≤ bound
      → delay ≤ bound
      → All (λ (d : ℕ). d ≤ bound) st.slept
      → ((k : ℕ) → attempt ≤ k → k < reached → end_of (start k) ≡ none)
      → (next : ℕ) × (later : Boot) × (retry_loop opts now start total attempt delay st
          ≡ retry_loop opts now start fuel reached next later)
        × (length later.slept ≡ n + length st.slept)
        × All (λ (d : ℕ). d ≤ bound) later.slept
  retry_loop-goes_on bound zero fuel total attempt reached delay st all_fuel here capped small slept
        fails =
      let same_fuel : total ≡ fuel = omega arith in
      let same_attempt : reached ≡ attempt = omega arith in
      (delay, st, rw (same_fuel, same_attempt) refl, omega arith, slept)
  retry_loop-goes_on bound (suc n) fuel total attempt reached delay st all_fuel there capped small
        slept fails =
      let one_more : total ≡ suc (n + fuel) = omega arith in
      let (e, again) =
        retry_loop-again (n + fuel) attempt delay st (fails attempt (omega arith) (omega arith)) in
      let next_small : next_delay opts delay ≤ bound = ground arith in
      let (next, later, runs, slept_len, slept_small) =
        retry_loop-goes_on bound n fuel (n + fuel) (attempt + 1) reached (next_delay opts delay)
          (slept_for delay (failed_at (now attempt) e st)) refl (omega arith) capped next_small
          (small, slept) (λ k above below. fails k (omega arith) below) in
      let one_longer : length (slept_for delay (failed_at (now attempt) e st)).slept
          ≡ 1 + length st.slept =
        ground arith in
      (
        next,
        later,
        ap (λ turns. retry_loop opts now start turns attempt delay st) one_more ∙ (again ∙ runs),
        omega arith,
        slept_small,
      )

  -- If attempt `n` is the first that returns or throws a ChainIdentityMismatchError, the loop
  -- ends with it: booted, or with that error. It has slept `n` times, never longer than the first
  -- delay or the maximum, whichever is more. Before that attempt it is still retrying.
  pub start_ingestion_loop_with_retry-ends :
      (errors : List (ℕ × Error)) (n : ℕ) (last : BootEnd)
      → ((k : ℕ) → k < n → end_of (start k) ≡ none)
      → end_of (start n) ≡ some last
      → let run = start_ingestion_loop_with_retry opts now start (n + 1) errors in
        (run.1 ≡ last)
        × (length run.0.slept ≡ n)
        × All (λ (d : ℕ). d ≤ max opts.initial_delay_ms opts.max_delay_ms) run.0.slept
        × ((start_ingestion_loop_with_retry opts now start n errors).1 ≡ still_retrying)
  unfolding start_ingestion_loop_with_retry
  start_ingestion_loop_with_retry-ends errors n last fails ends =
      let before = λ (fuel total : ℕ) (enough : total ≡ n + fuel).
        retry_loop-goes_on (max opts.initial_delay_ms opts.max_delay_ms) n fuel total 0 n
          opts.initial_delay_ms (record { slept = []; recent_errors = errors }) enough (omega arith)
          (omega arith) (omega arith) tt (λ k _ below. fails k below) in
      let (next, later, runs, slept_len, slept_small) = before 1 (n + 1) refl in
      let (_, _, waits, _, _) = before 0 n (omega arith) in
      let (is_last, is_slept) = retry_loop-last 0 n next later last ends in
      (
        ap (λ (r : Boot × BootEnd). r.1) runs ∙ is_last,
        rw (runs, is_slept) (omega arith),
        rw (runs, is_slept) slept_small,
        ap (λ (r : Boot × BootEnd). r.1) waits,
      )
