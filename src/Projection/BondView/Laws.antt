-- ===== src/Projection/BondView/Laws.antt =====
-- compose-projection.ts: the coupon schedule of a bond, and its status.
use cbdc_tokenization_sandbo.Prelude.{
  &&-true, Bool, Bool-cases, Option, Option-cases, arith, false, inl, inr, leb_ℤ, ltb_ℤ, max, none,
  pos, quot_ℤ, refl, some, some-injective, suc, true, ℕ, ℤ, ◌&&◌, ◌*◌, ◌+◌, ◌-ℤ◌, ◌-◌, ◌/◌, ◌<◌,
  ◌||◌, ◌≡◌, ◌≢◌, ◌≤ℤ◌, ◌≤◌,
}
use cbdc_tokenization_sandbo.Projection.BondState.{BondState}
use cbdc_tokenization_sandbo.Projection.BondView.{
  BondStatus, bond_status, is_payable, is_running, last_auction, less_made, next_payment,
  remaining_coupon_periods, remaining_payments, total_payments,
}
use cbdc_tokenization_sandbo.Projection.Snapshots.{BondSnapshot}

-- The two computations of what remains agree.
remaining_payments-periods :
    (state : BondState) (r : ℤ)
    → remaining_payments state ≡ some r
    → remaining_coupon_periods state ≡ r
unfolding remaining_payments remaining_coupon_periods total_payments
remaining_payments-periods state r e = elim (Option-cases state.maturity_duration) [
  | inl absent_maturity ↦ let impossible : none ≡ some r = rw (absent_maturity) at e in absurd cc
  | inr (maturity, has_maturity) ↦ elim (Option-cases state.coupon_duration) [
    | inl absent_duration ↦
        let impossible : none ≡ some r = rw (has_maturity, absent_duration) at e in absurd cc
    | inr (duration, has_duration) ↦ elim (Bool-cases (ltb_ℤ (pos 0) duration)) [
      | inl positive ↦
          let not_less : leb_ℤ duration (pos 0) ≡ false = ground arith in
          let same : some (less_made (quot_ℤ maturity duration) state.coupon_payment_count)
              ≡ some r =
            rw (has_maturity, has_duration, positive) at e in
          rw (has_maturity, has_duration, not_less) (some-injective same)
      | inr other ↦
          let impossible : none ≡ some r = rw (has_maturity, has_duration, other) at e in absurd cc
    ]
  ]
]

div_bounds : (m d : ℕ) → (m / suc d * suc d ≤ m) × (m < (m / suc d + 1) * suc d)
div_bounds m d = grind arith

-- What a coupon that can be paid needs: a due date that has come, and a payment that remains.
is_payable-needs :
    (state : BondState) (time : Option ℕ)
    → is_payable state time ≡ true
    → (now : ℕ) × (due : ℤ) × (r : ℤ) × (time ≡ some now)
      × (next_payment state ≡ some due)
      × (remaining_payments state ≡ some r)
      × (pos 1 ≤ℤ r)
      × (due ≤ℤ pos now)
unfolding is_payable
is_payable-needs state none e = absurd cc
is_payable-needs state (some now) e = elim (Option-cases (next_payment state)) [
  | inl no_due ↦ let impossible : false ≡ true = rw (no_due) at e in absurd cc
  | inr (due, has_due) ↦ elim (Option-cases (remaining_payments state)) [
    | inl no_rest ↦ let impossible : false ≡ true = rw (has_due, no_rest) at e in absurd cc
    | inr (r, has_rest) ↦
        let tests : (ltb_ℤ (pos 0) r && leb_ℤ due (pos now)) ≡ true = rw (has_due, has_rest) at e in
        let (remains, has_come) = &&-true (ltb_ℤ (pos 0) r) (leb_ℤ due (pos now)) tests in
        (now, due, r, refl, has_due, has_rest, ground arith, ground arith)
  ]
]

or-true : (b : Bool) → (b || true) ≡ true
or-true b = ground arith

-- A bond that was issued and has a payable coupon is never shown as staged: it stays in the queue of
-- payouts, is in an auction, or has matured.
pub is_payable-status :
    (snapshot : BondSnapshot)
    → snapshot.state.ever_issued ≡ true
    → is_payable snapshot.state snapshot.checkpoint.block_timestamp ≡ true
    → bond_status snapshot ≢ BondStatus.staged
unfolding bond_status
is_payable-status snapshot was_issued payable =
    let (_, _, r, _, _, rest, positive, _) =
      is_payable-needs snapshot.state snapshot.checkpoint.block_timestamp payable in
    let periods = remaining_payments-periods snapshot.state r rest in
    let remains : ltb_ℤ (pos 0) (remaining_coupon_periods snapshot.state) ≡ true =
      rw (periods) (ground arith) in
    elim (Bool-cases snapshot.state.is_matured) [
      | inl over ↦ rw (over) (λ e. cc)
      | inr not_over ↦ elim (Bool-cases (is_running (last_auction snapshot.auctions))) [
        | inl running ↦ rw (not_over, running) (λ e. cc)
        | inr idle ↦
            rw (not_over, idle, was_issued, remains)
              (rw (or-true (ltb_ℤ (pos 0) snapshot.state.total_supply)) (λ e. cc))
      ]
    ]

less_made-pos : (n k : ℕ) → less_made (pos n) (pos k) ≡ pos (n - k)
unfolding ◌-ℤ◌
less_made-pos n k = ground arith

-- The schedule of a bond with a maturity of `m` and a coupon every `d + 1`, of which `k` are paid:
-- there are as many payments as whole coupon periods in the maturity, and what is made and what
-- remains add up to them, or to what is made where that is more.
pub payments-schedule :
    (state : BondState) (m d k : ℕ)
    → state.maturity_duration ≡ some (pos m)
    → state.coupon_duration ≡ some (pos (suc d))
    → state.coupon_payment_count ≡ pos k
    → (n r : ℕ) × (total_payments state ≡ some (pos n))
      × (remaining_payments state ≡ some (pos r))
      × (n * suc d ≤ m)
      × (m < (n + 1) * suc d)
      × (k + r ≡ max n k)
unfolding total_payments remaining_payments quot_ℤ
payments-schedule state m d k has_maturity has_duration made =
    let (low, high) = div_bounds m d in
    let n = m / suc d in
    let positive : ltb_ℤ (pos 0) (pos (suc d)) ≡ true = ground arith in
    (
      n,
      n - k,
      rw (has_maturity, has_duration, positive) refl,
      rw (has_maturity, has_duration, made, positive, less_made-pos n k) refl,
      low,
      high,
      omega arith,
    )
