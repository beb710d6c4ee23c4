-- ===== src/Projection/BondState/Laws.antt =====
-- projection/bond-state.ts: the invariant of the reducer, its errors, and events that are repeated or
-- come in another order.
use cbdc_tokenization_sandbo.Prelude.{
  >>=-eq-ok, Error, arith, err, negative_projected_supply, none, ok, pos, refl, ℕ, ℤ, ◌+ℤ◌, ◌<ℤ◌,
  ◌<◌, ◌>>=◌, ◌≡◌, ◌≢◌, ◌≤ℤ◌, ◌≤◌, ◌⊎◌,
}
use cbdc_tokenization_sandbo.Projection.BondState.{
  BondProjectionEvent, BondState, Position, advance_position, apply_event, coupon_paid, created,
  disabled, enabled, issuance_complete, issued, matured, offering_changed, reduce_bond_state,
  supply_delta,
}

-- Supply and coupon count are not negative, and a coupon that was counted has a date.
pub record IsValid (s : BondState) : Type 0 where
  pub supply : pos 0 ≤ℤ s.total_supply
  pub count : pos 0 ≤ℤ s.coupon_payment_count
  pub dated : s.coupon_payment_count ≢ pos 0 → s.last_coupon_payment ≢ none

-- The lexicographic order of positions.
abbrev pub NotAfter : ℕ → ℕ → ℕ → ℕ → Type 0
NotAfter b l b' l' = (b < b') ⊎ ((b ≡ b') × (l ≤ l'))

advance_position-IsValid :
    (s : BondState) (p : Position) → IsValid s → IsValid (advance_position s p)
unfolding advance_position
advance_position-IsValid s p v = ground arith

-- The recorded position is at or behind the event's, and never moves back.
advance_position-NotAfter :
    (s : BondState) (p : Position)
    → let s' = advance_position s p in
      NotAfter p.block p.log_index s'.updated_block s'.updated_log_index
      × NotAfter s.updated_block s.updated_log_index s'.updated_block s'.updated_log_index
unfolding advance_position
advance_position-NotAfter s p = ground arith

apply_event-IsValid :
    (s s' : BondState) (e : BondProjectionEvent) → IsValid s → apply_event s e ≡ ok s' → IsValid s'
unfolding apply_event
apply_event-IsValid s s' (created p a d) v h = ground arith
apply_event-IsValid s s' (enabled d y t) v h = ground arith
apply_event-IsValid s s' (coupon_paid n t) v h = ground arith
apply_event-IsValid s s' (supply_delta d) v h = ground arith
apply_event-IsValid s s' _ v h = ground arith

-- Every event that is reduced keeps the invariant, and leaves a position that is not before the
-- event's.
pub reduce_bond_state-IsValid :
    (s s' : BondState) (e : BondProjectionEvent) (p : Position)
    → IsValid s
    → reduce_bond_state s e p ≡ ok s'
    → IsValid s' × NotAfter p.block p.log_index s'.updated_block s'.updated_log_index
unfolding reduce_bond_state
reduce_bond_state-IsValid s s' e p v h =
    let (next, applied, advanced) =
      >>=-eq-ok (apply_event s e) (λ n. ok (advance_position n p)) h in
    let e' : advance_position next p ≡ s' = cc advanced in
    rw (← e') (
      advance_position-IsValid next p (apply_event-IsValid s next e v applied),
      (advance_position-NotAfter next p).0,
    )

-- The reducer throws only on a change of supply that would leave it negative, and names the bond.
pub reduce_bond_state-error :
    (s : BondState) (e : BondProjectionEvent) (p : Position) (x : Error)
    → reduce_bond_state s e p ≡ err x
    → (delta : ℤ) × (e ≡ supply_delta delta)
      × (s.total_supply +ℤ delta <ℤ pos 0)
      × (x ≡ negative_projected_supply s.isin)
unfolding reduce_bond_state apply_event
reduce_bond_state-error s (supply_delta d) p x h = (d, refl, ground arith, ground arith)
reduce_bond_state-error s (created a b c) p x h = absurd (cc h)
reduce_bond_state-error s (disabled a) p x h = absurd (cc h)
reduce_bond_state-error s (issued a) p x h = absurd (cc h)
reduce_bond_state-error s (enabled a b c) p x h = absurd (cc h)
reduce_bond_state-error s (offering_changed a) p x h = absurd (cc h)
reduce_bond_state-error s issuance_complete p x h = absurd (cc h)
reduce_bond_state-error s (coupon_paid a b) p x h = absurd (cc h)
reduce_bond_state-error s matured p x h = absurd (cc h)

-- Counting a coupon twice is counting it once.
pub reduce_bond_state-coupon_paid_twice :
    (s : BondState) (number timestamp : ℤ) (p : Position)
    → (reduce_bond_state s (coupon_paid number timestamp) p >>= λ s'.
        reduce_bond_state s' (coupon_paid number timestamp) p)
      ≡ reduce_bond_state s (coupon_paid number timestamp) p
unfolding reduce_bond_state apply_event advance_position
reduce_bond_state-coupon_paid_twice s number timestamp p = ground arith

-- From a valid state, the event that enables a bond and the event of a coupon give the same state in
-- either order, positions included.
pub reduce_bond_state-enabled_coupon_comm :
    (s : BondState) (duration yield start number paid : ℤ) (p q : Position)
    → IsValid s
    → (reduce_bond_state s (enabled duration yield start) p >>= λ s'.
        reduce_bond_state s' (coupon_paid number paid) q)
      ≡ (reduce_bond_state s (coupon_paid number paid) q >>= λ s'.
          reduce_bond_state s' (enabled duration yield start) p)
unfolding reduce_bond_state apply_event advance_position
reduce_bond_state-enabled_coupon_comm s duration yield start number paid p q v = ground arith
