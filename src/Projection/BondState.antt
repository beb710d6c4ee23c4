-- ===== src/Projection/BondState.antt =====
-- projection/bond-state.ts: the lifecycle of one bond as a fold over chain events. The decimal texts
-- of the source's record are the integers that they denote.
pub mod Laws
use cbdc_tokenization_sandbo.Prelude.{
  Bool, Option, Result, Text, eqb_ℤ, err, false, if◌then◌else◌, ltb, ltb_ℤ,
  negative_projected_supply, none, ok, pos, some, to_lower_case, true, ℕ, ℤ, ◌&&◌, ◌+ℤ◌, ◌==◌,
  ◌>>=◌, ◌>>◌, ◌||◌,
}

pub record BondState : Type 0 where
  pub isin : Text
  pub partition : Text
  pub bond_address : Option Text
  pub disabled : Bool
  pub maturity_duration : Option ℤ
  pub maturity_date : Option ℤ
  pub coupon_duration : Option ℤ
  pub coupon_yield : Option ℤ
  pub last_coupon_payment : Option ℤ
  pub coupon_payment_count : ℤ
  pub is_matured : Bool
  pub total_supply : ℤ
  pub offering : ℤ
  pub ever_issued : Bool
  pub updated_block : ℕ
  pub updated_log_index : ℕ

pub data BondProjectionEvent : Type 0 where
  -- partition, bond address, maturity duration
  created : Text → Option Text → ℤ → BondProjectionEvent
  disabled : Bool → BondProjectionEvent
  issued : ℤ → BondProjectionEvent
  -- coupon duration, coupon yield, block timestamp
  enabled : ℤ → ℤ → ℤ → BondProjectionEvent
  offering_changed : ℤ → BondProjectionEvent
  issuance_complete : BondProjectionEvent
  -- payment number, block timestamp
  coupon_paid : ℤ → ℤ → BondProjectionEvent
  matured : BondProjectionEvent
  supply_delta : ℤ → BondProjectionEvent

pub record Position : Type 0 where
  pub block : ℕ
  pub log_index : ℕ

unfoldable pub empty_bond_state : Text → Text → BondState
empty_bond_state isin partition = record {
  isin = isin;
  partition = to_lower_case partition;
  bond_address = none;
  disabled = false;
  maturity_duration = none;
  maturity_date = none;
  coupon_duration = none;
  coupon_yield = none;
  last_coupon_payment = none;
  coupon_payment_count = pos 0;
  is_matured = false;
  total_supply = pos 0;
  offering = pos 0;
  ever_issued = false;
  updated_block = 0;
  updated_log_index = 0;
}

abbrev or_zero : Option ℤ → ℤ
or_zero none = pos 0
or_zero (some z) = z

-- The `switch`, one clause a case.
unfoldable pub apply_event : BondState → BondProjectionEvent → Result BondState
unfolding empty_bond_state
apply_event current (created partition bond_address duration) =
    ok (record (empty_bond_state current.isin partition) {
      partition = to_lower_case partition;
      bond_address = bond_address;
      maturity_duration = some duration;
      disabled = false;
    })
apply_event current (disabled flag) = ok (record current { disabled = flag })
apply_event current (issued offering) = ok (record current { offering = offering })
apply_event current (offering_changed offering) = ok (record current { offering = offering })
apply_event current (enabled duration yield timestamp) = ok (record current {
  coupon_duration = some duration;
  coupon_yield = some yield;
  last_coupon_payment =
      if eqb_ℤ current.coupon_payment_count (pos 0)
      then some timestamp
      else current.last_coupon_payment;
  maturity_date = some (timestamp +ℤ or_zero current.maturity_duration);
})
apply_event current issuance_complete = ok (record current { ever_issued = true })
apply_event current (coupon_paid number timestamp) = ok (
    if ltb_ℤ current.coupon_payment_count number
    then record current { coupon_payment_count = number; last_coupon_payment = some timestamp }
    else current)
apply_event current matured = ok (record current { is_matured = true })
apply_event current (supply_delta delta) =
    let supply = current.total_supply +ℤ delta in
    if ltb_ℤ supply (pos 0)
    then err (negative_projected_supply current.isin)
    else ok (record current { total_supply = supply })

-- `position` is later than the last one that was recorded.
abbrev pub is_later : Position → BondState → Bool
is_later position next =
    ltb next.updated_block position.block
    || (position.block == next.updated_block && ltb next.updated_log_index position.log_index)

unfoldable pub advance_position : BondState → Position → BondState
advance_position next position =
    if is_later position next
    then record next { updated_block = position.block; updated_log_index = position.log_index }
    else next

unfoldable pub reduce_bond_state : BondState → BondProjectionEvent → Position → Result BondState
reduce_bond_state current event position = do
  next ← apply_event current event
  ok (advance_position next position)
