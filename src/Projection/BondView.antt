-- ===== src/Projection/BondView.antt =====
-- projection/compose-projection.ts: the view of a bond, of its coupons and of its lifecycle. Decimal
-- texts are the integers that they denote; the hashes that `withMd5` stamps stay out.
pub mod Laws
use cbdc_tokenization_sandbo.Prelude.{
  Bool, List, Option, Result, Text, [], case_option, eqb_ℤ, false, if◌then◌else◌, leb_ℤ, ltb_ℤ, map,
  none, ok, pos, quot_ℤ, sequence_map, some, true, ℕ, ℤ, ◌&&◌, ◌+ℤ◌, ◌-ℤ◌, ◌>>=◌, ◌>>◌, ◌||◌, ◌∷◌,
}
use cbdc_tokenization_sandbo.Allocation.{AbiCoder, UnsealedBid}
use cbdc_tokenization_sandbo.Database.{AuctionStatus, BalanceRow, closed_status, open_status}
use cbdc_tokenization_sandbo.Projection.BondState.{BondState}
use cbdc_tokenization_sandbo.Projection.Snapshots.{AuctionSnapshot, BondSnapshot}
use cbdc_tokenization_sandbo.Projection.AuctionView.{AuctionView, compose_projected_auction}
use cbdc_tokenization_sandbo.Sealing.Bid.{SealedBid}

pub data BondStatus : Type 0 where
  staged auctioning outstanding matured_bond : BondStatus

pub record PaymentsView : Type 0 where
  pub total : Option ℤ
  pub made : ℤ
  pub remaining : Option ℤ

pub record MaturityView : Type 0 where
  pub duration : Option ℤ
  pub duration_years : Option ℤ
  pub date : Option ℤ
  pub remaining : Option ℤ
  pub remaining_years : Option ℤ

pub record CouponView : Type 0 where
  pub duration : Option ℤ
  pub duration_years : Option ℤ
  pub rate_bps : Option ℤ
  pub last_payment_at : Option ℤ
  pub next_payment_due : Option ℤ
  pub payable : Bool
  pub payments : PaymentsView

pub record HolderView : Type 0 where
  pub holder : Text
  pub balance : ℤ

pub record BondView : Type 0 where
  pub isin : Text
  pub status : BondStatus
  pub disabled : Bool
  pub total_supply : ℤ
  pub token_contract : Text
  pub auction_contract : Text
  pub manager_contract : Text
  pub maturity : Option MaturityView
  pub coupon : Option CouponView
  pub holders : List HolderView
  pub auctions : List AuctionView

-- total > made ? total - made : 0
abbrev pub less_made : ℤ → ℤ → ℤ
less_made total made = if ltb_ℤ made total then total -ℤ made else pos 0

unfoldable pub remaining_coupon_periods : BondState → ℤ
unfolding quot_ℤ ◌-ℤ◌
remaining_coupon_periods state = case_option state.maturity_duration (pos 0) (λ maturity_duration.
    case_option state.coupon_duration (pos 0) (λ coupon_duration.
      if leb_ℤ coupon_duration (pos 0)
      then pos 0
      else less_made (quot_ℤ maturity_duration coupon_duration) state.coupon_payment_count))

unfoldable pub last_auction : List AuctionSnapshot → Option AuctionStatus
last_auction [] = none
last_auction (auction ∷ []) = some auction.row.status
last_auction (auction ∷ later ∷ auctions) = last_auction (later ∷ auctions)

abbrev pub is_running : Option AuctionStatus → Bool
is_running (some AuctionStatus.open_status) = true
is_running (some AuctionStatus.closed_status) = true
is_running _ = false

unfoldable pub bond_status : BondSnapshot → BondStatus
unfolding remaining_coupon_periods last_auction
bond_status snapshot =
    let state = snapshot.state in
    if state.is_matured
    then matured_bond
    else if is_running (last_auction snapshot.auctions)
    then auctioning
    else if state.ever_issued
        && (ltb_ℤ (pos 0) state.total_supply || ltb_ℤ (pos 0) (remaining_coupon_periods state))
    then outstanding
    else staged

unfoldable pub total_payments : BondState → Option ℤ
unfolding quot_ℤ
total_payments state = case_option state.maturity_duration none (λ maturity_duration.
    case_option state.coupon_duration none (λ coupon_duration.
      if ltb_ℤ (pos 0) coupon_duration
      then some (quot_ℤ maturity_duration coupon_duration)
      else none))

unfoldable pub remaining_payments : BondState → Option ℤ
unfolding total_payments ◌-ℤ◌
remaining_payments state =
    case_option (total_payments state) none
      (λ total. some (less_made total state.coupon_payment_count))

unfoldable pub next_payment : BondState → Option ℤ
unfolding ◌+ℤ◌
next_payment state = case_option state.last_coupon_payment none (λ last_payment.
    case_option state.coupon_duration none (λ duration. some (last_payment +ℤ duration)))

unfoldable pub is_payable : BondState → Option ℕ → Bool
unfolding next_payment remaining_payments
is_payable state checkpoint_time = case_option checkpoint_time false (λ time.
    case_option (next_payment state) false (λ due.
      case_option (remaining_payments state) false
        (λ remaining. ltb_ℤ (pos 0) remaining && leb_ℤ due (pos time))))

unfoldable pub remaining_maturity : BondState → Option ℕ → Option ℤ
unfolding ◌-ℤ◌
remaining_maturity state checkpoint_time = case_option state.maturity_date none (λ date.
    case_option checkpoint_time (some (pos 0))
      (λ time. if ltb_ℤ (pos time) date then some (date -ℤ pos time) else some (pos 0)))

unfoldable pub years : ℤ → Option ℤ → Option ℤ
unfolding quot_ℤ
years duration_scalar value =
    case_option value none
      (λ v. if eqb_ℤ duration_scalar (pos 0) then none else some (quot_ℤ v duration_scalar))

abbrev pub is_some : {A : Type 0} → Option A → Bool
is_some none = false
is_some (some a) = true

unfoldable pub maturity_view : BondSnapshot → Option MaturityView
unfolding years remaining_maturity
maturity_view snapshot =
    let state = snapshot.state in
    let scalar = snapshot.context.duration_scalar in
    let remaining = remaining_maturity state snapshot.checkpoint.block_timestamp in
    if is_some state.maturity_duration || is_some state.maturity_date
    then some (record {
      duration = state.maturity_duration;
      duration_years = years scalar state.maturity_duration;
      date = state.maturity_date;
      remaining = remaining;
      remaining_years = years scalar remaining;
    })
    else none

unfoldable pub payments_view : BondState → PaymentsView
unfolding total_payments remaining_payments
payments_view state = record {
  total = total_payments state;
  made = state.coupon_payment_count;
  remaining = remaining_payments state;
}

unfoldable pub coupon_view : BondSnapshot → Option CouponView
unfolding years next_payment is_payable payments_view
coupon_view snapshot =
    let state = snapshot.state in
    if is_some state.coupon_duration
      || (is_some state.coupon_yield || is_some (payments_view state).total)
    then some (record {
      duration = state.coupon_duration;
      duration_years = years snapshot.context.duration_scalar state.coupon_duration;
      rate_bps = state.coupon_yield;
      last_payment_at = state.last_coupon_payment;
      next_payment_due = next_payment state;
      payable = is_payable state snapshot.checkpoint.block_timestamp;
      payments = payments_view state;
    })
    else none

unfoldable pub holder_view : BalanceRow → HolderView
holder_view row = record { holder = row.holder; balance = row.balance }

module _ (coder : AbiCoder) (unseal : Text → SealedBid → Option ℕ → Result UnsealedBid) where
  -- Its auctions are composed without revealing open bids; the first that throws is thrown.
  unfoldable pub compose_projected_bond : ℕ → BondSnapshot → Result BondView
  unfolding bond_status maturity_view coupon_view holder_view compose_projected_auction
  compose_projected_bond now snapshot = do
    auctions ←
        sequence_map
          (λ (auction : AuctionSnapshot).
            compose_projected_auction coder unseal now auction snapshot.context false)
          snapshot.auctions
    ok (record {
      isin = snapshot.state.isin;
      status = bond_status snapshot;
      disabled = snapshot.state.disabled;
      total_supply = snapshot.state.total_supply;
      token_contract = snapshot.context.token_address;
      auction_contract = snapshot.context.auction_address;
      manager_contract = snapshot.context.manager_address;
      maturity = maturity_view snapshot;
      coupon = coupon_view snapshot;
      holders = map holder_view snapshot.balances;
      auctions = auctions;
    })
