-- ===== src/Examples/Views.antt =====
-- Theorems on the views at one input each: an auction, its allocation and its bond.
use cbdc_tokenization_sandbo.Prelude.{
  Holds, Option, [], codes, err, failure, false, map, max, none, ok, pos, quot_ℤ, refl, some,
  to_lower_case, true, ℕ, ℤ, ◌*◌, ◌+ℤ◌, ◌+◌, ◌-ℤ◌, ◌<◌, ◌∷◌, ◌≡◌, ◌≢◌, ◌≤◌,
}
use cbdc_tokenization_sandbo.Examples.{bid, coder, isin_a, two_bids}
use cbdc_tokenization_sandbo.Allocation.{
  AuctionType, compare_bid_plaintext, compute_buyback_allocation, compute_uniform_allocation,
  push_fill, sort_bids_by_auction_type, uniform_loop, uniform_result,
}
use cbdc_tokenization_sandbo.Allocation.Committed.{IsCommitted, compute_allocation-IsCommitted}
use cbdc_tokenization_sandbo.Database.{
  AuctionBidRow, AuctionRow, AuctionStatus, ProjectionContext, empty_projection,
}
use cbdc_tokenization_sandbo.Ingestion.Writes.Auctions.{replace_auction_allocations}
use cbdc_tokenization_sandbo.Projection.BondState.{BondState}
use cbdc_tokenization_sandbo.Projection.Snapshots.{AuctionSnapshot, BondSnapshot, load_auction}
use cbdc_tokenization_sandbo.Projection.AuctionView.{
  AllocationView, AuctionView, allocation_from_snapshot, compose_projected_auction,
  computed_allocation, milliseconds_of_end,
}
use cbdc_tokenization_sandbo.Projection.AuctionView.Finalised.{
  allocation_from_snapshot-recorded, chain_allocation_of,
}
use cbdc_tokenization_sandbo.Projection.BondView.{
  BondStatus, BondView, bond_status, compose_projected_bond, is_payable, next_payment,
  remaining_payments, total_payments,
}
use cbdc_tokenization_sandbo.Projection.BondView.Laws.{is_payable-status, payments-schedule}
use cbdc_tokenization_sandbo.Projection.Concealed.{
  AreSealed, Conceals, Pairwise, Unseal, compose_projected-Conceals,
}
use cbdc_tokenization_sandbo.Parsing.{parse_positive_bigint}

compute_allocation-IsCommitted_example :
    Holds
      (IsCommitted coder isin_a AuctionType.rate)
      (compute_uniform_allocation coder 7 isin_a AuctionType.rate two_bids (pos 12))
    × Holds
        (IsCommitted coder isin_a AuctionType.buyback)
        (compute_buyback_allocation coder 7 isin_a two_bids (pos 12))
compute_allocation-IsCommitted_example =
    compute_allocation-IsCommitted coder 7 isin_a AuctionType.rate two_bids (pos 12)

abbrev pub row_in : AuctionStatus → Option ℤ → AuctionRow
row_in status finalised_at = record {
  auction_id = codes "0x1";
  isin = isin_a;
  type = some (codes "RATE");
  created_block = some 3;
  created_tx = none;
  bond = none;
  owner = none;
  end = some (pos 50);
  offering = some (pos 12);
  auction_pub_key = none;
  status = status;
  closed_at = some (pos 60000);
  finalised_at = finalised_at;
}

abbrev view_example : ℤ → AllocationView
view_example computed_at = record {
  clearing_rate = pos 325;
  total_allocated = pos 12;
  hash = isin_a;
  auction_type = AuctionType.rate;
  computed_at = computed_at;
  entries =
      record { bidder = codes "0xbb"; units = pos 6; rate = pos 325 }
      ∷ record { bidder = codes "0xaa"; units = pos 6; rate = pos 325 }
      ∷ [];
}

view_shown :
    computed_allocation coder 7
      (row_in AuctionStatus.closed_status none)
      AuctionType.rate
      two_bids
      (pos 12)
    ≡ ok (view_example (pos 60000))
unfolding computed_allocation compute_uniform_allocation uniform_loop push_fill uniform_result
    sort_bids_by_auction_type compare_bid_plaintext parse_positive_bigint ◌+ℤ◌ ◌-ℤ◌
    milliseconds_of_end
view_shown = refl

allocation_from_snapshot-recorded_example :
    allocation_from_snapshot coder 9
      (load_auction
        (replace_auction_allocations
          (codes "0x1")
          8
          (map (chain_allocation_of AuctionType.rate) (view_example (pos 60000)).entries)
          empty_projection)
        (row_in AuctionStatus.finalised_status (some (pos 70000))))
      AuctionType.rate
      none
    ≡ ok (some (view_example (pos 70000)))
unfolding to_lower_case
allocation_from_snapshot-recorded_example =
    allocation_from_snapshot-recorded coder 7 9 8 (row_in AuctionStatus.closed_status none)
      (row_in AuctionStatus.finalised_status (some (pos 70000))) AuctionType.rate two_bids (pos 12)
      (view_example (pos 60000)) empty_projection none view_shown (refl, (refl, tt)) refl

abbrev pub context_example : ProjectionContext
context_example = record {
  manager_address = codes "0x0a";
  token_address = codes "0x0b";
  auction_address = codes "0x0c";
  duration_scalar = pos 100;
}

abbrev sealed_row : AuctionBidRow
sealed_row = record {
  auction_id = codes "0x1";
  bid_index = 0;
  bidder = codes "0xaa";
  ciphertext = codes "0x51";
  plaintext_hash = codes "0x52";
  cancelled = false;
  source_block = 4;
  source_log_index = 0;
}

abbrev open_snapshot : AuctionSnapshot
open_snapshot = record {
  row = row_in AuctionStatus.open_status none;
  events = [];
  bids = sealed_row ∷ [];
  allocations = [];
  maturity_duration = none;
}

-- Ten coupons of 30 in 300; four are paid, the last of them at time 1000.
abbrev pub state_example : BondState
state_example = record {
  isin = isin_a;
  partition = [];
  bond_address = none;
  disabled = false;
  maturity_duration = some (pos 300);
  maturity_date = some (pos 1180);
  coupon_duration = some (pos 30);
  coupon_yield = some (pos 425);
  last_coupon_payment = some (pos 1000);
  coupon_payment_count = pos 4;
  is_matured = false;
  total_supply = pos 0;
  offering = pos 0;
  ever_issued = true;
  updated_block = 0;
  updated_log_index = 0;
}

abbrev bond_example : BondSnapshot
bond_example = record {
  state = state_example;
  balances = [];
  events = [];
  auctions = open_snapshot ∷ [];
  context = context_example;
  checkpoint = record { as_of_block = pos 9; block_timestamp = some 1030 };
}

abbrev pub never : Unseal
never _ _ _ = err (failure (codes "no key"))

abbrev always : Unseal
always _ _ _ = ok (bid (codes "0xaa") (codes "325") (codes "10") 0)

compose_projected-Conceals_example :
    Holds
      (λ (view : AuctionView). AreSealed (sealed_row ∷ []) view.bids)
      (compose_projected_auction coder never 7 open_snapshot context_example false)
    × (compose_projected_auction coder never 7 open_snapshot context_example false
        ≡ compose_projected_auction coder always 7 open_snapshot context_example false)
    × Holds
        (λ (view : BondView). Pairwise Conceals (open_snapshot ∷ []) view.auctions)
        (compose_projected_bond coder never 7 bond_example)
compose_projected-Conceals_example =
    compose_projected-Conceals coder never always 7 open_snapshot bond_example context_example refl

is_payable-status_example : bond_status bond_example ≢ BondStatus.staged
unfolding is_payable next_payment remaining_payments total_payments quot_ℤ ◌+ℤ◌ ◌-ℤ◌
is_payable-status_example = is_payable-status bond_example refl refl

payments-schedule_example :
    (n r : ℕ) × (total_payments state_example ≡ some (pos n))
    × (remaining_payments state_example ≡ some (pos r))
    × (n * 30 ≤ 300)
    × (300 < (n + 1) * 30)
    × (4 + r ≡ max n 4)
payments-schedule_example = payments-schedule state_example 300 29 4 refl refl refl
