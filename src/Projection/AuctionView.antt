-- ===== src/Projection/AuctionView.antt =====
-- projection/compose-projection.ts: the view of an auction. The hashes that `withMd5` stamps on every
-- object stay out; decimal texts are the integers that they denote. `unsealBid` with the service's
-- key is the parameter `unseal`.
pub mod Finalised
use cbdc_tokenization_sandbo.Prelude.{
  Bool, List, Option, Result, Text, [], case_option, case_result, codes, err, false, get_or,
  if◌then◌else◌, leb_ℤ, map, negsuc, none, not, ok, pos, sequence_map, some, text_eq, true,
  unsupported_auction_type, ℕ, ℤ, ◌*◌, ◌+ℤ◌, ◌+◌, ◌>>=◌, ◌>>◌, ◌||◌, ◌∷◌,
}
use cbdc_tokenization_sandbo.Allocation.{
  AbiCoder, Allocation, AllocationResult, AuctionType, UnsealedBid, build_allocation_hash, buyback,
  compute_buyback_allocation, compute_uniform_allocation, is_nil, price,
}
use cbdc_tokenization_sandbo.Database.{
  AuctionAllocationRow, AuctionBidRow, AuctionEventRow, AuctionRow, AuctionStatus,
  ProjectionContext, closed_status, open_status,
}
use cbdc_tokenization_sandbo.Database.Table.{select_rows}
use cbdc_tokenization_sandbo.Parsing.{parse_bigint, string}
use cbdc_tokenization_sandbo.Projection.Snapshots.{AuctionSnapshot}
use cbdc_tokenization_sandbo.Sealing.Bid.{SealedBid, normalize_sealed_bid}

pub record TxRef : Type 0 where
  pub hash : Text
  pub block : Option ℕ

pub record AuctionTxs : Type 0 where
  pub create : TxRef
  pub close : Option TxRef
  pub finalise : Option TxRef
  pub cancel : Option TxRef

pub data BidView : Type 0 where
  -- bidder, index, ciphertext, hash of the plaintext
  sealed : Text → ℕ → Text → Text → BidView
  -- bidder, index, rate, units
  unsealed : Text → ℕ → ℤ → ℤ → BidView

pub record AllocationEntry : Type 0 where
  pub bidder : Text
  pub units : ℤ
  pub rate : ℤ

pub record AllocationView : Type 0 where
  pub clearing_rate : ℤ
  pub total_allocated : ℤ
  pub hash : Text
  pub auction_type : AuctionType
  pub computed_at : ℤ
  pub entries : List AllocationEntry

pub record AuctionView : Type 0 where
  pub id : Text
  pub isin : Text
  pub type : AuctionType
  pub status : AuctionStatus
  pub end : Option ℤ
  pub size : Option ℤ
  pub maturity_duration : Option ℤ
  pub owner : Text
  pub sealing_pub_key : Text
  pub auction_contract : Text
  pub token_contract : Text
  pub bids : List BidView
  pub allocation : Option AllocationView
  pub txs : AuctionTxs

-- `auctionType` with `numericAuctionType`
unfoldable pub auction_type_of : Option Text → Result AuctionType
auction_type_of none = err (unsupported_auction_type (codes "null"))
auction_type_of (some value) =
    if text_eq value (codes "RATE")
    then ok AuctionType.rate
    else if text_eq value (codes "PRICE")
    then ok AuctionType.price
    else if text_eq value (codes "BUYBACK")
    then ok AuctionType.buyback
    else err (unsupported_auction_type value)

abbrev pub event_ref : AuctionEventRow → TxRef
event_ref event = record { hash = event.tx_hash; block = some event.block }

-- The last event of a type, `found` if there is none.
unfoldable pub last_event : Text → Option TxRef → List AuctionEventRow → Option TxRef
last_event type found [] = found
last_event type found (event ∷ events) =
    last_event type (if text_eq event.type type then some (event_ref event) else found) events

abbrev pub no_text : Option Text → Bool
no_text none = true
no_text (some t) = is_nil t

unfoldable pub txs_of : AuctionSnapshot → AuctionTxs
unfolding last_event
txs_of snapshot = record {
  create =
      if no_text snapshot.row.created_tx
      then record { hash = codes "0x"; block = none }
      else record { hash = get_or snapshot.row.created_tx []; block = snapshot.row.created_block };
  close = last_event (codes "CLOSED") none snapshot.events;
  finalise = last_event (codes "FINALISED") none snapshot.events;
  cancel = last_event (codes "CANCELLED") none snapshot.events;
}

unfoldable pub sealed_bid : AuctionBidRow → BidView
sealed_bid row = sealed row.bidder row.bid_index row.ciphertext row.plaintext_hash

unfoldable pub unsealed_bid : UnsealedBid → Result BidView
unsealed_bid raw = do
  rate_value ← parse_bigint (string raw.plaintext.rate) (codes "rate")
  units_value ← parse_bigint (string raw.plaintext.units) (codes "units")
  ok (unsealed raw.bidder raw.bid_index rate_value units_value)

abbrev pub active_rows : AuctionSnapshot → List AuctionBidRow
active_rows snapshot = select_rows (λ (row : AuctionBidRow). not row.cancelled) snapshot.bids

abbrev pub is_open : AuctionStatus → Bool
is_open AuctionStatus.open_status = true
is_open _ = false

abbrev pub is_closed : AuctionStatus → Bool
is_closed AuctionStatus.closed_status = true
is_closed _ = false

abbrev pub is_rate : AuctionType → Bool
is_rate AuctionType.rate = true
is_rate _ = false

abbrev pub entry_of_row : AuctionAllocationRow → AllocationEntry
entry_of_row row = record { bidder = row.bidder; units = row.units; rate = row.rate }

abbrev pub entry_of : Allocation → AllocationEntry
entry_of a = record { bidder = a.bidder; units = a.units; rate = a.rate }

-- What is hashed of an entry; the other fields are not read.
abbrev pub hashed : Text → AuctionType → AllocationEntry → Allocation
hashed isin type entry = record {
  isin = isin;
  bidder = entry.bidder;
  units = entry.units;
  rate = entry.rate;
  auction_type = type;
  bid_index = 0;
}

unfoldable pub sum_units : ℤ → List AllocationEntry → ℤ
sum_units total [] = total
sum_units total (entry ∷ entries) = sum_units (total +ℤ entry.units) entries

-- `closed_at ?? Number(BigInt(end ?? '0') * 1000n)`
unfoldable pub milliseconds_of_end : Option ℤ → Option ℤ → ℤ
milliseconds_of_end (some closed_at) end = closed_at
milliseconds_of_end none none = pos 0
milliseconds_of_end none (some (pos n)) = pos (n * 1000)
milliseconds_of_end none (some (negsuc n)) = negsuc (n * 1000 + 999)

unfoldable pub bid_views : AuctionSnapshot → Option (List UnsealedBid) → Result (List BidView)
unfolding unsealed_bid sealed_bid
bid_views snapshot (some bids) = sequence_map unsealed_bid bids
bid_views snapshot none = ok (map sealed_bid (active_rows snapshot))

-- The object that is returned.
unfoldable pub auction_view :
    AuctionSnapshot
    → ProjectionContext
    → AuctionType
    → List BidView
    → Option AllocationView
    → AuctionView
unfolding txs_of
auction_view snapshot context type bids allocation = record {
  id = snapshot.row.auction_id;
  isin = snapshot.row.isin;
  type = type;
  status = snapshot.row.status;
  end = snapshot.row.end;
  size = snapshot.row.offering;
  maturity_duration = if is_rate type then snapshot.maturity_duration else none;
  owner = get_or snapshot.row.owner (codes "0x");
  sealing_pub_key = get_or snapshot.row.auction_pub_key (codes "0x");
  auction_contract = context.auction_address;
  token_contract = context.token_address;
  bids = bids;
  allocation = allocation;
  txs = txs_of snapshot;
}

module _ (coder : AbiCoder) where
  -- The allocations that the contract holds.
  unfoldable pub stored_allocation :
      Text → AuctionType → Option ℤ → AllocationEntry → List AllocationEntry → Result AllocationView
  unfolding sum_units
  stored_allocation isin type finalised_at first others = do
    hash ←
        build_allocation_hash coder isin type first.rate (map (hashed isin type) (first ∷ others))
    ok (record {
      clearing_rate = first.rate;
      total_allocated = sum_units (pos 0) (first ∷ others);
      hash = hash;
      auction_type = type;
      computed_at = get_or finalised_at (pos 0);
      entries = first ∷ others;
    })

  abbrev pub compute_allocation :
      ℕ → Text → AuctionType → List UnsealedBid → ℤ → Result AllocationResult
  compute_allocation now isin AuctionType.buyback bids offering =
      compute_buyback_allocation coder now isin bids offering
  compute_allocation now isin type bids offering =
      compute_uniform_allocation coder now isin type bids offering

  -- The allocation that would be finalised.
  unfoldable pub computed_allocation :
      ℕ → AuctionRow → AuctionType → List UnsealedBid → ℤ → Result AllocationView
  computed_allocation now row type bids offering = do
    result ← compute_allocation now row.isin type bids offering
    ok (record {
      clearing_rate = result.clearing_rate;
      total_allocated = result.total_allocated;
      hash = result.allocation_hash;
      auction_type = type;
      computed_at = milliseconds_of_end row.closed_at row.end;
      entries = map entry_of result.allocations;
    })

  abbrev pub some_view : Result AllocationView → Result (Option AllocationView)
  some_view call = do view ← call; ok (some view)

  -- From the recorded entries if there are any, else from the bids.
  unfoldable pub allocation_of_entries :
      ℕ
      → AuctionRow
      → AuctionType
      → Option (List UnsealedBid)
      → List AllocationEntry
      → Result (Option AllocationView)
  unfolding stored_allocation computed_allocation
  allocation_of_entries now row type unsealed_bids (first ∷ others) =
      some_view (stored_allocation row.isin type row.finalised_at first others)
  allocation_of_entries now row type unsealed_bids [] =
      if not (is_closed row.status)
      then ok none
      else case_option unsealed_bids (ok none) (λ bids.
        case_option row.offering (ok none) (λ offering.
          if leb_ℤ offering (pos 0) || is_nil bids
          then ok none
          else some_view (computed_allocation now row type bids offering)))

  unfoldable pub allocation_from_snapshot :
      ℕ → AuctionSnapshot → AuctionType → Option (List UnsealedBid) → Result (Option AllocationView)
  unfolding allocation_of_entries
  allocation_from_snapshot now snapshot type unsealed_bids =
      allocation_of_entries now snapshot.row type unsealed_bids
        (map entry_of_row snapshot.allocations)

  module _ (unseal : Text → SealedBid → Option ℕ → Result UnsealedBid) where
    unfoldable pub active_unsealed_bids : AuctionSnapshot → Result (List UnsealedBid)
    unfolding normalize_sealed_bid
    active_unsealed_bids snapshot =
        sequence_map
          (λ (row : AuctionBidRow).
            unseal snapshot.row.isin
              (normalize_sealed_bid (record {
                bidder = row.bidder;
                ciphertext = row.ciphertext;
                plaintext_hash = row.plaintext_hash;
              }))
              (some row.bid_index))
          (active_rows snapshot)

    -- The bids, where the status or the option lets them be seen and all of them unseal.
    unfoldable pub visible_bids : AuctionSnapshot → Bool → Option (List UnsealedBid)
    unfolding active_unsealed_bids
    visible_bids snapshot reveal_open_bids =
        if not (is_open snapshot.row.status) || reveal_open_bids
        then case_result (active_unsealed_bids snapshot) (λ _. none) some
        else none

    unfoldable pub compose_projected_auction :
        ℕ → AuctionSnapshot → ProjectionContext → Bool → Result AuctionView
    unfolding visible_bids bid_views allocation_from_snapshot auction_view
    compose_projected_auction now snapshot context reveal_open_bids = do
      type ← auction_type_of snapshot.row.type
      let visible = visible_bids snapshot reveal_open_bids
      bids ← bid_views snapshot visible
      allocation ← allocation_from_snapshot now snapshot type visible
      ok (auction_view snapshot context type bids allocation)
