-- ===== src/Database/Queries.antt =====
-- ingestion-db.ts: the queries on the projection. The order of texts is SQLite's: a parameter. A
-- missing block comes first in ascending order; `id` is the order of insertion, which `order_by` keeps.
pub mod Laws
use cbdc_tokenization_sandbo.Prelude.{
  Bool, List, Option, Text, case_option, drop, false, leb, ltb, ltb_ℤ, negsuc, none, not, pos, some,
  take, text_eq, true, ℕ, ℤ, ◌&&◌, ◌-ℤ◌, ◌||◌,
}
use cbdc_tokenization_sandbo.Ingestion.Writes.Auctions.{is_auction}
use cbdc_tokenization_sandbo.Ingestion.Writes.{is_bond}
use cbdc_tokenization_sandbo.Database.{
  AuctionAllocationRow, AuctionBidRow, AuctionEventRow, AuctionRow, BalanceRow, BondEventRow,
  Checkpoint, PartitionRow, ProjectionContext, ProjectionTables,
}
use cbdc_tokenization_sandbo.Database.Table.{find_row, has_row, select_rows}
use cbdc_tokenization_sandbo.Projection.BondState.{BondState, disabled}
use cbdc_tokenization_sandbo.Database.Records.{order_by}

-- `LIMIT limit OFFSET offset`; a negative limit is none.
abbrev pub page : {A : Type 0} → ℤ → ℕ → List A → List A
page (pos limit) offset rows = take limit (drop offset rows)
page (negsuc _) offset rows = drop offset rows

unfoldable pub get_auction_events_by_isin : Text → ℤ → ℕ → ProjectionTables → List AuctionEventRow
get_auction_events_by_isin isin limit offset db = page limit offset (
    order_by (λ (a : AuctionEventRow) (b : AuctionEventRow). leb a.block b.block)
      (select_rows (λ (e : AuctionEventRow). text_eq e.isin isin) db.auction_events))

unfoldable pub get_auction_events_by_id : Text → ℤ → ℕ → ProjectionTables → List AuctionEventRow
get_auction_events_by_id auction_id limit offset db = page limit offset (
    order_by (λ (a : AuctionEventRow) (b : AuctionEventRow). leb a.block b.block)
      (select_rows (λ (e : AuctionEventRow). text_eq e.auction_id auction_id) db.auction_events))

unfoldable pub get_bond_events_by_isin : Text → ℤ → ℕ → ProjectionTables → List BondEventRow
get_bond_events_by_isin isin limit offset db = page limit offset (
    order_by (λ (a : BondEventRow) (b : BondEventRow). leb a.block b.block)
      (select_rows (λ (e : BondEventRow). text_eq e.isin isin) db.bond_events))

unfoldable pub get_bond_state_by_isin : Text → ProjectionTables → Option BondState
get_bond_state_by_isin isin db = find_row (is_bond isin) db.bond_states

unfoldable pub get_projection_context : ProjectionTables → Option ProjectionContext
get_projection_context db = db.projection_context

-- The last block of the projection, and its time.
unfoldable pub get_projection_checkpoint : Text → ProjectionTables → Option (ℤ × Option ℕ)
get_projection_checkpoint contract db =
    case_option (find_row (λ (c : Checkpoint). text_eq c.contract contract) db.ingestion_state) none
      (λ c. some (pos c.last_block -ℤ pos 1, c.block_timestamp))

unfoldable pub get_auction_row_by_id : Text → ProjectionTables → Option AuctionRow
get_auction_row_by_id auction_id db = find_row (is_auction auction_id) db.auctions

unfoldable pub get_auction_bids : Text → ProjectionTables → List AuctionBidRow
get_auction_bids auction_id db =
    order_by (λ (a : AuctionBidRow) (b : AuctionBidRow). leb a.bid_index b.bid_index)
      (select_rows (λ (b : AuctionBidRow). text_eq b.auction_id auction_id) db.auction_bids)

abbrev pub by_position : AuctionAllocationRow → AuctionAllocationRow → Bool
by_position a b = leb a.position b.position

unfoldable pub get_auction_allocations : Text → ProjectionTables → List AuctionAllocationRow
get_auction_allocations auction_id db = order_by by_position (
    select_rows (λ (a : AuctionAllocationRow). text_eq a.auction_id auction_id)
      db.auction_allocations)

-- `MAX(disabled)`: is some partition of the ISIN disabled?
unfoldable pub is_bond_disabled : Text → ProjectionTables → Bool
is_bond_disabled isin db =
    has_row (λ (row : PartitionRow). text_eq row.isin isin && row.disabled) db.partitions

-- Missing blocks first, then the smaller.
abbrev pub block_lt : Option ℕ → Option ℕ → Bool
block_lt none none = false
block_lt none (some b) = true
block_lt (some a) none = false
block_lt (some a) (some b) = ltb a b

module _ (text_leb : Text → Text → Bool) where
  -- Holders with units.
  unfoldable pub get_balances_by_isin : Text → ProjectionTables → List BalanceRow
  get_balances_by_isin isin db =
      order_by (λ (a : BalanceRow) (b : BalanceRow). text_leb a.holder b.holder)
        (select_rows (λ (row : BalanceRow). text_eq row.isin isin && ltb_ℤ (pos 0) row.balance)
          db.balances)

  unfoldable pub list_auction_rows_by_isin : Text → ProjectionTables → List AuctionRow
  list_auction_rows_by_isin isin db =
      order_by
        (λ (a : AuctionRow) (b : AuctionRow).
          block_lt a.created_block b.created_block
          || (not (block_lt b.created_block a.created_block) && text_leb a.auction_id b.auction_id))
        (select_rows (λ (row : AuctionRow). text_eq row.isin isin) db.auctions)

  -- The newest first, then by id.
  unfoldable pub list_all_auctions : ProjectionTables → List AuctionRow
  list_all_auctions db =
      order_by
        (λ (a : AuctionRow) (b : AuctionRow).
          block_lt b.created_block a.created_block
          || (not (block_lt a.created_block b.created_block) && text_leb a.auction_id b.auction_id))
        db.auctions
