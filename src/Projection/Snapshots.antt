-- ===== src/Projection/Snapshots.antt =====
-- projection/snapshots.ts: what the views are composed from, read in one transaction, so from one
-- state of the tables. The checkpoint is that of `contract`; the order of texts is SQLite's.
use cbdc_tokenization_sandbo.Prelude.{
  Bool, List, Option, Text, [], case_option, map, none, pos, some, ℕ, ℤ, ◌∷◌,
}
use cbdc_tokenization_sandbo.Database.{
  AuctionAllocationRow, AuctionBidRow, AuctionEventRow, AuctionRow, BalanceRow, BondEventRow,
  ProjectionContext, ProjectionTables,
}
use cbdc_tokenization_sandbo.Database.Bonds.{BondRow, list_all_bonds}
use cbdc_tokenization_sandbo.Database.Queries.{
  get_auction_allocations, get_auction_bids, get_auction_events_by_id, get_auction_row_by_id,
  get_balances_by_isin, get_bond_events_by_isin, get_bond_state_by_isin, get_projection_checkpoint,
  get_projection_context, list_all_auctions, list_auction_rows_by_isin,
}
use cbdc_tokenization_sandbo.Projection.BondState.{BondState}

pub record AuctionSnapshot : Type 0 where
  pub row : AuctionRow
  pub events : List AuctionEventRow
  pub bids : List AuctionBidRow
  pub allocations : List AuctionAllocationRow
  pub maturity_duration : Option ℤ

pub record ProjectionCheckpoint : Type 0 where
  pub as_of_block : ℤ
  pub block_timestamp : Option ℕ

pub record BondSnapshot : Type 0 where
  pub state : BondState
  pub balances : List BalanceRow
  pub events : List BondEventRow
  pub auctions : List AuctionSnapshot
  pub context : ProjectionContext
  pub checkpoint : ProjectionCheckpoint

pub record LoadedAuction : Type 0 where
  pub auction : AuctionSnapshot
  pub context : ProjectionContext
  pub checkpoint : ProjectionCheckpoint

pub record LoadedAuctions : Type 0 where
  pub auctions : List AuctionSnapshot
  pub context : ProjectionContext
  pub checkpoint : ProjectionCheckpoint

unfoldable pub load_auction : ProjectionTables → AuctionRow → AuctionSnapshot
load_auction db row = record {
  row = row;
  events = get_auction_events_by_id row.auction_id (pos 500) 0 db;
  bids = get_auction_bids row.auction_id db;
  allocations = get_auction_allocations row.auction_id db;
  maturity_duration =
      case_option (get_bond_state_by_isin row.isin db) none
        (λ (state : BondState). state.maturity_duration);
}

abbrev pub checkpoint_of : ℤ × Option ℕ → ProjectionCheckpoint
checkpoint_of (block, time) = record { as_of_block = block; block_timestamp = time }

-- The context and the checkpoint, where the projection has both.
unfoldable pub projection_head :
    Text → ProjectionTables → Option (ProjectionContext × ProjectionCheckpoint)
projection_head contract db = case_option (get_projection_context db) none (λ context.
    case_option (get_projection_checkpoint contract db) none
      (λ checkpoint. some (context, checkpoint_of checkpoint)))

unfoldable pub load_auction_snapshot : Text → Text → ProjectionTables → Option LoadedAuction
unfolding load_auction projection_head
load_auction_snapshot contract auction_id db =
    case_option (get_auction_row_by_id auction_id db) none (λ row.
      case_option (projection_head contract db) none (λ head.
        some (record { auction = load_auction db row; context = head.0; checkpoint = head.1 })))

module _ (contract : Text) (text_leb : Text → Text → Bool) where
  unfoldable pub load_all_auction_snapshots : ProjectionTables → Option LoadedAuctions
  unfolding load_auction projection_head
  load_all_auction_snapshots db = case_option (projection_head contract db) none (λ head.
      some (record {
        auctions = map (load_auction db) (list_all_auctions text_leb db);
        context = head.0;
        checkpoint = head.1;
      }))

  -- The snapshot of a bond that has a state.
  abbrev pub bond_snapshot :
      ProjectionTables → ProjectionContext × ProjectionCheckpoint → BondState → Text → BondSnapshot
  bond_snapshot db head state isin = record {
    state = state;
    balances = get_balances_by_isin text_leb isin db;
    events = get_bond_events_by_isin isin (pos 1000) 0 db;
    auctions = map (load_auction db) (list_auction_rows_by_isin text_leb isin db);
    context = head.0;
    checkpoint = head.1;
  }

  unfoldable pub load_bond_snapshot : Text → ProjectionTables → Option BondSnapshot
  unfolding load_auction projection_head
  load_bond_snapshot isin db = case_option (get_bond_state_by_isin isin db) none (λ state.
      case_option (projection_head contract db) none
        (λ head. some (bond_snapshot db head state isin)))

  -- Bonds with no state are left out.
  unfoldable pub bond_snapshots :
      ProjectionTables → ProjectionContext × ProjectionCheckpoint → List BondRow → List BondSnapshot
  unfolding load_auction
  bond_snapshots db head [] = []
  bond_snapshots db head (row ∷ rows) =
      let rest = bond_snapshots db head rows in
      case_option (get_bond_state_by_isin row.isin db) rest
        (λ state. bond_snapshot db head state row.isin ∷ rest)

  unfoldable pub load_all_bond_snapshots : Bool → ProjectionTables → List BondSnapshot
  unfolding projection_head bond_snapshots
  load_all_bond_snapshots include_disabled db =
      case_option (projection_head contract db) []
        (λ head. bond_snapshots db head (list_all_bonds text_leb include_disabled db))
