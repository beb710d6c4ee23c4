-- ===== src/Compose.antt =====
-- services/nb-bond-api/src/compose.ts: the objects that the API returns, each composed from one
-- snapshot of the tables. A failed dependency names its resource.
pub mod Bonds
pub mod Errors
pub mod History
pub mod Laws
use cbdc_tokenization_sandbo.Prelude.{
  Bool, List, Option, Result, Text, [], case_option, codes, dependency_unavailable, err,
  if◌then◌else◌, length, none, not, ok, sequence_map, some, text_eq, true, ℕ, ◌++◌, ◌==◌, ◌>>=◌,
  ◌>>◌,
}
use cbdc_tokenization_sandbo.Allocation.{AbiCoder, UnsealedBid}
use cbdc_tokenization_sandbo.Database.{ProjectionTables}
use cbdc_tokenization_sandbo.Database.Bonds.{BondRow, list_all_bonds}
use cbdc_tokenization_sandbo.Database.Table.{has_row}
use cbdc_tokenization_sandbo.Database.Queries.{get_auction_row_by_id, list_all_auctions}
use cbdc_tokenization_sandbo.Projection.Snapshots.{
  AuctionSnapshot, load_all_auction_snapshots, load_all_bond_snapshots, load_auction_snapshot,
  load_bond_snapshot,
}
use cbdc_tokenization_sandbo.Projection.AuctionView.{AuctionView, compose_projected_auction}
use cbdc_tokenization_sandbo.Projection.BondView.{BondView, compose_projected_bond}
use cbdc_tokenization_sandbo.Sealing.Bid.{SealedBid}

pub record ComposeOptions : Type 0 where
  pub reveal_open_bids : Bool
  pub include_disabled : Bool

abbrev pub some_result : {A : Type 0} → Result A → Result (Option A)
some_result call = do a ← call; ok (some a)

module _ (coder : AbiCoder) (unseal : Text → SealedBid → Option ℕ → Result UnsealedBid)
    (contract : Text) (now : ℕ) where
  unfoldable pub compose_auction :
      ProjectionTables → Text → ComposeOptions → Result (Option AuctionView)
  unfolding compose_projected_auction
  compose_auction db auction_id options =
      case_option (load_auction_snapshot contract auction_id db)
        (case_option (get_auction_row_by_id auction_id db) (ok none)
          (λ _. err (dependency_unavailable (codes "auction " ++ auction_id))))
        (λ projected. some_result (
          compose_projected_auction coder unseal now projected.auction projected.context
            options.reveal_open_bids))

  module _ (text_leb : Text → Text → Bool) where
    unfoldable pub compose_bond : ProjectionTables → Text → Result (Option BondView)
    unfolding compose_projected_bond
    compose_bond db isin =
        case_option (load_bond_snapshot contract text_leb isin db)
          (if has_row (λ (row : BondRow). text_eq row.isin isin) (list_all_bonds text_leb true db)
            then err (dependency_unavailable (codes "bond " ++ isin))
            else ok none)
          (λ projected. some_result (compose_projected_bond coder unseal now projected))

    unfoldable pub compose_all_bonds : ProjectionTables → ComposeOptions → Result (List BondView)
    unfolding compose_projected_bond
    compose_all_bonds db options =
        let snapshots = load_all_bond_snapshots contract text_leb options.include_disabled db in
        let expected = list_all_bonds text_leb options.include_disabled db in
        if not (length snapshots == length expected)
        then err (dependency_unavailable (codes "bonds"))
        else sequence_map (compose_projected_bond coder unseal now) snapshots

    unfoldable pub compose_all_auctions :
        ProjectionTables → ComposeOptions → Result (List AuctionView)
    unfolding compose_projected_auction
    compose_all_auctions db options =
        let expected = list_all_auctions text_leb db in
        case_option (load_all_auction_snapshots contract text_leb db)
          (if length expected == 0 then ok [] else err (dependency_unavailable (codes "auctions")))
          (λ projected.
            if not (length projected.auctions == length expected)
            then err (dependency_unavailable (codes "auctions"))
            else sequence_map
                (λ (auction : AuctionSnapshot).
                  compose_projected_auction coder unseal now auction projected.context
                    options.reveal_open_bids)
                projected.auctions)
