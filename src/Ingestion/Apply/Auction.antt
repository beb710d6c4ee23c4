-- ===== src/Ingestion/Apply/Auction.antt =====
-- ingestion.ts, `processBlockRange`: the logs of the BondAuction contract.
use cbdc_tokenization_sandbo.Prelude.{List, Text, [], if◌then◌else◌, text_eq, ◌∷◌}
use cbdc_tokenization_sandbo.Ingestion.Writes.Auctions.{
  ChainAllocation, cancel_auction_bid, projected_auction_type, replace_auction_allocations,
  upsert_auction_bid, upsert_auction_metadata,
}
use cbdc_tokenization_sandbo.Ingestion.Writes.{Source}
use cbdc_tokenization_sandbo.Ingestion.{
  AuctionEvent, auction_created, auction_finalized, bid_cancelled, bid_submitted,
  other_auction_event,
}
use cbdc_tokenization_sandbo.Ingestion.Apply.{Tx, mark_both, write}

-- `finalAllocations.get(auctionId) ?? []`
unfoldable pub allocations_of : Text → List (Text × List ChainAllocation) → List ChainAllocation
allocations_of auction_id [] = []
allocations_of auction_id ((id, rows) ∷ rest) =
    if text_eq id auction_id then rows else allocations_of auction_id rest

unfoldable pub apply_auction_event :
    List (Text × List ChainAllocation) → AuctionEvent → Source → Tx → Tx
apply_auction_event final (auction_created auction_id isin admin ends offering key type) source tx =
    write
      (upsert_auction_metadata auction_id isin admin ends offering key (projected_auction_type type)
        source)
      (mark_both tx)
apply_auction_event final (bid_submitted auction_id index bidder ciphertext plaintext_hash) source
      tx =
    write (upsert_auction_bid auction_id index bidder ciphertext plaintext_hash source)
      (mark_both tx)
apply_auction_event final (bid_cancelled auction_id bidder plaintext_hash) source tx =
    write (cancel_auction_bid auction_id bidder plaintext_hash) (mark_both tx)
apply_auction_event final (auction_finalized auction_id) source tx =
    write (replace_auction_allocations auction_id source.block (allocations_of auction_id final))
      (mark_both tx)
apply_auction_event final other_auction_event source tx = tx
