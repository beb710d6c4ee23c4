-- ===== src/Ingestion/Writes/Auctions.antt =====
-- ingestion.ts: the statements that write auctions, their bids and their allocations.
use cbdc_tokenization_sandbo.Prelude.{
  Bool, List, Option, Text, [], codes, false, get_or, if◌then◌else◌, none, some, text_eq,
  to_lower_case, true, ℕ, ℤ, ◌&&◌, ◌++◌, ◌+◌, ◌==◌, ◌∷◌,
}
use cbdc_tokenization_sandbo.Allocation.{AuctionType}
use cbdc_tokenization_sandbo.Database.{
  AuctionAllocationRow, AuctionBidRow, AuctionEventRow, AuctionRow, AuctionStatus, Payload,
  ProjectionTables, closed_status, finalised_status, open_status,
}
use cbdc_tokenization_sandbo.Database.Table.{delete_rows, insert_or_ignore, update_rows, upsert}
use cbdc_tokenization_sandbo.Ingestion.Writes.{Source, coalesce}

abbrev pub is_auction : Text → AuctionRow → Bool
is_auction auction_id row = text_eq row.auction_id auction_id

abbrev pub type_name : AuctionType → Text
type_name AuctionType.rate = codes "RATE"
type_name AuctionType.price = codes "PRICE"
type_name AuctionType.buyback = codes "BUYBACK"

-- A missing type counts as 1.
unfoldable pub projected_auction_type : Option ℕ → AuctionType
projected_auction_type value =
    let numeric = get_or value 1 in
    if numeric == 0
    then AuctionType.rate
    else if numeric == 2
    then AuctionType.buyback
    else AuctionType.price

unfoldable pub upsert_auction_event :
    Text → Text → Text → Source → Payload → Option Text → ProjectionTables → ProjectionTables
upsert_auction_event auction_id isin type source payload bond db = record db {
  auctions =
      upsert (is_auction auction_id)
        (λ row. record row {
          isin = isin;
          type = coalesce row.type (some type);
          bond = coalesce row.bond bond;
        })
        (record {
          auction_id = auction_id;
          isin = isin;
          type = some type;
          created_block = some source.block;
          created_tx = some source.tx_hash;
          bond = bond;
          owner = none;
          end = none;
          offering = none;
          auction_pub_key = none;
          status = open_status;
          closed_at = none;
          finalised_at = none;
        })
        db.auctions;
  auction_events =
      (insert_or_ignore
        (λ (e : AuctionEventRow).
          text_eq e.tx_hash source.tx_hash && e.log_index == source.log_index)
        (record {
          auction_id = auction_id;
          isin = isin;
          type = type;
          block = source.block;
          log_index = source.log_index;
          tx_hash = source.tx_hash;
          payload = payload;
        })
        db.auction_events).0;
}

unfoldable pub upsert_auction_metadata :
    Text → Text → Text → ℤ → ℤ → Text → AuctionType → Source → ProjectionTables → ProjectionTables
upsert_auction_metadata auction_id isin owner ends offering auction_pub_key auction_type source db =
    record db {
      auctions =
          upsert (is_auction auction_id)
            (λ row. record row {
              isin = isin;
              type = some (type_name auction_type);
              created_block = coalesce row.created_block (some source.block);
              created_tx = coalesce row.created_tx (some source.tx_hash);
              owner = some (to_lower_case owner);
              end = some ends;
              offering = some offering;
              auction_pub_key = some auction_pub_key;
            })
            (record {
              auction_id = auction_id;
              isin = isin;
              type = some (type_name auction_type);
              created_block = some source.block;
              created_tx = some source.tx_hash;
              bond = none;
              owner = some (to_lower_case owner);
              end = some ends;
              offering = some offering;
              auction_pub_key = some auction_pub_key;
              status = open_status;
              closed_at = none;
              finalised_at = none;
            })
            db.auctions;
    }

unfoldable pub upsert_auction_bid :
    Text → ℕ → Text → Text → Text → Source → ProjectionTables → ProjectionTables
upsert_auction_bid auction_id bid_index bidder ciphertext plaintext_hash source db = record db {
  auction_bids =
      upsert (λ (b : AuctionBidRow). text_eq b.auction_id auction_id && b.bid_index == bid_index)
        (λ b. record b {
          bidder = to_lower_case bidder;
          ciphertext = ciphertext;
          plaintext_hash = plaintext_hash;
          source_block = source.block;
          source_log_index = source.log_index;
        })
        (record {
          auction_id = auction_id;
          bid_index = bid_index;
          bidder = to_lower_case bidder;
          ciphertext = ciphertext;
          plaintext_hash = plaintext_hash;
          cancelled = false;
          source_block = source.block;
          source_log_index = source.log_index;
        })
        db.auction_bids;
}

unfoldable pub cancel_auction_bid : Text → Text → Text → ProjectionTables → ProjectionTables
cancel_auction_bid auction_id bidder plaintext_hash db = record db {
  auction_bids =
      update_rows
        (λ (b : AuctionBidRow).
          text_eq b.auction_id auction_id
          && (text_eq (to_lower_case b.bidder) (to_lower_case bidder)
              && text_eq b.plaintext_hash plaintext_hash))
        (λ b. record b { cancelled = true }) db.auction_bids;
}

-- The row that the statement leaves: the two times are set by their own status only, and a missing
-- time never replaces one.
unfoldable pub with_status : AuctionStatus → Option ℤ → AuctionRow → AuctionRow
with_status closed_status at row = record row {
  status = closed_status;
  closed_at = coalesce at row.closed_at;
}
with_status finalised_status at row = record row {
  status = finalised_status;
  finalised_at = coalesce at row.finalised_at;
}
with_status status at row = record row { status = status }

unfoldable pub set_auction_status :
    Text → AuctionStatus → Option ℤ → ProjectionTables → ProjectionTables
set_auction_status auction_id status source_timestamp db = record db {
  auctions = update_rows (is_auction auction_id) (with_status status source_timestamp) db.auctions;
}

-- An allocation as the contract returns it.
pub record ChainAllocation : Type 0 where
  pub bidder : Text
  pub units : ℤ
  pub rate : ℤ
  pub auction_type : AuctionType

unfoldable pub allocation_rows : Text → ℕ → ℕ → List ChainAllocation → List AuctionAllocationRow
allocation_rows auction_id source_block position [] = []
allocation_rows auction_id source_block position (a ∷ more) =
    record {
      auction_id = auction_id;
      position = position;
      bidder = to_lower_case a.bidder;
      units = a.units;
      rate = a.rate;
      auction_type = a.auction_type;
      source_block = source_block;
    }
    ∷ allocation_rows auction_id source_block (position + 1) more

-- The inserts cannot meet the primary key: the rows of the auction are deleted, and the positions differ.
unfoldable pub replace_auction_allocations :
    Text → ℕ → List ChainAllocation → ProjectionTables → ProjectionTables
replace_auction_allocations auction_id source_block allocations db = record db {
  auction_allocations =
      delete_rows (λ (a : AuctionAllocationRow). text_eq a.auction_id auction_id)
        db.auction_allocations
      ++ allocation_rows auction_id source_block 0 allocations;
}
