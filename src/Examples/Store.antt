-- ===== src/Examples/Store.antt =====
-- Theorems on the records and the queries at one input each.
use Prim.Native.Nat.{min}
use cbdc_tokenization_sandbo.Prelude.{
  [], codes, length, none, ok, pos, refl, some, text_eq, to_lower_case, true, ◌+◌, ◌∷◌, ◌≡◌,
}
use cbdc_tokenization_sandbo.Database.Records.{
  count_bidder_rows, delete_bidder_row, get_bidder_row_by_address, get_bidder_row_by_name,
  insert_bidder_row, insert_operation_attempt_row, list_operation_attempt_rows, newer,
}
use cbdc_tokenization_sandbo.Allocation.{AuctionType}
use cbdc_tokenization_sandbo.Ingestion.Writes.Auctions.{
  ChainAllocation, allocation_rows, replace_auction_allocations,
}
use cbdc_tokenization_sandbo.Database.Queries.{get_auction_allocations}
use cbdc_tokenization_sandbo.Database.Table.{find_row, has_row, select_rows}
use cbdc_tokenization_sandbo.Database.{
  BidderRow, OperationAttemptRow, RecordTables, empty_projection, empty_records,
}
use cbdc_tokenization_sandbo.Database.Queries.Laws.{replace_auction_allocations-get}
use cbdc_tokenization_sandbo.Database.Records.Laws.{
  delete_bidder_row-gone, insert_bidder_row-lookup, list_operation_attempt_rows-newest,
}
use cbdc_tokenization_sandbo.Allocation.Sort.{IsInOrder}

abbrev alice : BidderRow
alice = record {
  address = codes "0xAa";
  name = codes "Alice";
  public_key = [];
  private_key = [];
  created_at = 5;
}

abbrev with_alice : RecordTables
with_alice = record empty_records { bidders = alice ∷ [] }

alice_inserted : insert_bidder_row alice empty_records ≡ ok with_alice
unfolding insert_bidder_row has_row
alice_inserted = refl

insert_bidder_row-lookup_example :
    (get_bidder_row_by_name (codes "Alice") with_alice ≡ some alice)
    × (get_bidder_row_by_address (codes "0xAa") with_alice ≡ some alice)
    × (count_bidder_rows with_alice ≡ 1)
unfolding get_bidder_row_by_address find_row count_bidder_rows
insert_bidder_row-lookup_example =
    insert_bidder_row-lookup alice empty_records with_alice alice_inserted

delete_bidder_row-gone_run :
    (get_bidder_row_by_address (codes "0xaA") (delete_bidder_row (codes "0xaA") with_alice).0
      ≡ none)
    × (count_bidder_rows (delete_bidder_row (codes "0xaA") with_alice).0
          + (delete_bidder_row (codes "0xaA") with_alice).1
        ≡ count_bidder_rows with_alice)
delete_bidder_row-gone_run = delete_bidder_row-gone (codes "0xaA") with_alice

alice_deleted : (delete_bidder_row (codes "0xaA") with_alice).1 ≡ 1
unfolding delete_bidder_row select_rows to_lower_case text_eq
alice_deleted = refl

-- Two attempts, at times 3 and 8.
abbrev two_attempts : RecordTables
two_attempts =
    insert_operation_attempt_row (codes "mint") [] (codes "ok") none none none 8
      (insert_operation_attempt_row (codes "burn") [] (codes "ok") none none none 3 empty_records)

list_operation_attempt_rows-newest_run :
    IsInOrder
      (λ (a : OperationAttemptRow) (b : OperationAttemptRow). newer a b ≡ true)
      (list_operation_attempt_rows 10 two_attempts)
    × (length (list_operation_attempt_rows 10 two_attempts)
        ≡ min 10 (length two_attempts.operation_attempts))
list_operation_attempt_rows-newest_run = list_operation_attempt_rows-newest 10 two_attempts

abbrev won : ChainAllocation
won = record {
  bidder = codes "0xaa";
  units = pos 6;
  rate = pos 325;
  auction_type = AuctionType.rate;
}

replace_auction_allocations-get_example :
    get_auction_allocations
      (codes "0x1")
      (replace_auction_allocations (codes "0x1") 9 (won ∷ won ∷ []) empty_projection)
    ≡ allocation_rows (codes "0x1") 9 0 (won ∷ won ∷ [])
replace_auction_allocations-get_example =
    replace_auction_allocations-get (codes "0x1") 9 (won ∷ won ∷ []) empty_projection
