-- ===== src/Database/Queries/Laws.antt =====
-- ingestion-db.ts: the queries after the statements of the ingestion.
use cbdc_tokenization_sandbo.Prelude.{
  Bool, Bool-cases, List, Text, [], ap, arith, refl, text_eq, text_eq_refl, ℕ, ◌++◌, ◌+◌, ◌∙◌, ◌∷◌,
  ◌≡◌,
}
use cbdc_tokenization_sandbo.Ingestion.Writes.Auctions.{
  ChainAllocation, allocation_rows, replace_auction_allocations,
}
use cbdc_tokenization_sandbo.Database.Records.{order_by, place}
use cbdc_tokenization_sandbo.Database.{AuctionAllocationRow, ProjectionTables}
use cbdc_tokenization_sandbo.Database.Table.{delete_rows, select_rows}
use cbdc_tokenization_sandbo.Database.Queries.{by_position, get_auction_allocations}

module _ {A : Type 0} (p : A → Bool) where
  select_rows-append :
      (xs ys : List A) → select_rows p (xs ++ ys) ≡ select_rows p xs ++ select_rows p ys
  unfolding select_rows
  select_rows-append [] ys = refl
  select_rows-append (x ∷ xs) ys = grind (arith, Bool-cases (p x), select_rows-append xs ys)

  select_rows-delete : (xs : List A) → select_rows p (delete_rows p xs) ≡ []
  unfolding select_rows delete_rows
  select_rows-delete [] = refl
  select_rows-delete (x ∷ xs) = grind (arith, Bool-cases (p x), select_rows-delete xs)

abbrev of_auction : Text → AuctionAllocationRow → Bool
of_auction auction_id a = text_eq a.auction_id auction_id

module _ (auction_id : Text) (block : ℕ) where
  select_rows-allocation_rows :
      (n : ℕ) (allocations : List ChainAllocation)
      → select_rows (of_auction auction_id) (allocation_rows auction_id block n allocations)
        ≡ allocation_rows auction_id block n allocations
  unfolding select_rows allocation_rows
  select_rows-allocation_rows n [] = refl
  select_rows-allocation_rows n (a ∷ more) =
      rw (text_eq_refl auction_id, select_rows-allocation_rows (n + 1) more) refl

  order_by-allocation_rows :
      (n : ℕ) (allocations : List ChainAllocation)
      → order_by by_position (allocation_rows auction_id block n allocations)
        ≡ allocation_rows auction_id block n allocations
  unfolding order_by allocation_rows place
  order_by-allocation_rows n [] = refl
  order_by-allocation_rows n (a ∷ []) = refl
  order_by-allocation_rows n (a ∷ b ∷ more) =
      ap (place by_position _) (order_by-allocation_rows (n + 1) (b ∷ more)) ∙ ground arith

-- After the allocations of an auction are replaced, the query returns exactly the new ones, in the
-- order of the contract.
pub replace_auction_allocations-get :
    (auction_id : Text) (block : ℕ) (allocations : List ChainAllocation) (db : ProjectionTables)
    → get_auction_allocations auction_id
        (replace_auction_allocations auction_id block allocations db)
      ≡ allocation_rows auction_id block 0 allocations
unfolding get_auction_allocations replace_auction_allocations
replace_auction_allocations-get auction_id block allocations db =
    rw
      (
        select_rows-append (of_auction auction_id)
            (delete_rows (of_auction auction_id) db.auction_allocations)
            (allocation_rows auction_id block 0 allocations),
        select_rows-delete (of_auction auction_id) db.auction_allocations,
        select_rows-allocation_rows auction_id block 0 allocations,
      )
      (order_by-allocation_rows auction_id block 0 allocations)
