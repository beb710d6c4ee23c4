-- ===== src/Projection/AuctionView/Finalised.antt =====
-- compose-projection.ts: the allocation that a closed auction shows, and the one that it shows when
-- the contract has recorded it.
use mathlib.Core.Path.{subst}
use cbdc_tokenization_sandbo.Prelude.{
  >>=-eq-ok, All, Holds, Holds-ok, List, Option, Text, [], ap, get_or, int_laws, map, ok,
  ok-injective, pos, refl, some, sym, to_lower_case, zero-+ℤ, ℕ, ℤ, ◌+ℤ◌, ◌+◌, ◌>>=◌, ◌∙◌, ◌∷◌, ◌≡◌,
}
use cbdc_tokenization_sandbo.Allocation.{
  AbiCoder, Allocation, AllocationResult, AuctionType, UnsealedBid, build_allocation_hash,
}
use cbdc_tokenization_sandbo.Allocation.Committed.{IsCommitted, compute_allocation-IsCommitted}
use cbdc_tokenization_sandbo.Allocation.Fills.{units_total}
use cbdc_tokenization_sandbo.Projection.Snapshots.{AuctionSnapshot, load_auction}
use cbdc_tokenization_sandbo.Projection.AuctionView.{
  AllocationEntry, AllocationView, allocation_from_snapshot, allocation_of_entries,
  compute_allocation, computed_allocation, entry_of, entry_of_row, hashed, milliseconds_of_end,
  stored_allocation, sum_units,
}
use cbdc_tokenization_sandbo.Ingestion.Writes.Auctions.{
  ChainAllocation, allocation_rows, replace_auction_allocations,
}
use cbdc_tokenization_sandbo.Database.{AuctionRow, ProjectionTables}
use cbdc_tokenization_sandbo.Database.Queries.Laws.{replace_auction_allocations-get}

sum_units-units_total :
    (total : ℤ) (as' : List Allocation)
    → sum_units total (map entry_of as') ≡ total +ℤ units_total as'
unfolding sum_units
sum_units-units_total total [] = omega int_laws
sum_units-units_total total (a ∷ more) =
    rw (sum_units-units_total (total +ℤ a.units) more) (omega int_laws)

abbrev tuple_of : AuctionType → Allocation → Text × ℤ × ℤ × AuctionType
tuple_of t a = (a.bidder, a.units, a.rate, t)

same_tuples :
    (isin : Text) (t : AuctionType) (as' : List Allocation)
    → map (tuple_of t) (map (hashed isin t) (map entry_of as')) ≡ map (tuple_of t) as'
same_tuples isin t [] = refl
same_tuples isin t (a ∷ more) = ap (◌∷◌ (tuple_of t a)) (same_tuples isin t more)

-- The hash reads an allocation's bidder, units and rate only.
build_allocation_hash-entries :
    (coder : AbiCoder) (isin : Text) (t : AuctionType) (clearing : ℤ) (as' : List Allocation)
    → build_allocation_hash coder isin t clearing (map (hashed isin t) (map entry_of as'))
      ≡ build_allocation_hash coder isin t clearing as'
unfolding build_allocation_hash
build_allocation_hash-entries coder isin t clearing as' =
    ap
      (λ (tuples : List (Text × ℤ × ℤ × AuctionType)).
        coder.encode isin t clearing tuples >>= λ encoded. ok (coder.keccak256 encoded))
      (same_tuples isin t as')

-- What the contract is told of an allocation.
abbrev pub chain_allocation_of : AuctionType → AllocationEntry → ChainAllocation
chain_allocation_of t entry = record {
  bidder = entry.bidder;
  units = entry.units;
  rate = entry.rate;
  auction_type = t;
}

-- The bidders of the projection are in lower case.
abbrev pub InLowerCase : List AllocationEntry → Type 0
InLowerCase = All (λ (entry : AllocationEntry). to_lower_case entry.bidder ≡ entry.bidder)

module _ (coder : AbiCoder) where
  compute_allocation-IsCommitted_lem :
      (now : ℕ) (isin : Text) (t : AuctionType) (bids : List UnsealedBid) (offering : ℤ)
      → Holds (IsCommitted coder isin t) (compute_allocation coder now isin t bids offering)
  compute_allocation-IsCommitted_lem now isin AuctionType.buyback bids offering =
      (compute_allocation-IsCommitted coder now isin AuctionType.buyback bids offering).1
  compute_allocation-IsCommitted_lem now isin AuctionType.rate bids offering =
      (compute_allocation-IsCommitted coder now isin AuctionType.rate bids offering).0
  compute_allocation-IsCommitted_lem now isin AuctionType.price bids offering =
      (compute_allocation-IsCommitted coder now isin AuctionType.price bids offering).0

  -- The view of a result, at a time.
  abbrev view_of : AuctionType → ℤ → AllocationResult → AllocationView
  view_of t at r = record {
    clearing_rate = r.clearing_rate;
    total_allocated = r.total_allocated;
    hash = r.allocation_hash;
    auction_type = t;
    computed_at = at;
    entries = map entry_of r.allocations;
  }

  stored_allocation-committed :
      (isin : Text) (t : AuctionType) (finalised_at : Option ℤ) (r : AllocationResult)
      (first : Allocation) (others : List Allocation)
      → r.allocations ≡ first ∷ others
      → first.rate ≡ r.clearing_rate
      → units_total r.allocations ≡ r.total_allocated
      → build_allocation_hash coder isin t r.clearing_rate r.allocations ≡ ok r.allocation_hash
      → stored_allocation coder isin t finalised_at (entry_of first) (map entry_of others)
        ≡ ok (view_of t (get_or finalised_at (pos 0)) r)
  unfolding stored_allocation
  stored_allocation-committed isin t finalised_at r first others listed clears adds_up hashes =
      let hash_of_entries : build_allocation_hash coder isin t first.rate
            (map (hashed isin t) (map entry_of (first ∷ others)))
          ≡ ok r.allocation_hash =
        build_allocation_hash-entries coder isin t first.rate (first ∷ others)
        ∙ subst (λ l. build_allocation_hash coder isin t first.rate l ≡ ok r.allocation_hash) listed
            (subst (λ c. build_allocation_hash coder isin t c r.allocations ≡ ok r.allocation_hash)
              (sym clears) hashes) in
      rw
        (
          hash_of_entries,
          sum_units-units_total (pos 0) (first ∷ others),
          zero-+ℤ (units_total (first ∷ others)),
          sym clears,
          sym adds_up,
          listed,
        )
        refl

  allocation_from_snapshot-committed :
      (now : ℕ) (snapshot : AuctionSnapshot) (t : AuctionType) (bids : Option (List UnsealedBid))
      (r : AllocationResult)
      → IsCommitted coder snapshot.row.isin t r
      → map entry_of_row snapshot.allocations ≡ map entry_of r.allocations
      → allocation_from_snapshot coder now snapshot t bids
        ≡ ok (some (view_of t (get_or snapshot.row.finalised_at (pos 0)) r))
  unfolding allocation_from_snapshot allocation_of_entries
  allocation_from_snapshot-committed now snapshot t bids r
        (first, others, listed, clears, adds_up, hashes) recorded =
      let entries : map entry_of_row snapshot.allocations ≡ entry_of first ∷ map entry_of others =
        recorded ∙ ap (map entry_of) listed in
      rw
        (
          entries,
          stored_allocation-committed snapshot.row.isin t snapshot.row.finalised_at r first others
              listed clears adds_up hashes,
        )
        refl

  entries_of_rows :
      (auction_id : Text) (block position : ℕ) (t : AuctionType) (entries : List AllocationEntry)
      → InLowerCase entries
      → map entry_of_row
          (allocation_rows auction_id block position (map (chain_allocation_of t) entries))
        ≡ entries
  unfolding allocation_rows
  entries_of_rows auction_id block position t [] lower = refl
  entries_of_rows auction_id block position t (entry ∷ entries) lower =
      rw (lower.0, entries_of_rows auction_id block (position + 1) t entries lower.1) refl

  computed_allocation-view :
      (now : ℕ) (row : AuctionRow) (t : AuctionType) (bids : List UnsealedBid) (offering : ℤ)
      (view : AllocationView)
      → computed_allocation coder now row t bids offering ≡ ok view
      → (r : AllocationResult) × IsCommitted coder row.isin t r
        × (view ≡ view_of t (milliseconds_of_end row.closed_at row.end) r)
  unfolding computed_allocation
  computed_allocation-view now row t bids offering view shown =
      let (r, computed, returned) =
        >>=-eq-ok (compute_allocation coder now row.isin t bids offering) _ shown in
      (
        r,
        Holds-ok (IsCommitted coder row.isin t)
            (compute_allocation-IsCommitted_lem now row.isin t bids offering) computed,
        sym (ok-injective returned),
      )

  -- Suppose that the API shows an allocation for a closed auction, to bidders in lower case, and the
  -- contract records exactly its entries. Once they are in the tables, the API shows for the
  -- auction, in any status and whether or not its bids unseal, the same entries, total, clearing rate
  -- and hash; only the time is that of the finalisation.
  pub allocation_from_snapshot-recorded :
      (now later block : ℕ) (row final_row : AuctionRow) (t : AuctionType) (bids : List UnsealedBid)
      (offering : ℤ) (view : AllocationView) (db : ProjectionTables)
      (still_unsealed : Option (List UnsealedBid))
      → computed_allocation coder now row t bids offering ≡ ok view
      → InLowerCase view.entries
      → final_row.isin ≡ row.isin
      → let recorded =
          replace_auction_allocations final_row.auction_id block
            (map (chain_allocation_of t) view.entries)
            db in
        allocation_from_snapshot coder later (load_auction recorded final_row) t still_unsealed
        ≡ ok (some (record view { computed_at = get_or final_row.finalised_at (pos 0) }))
  unfolding load_auction
  allocation_from_snapshot-recorded now later block row final_row t bids offering view db
        still_unsealed shown lower same_isin =
      let (r, committed, is_view) = computed_allocation-view now row t bids offering view shown in
      let recorded =
        replace_auction_allocations final_row.auction_id block
          (map (chain_allocation_of t) view.entries) db in
      let at = get_or final_row.finalised_at (pos 0) in
      let entries =
        ap (map entry_of_row) (
          replace_auction_allocations-get final_row.auction_id block
            (map (chain_allocation_of t) view.entries) db)
        ∙ entries_of_rows final_row.auction_id block 0 t view.entries lower
        ∙ ap (λ v. v.entries) is_view in
      allocation_from_snapshot-committed later (load_auction recorded final_row) t still_unsealed r
        (subst (λ isin. IsCommitted coder isin t r) (sym same_isin) committed) entries
      ∙ ap (λ (v : AllocationView). ok (some (record v { computed_at = at }))) (sym is_view)
