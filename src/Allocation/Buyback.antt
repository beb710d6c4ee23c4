-- ===== src/Allocation/Buyback.antt =====
-- allocation.ts: `computeBuybackAllocation` as a whole, and the errors of both entry points.
use Prim.Native.Nat.{min}
use cbdc_tokenization_sandbo.Prelude.{
  All, List, Text, [], arith, none, ok, pos, refl, suc, zero, zero-+ℤ, ℕ, ◌-◌, ◌>>=◌, ◌∷◌, ◌≡◌, ◌≢◌,
  ◌≤ℤ◌, ◌≤◌,
}
use cbdc_tokenization_sandbo.Allocation.{
  AbiCoder, Allocation, AllocationResult, AuctionType, UnsealedBid, build_allocation_hash,
  buyback_result, compute_buyback_allocation,
}
use cbdc_tokenization_sandbo.Allocation.Order.{IsWellFormed, Precedes, rate_of, units_of}
use cbdc_tokenization_sandbo.Allocation.Sort.{All-imp, Sorts, sort_bids_by_auction_type-Sorts}
use cbdc_tokenization_sandbo.Allocation.Greedy.{buyback_loop-greedy, demand, filled, greedy}
use cbdc_tokenization_sandbo.Allocation.Fills.{
  AtLeast, FillsBids, behind, greedy-FillsBids, units_total, units_total-greedy,
}
use cbdc_tokenization_sandbo.Allocation.Results.{Sorts-cons, some_units}

-- Every allocation is at the rate of the bid that it fills.
abbrev pub PaysAsBid : List Allocation → List UnsealedBid → Type 0
PaysAsBid [] bids = Unit
PaysAsBid (a ∷ more) [] = ⊥
PaysAsBid (a ∷ more) (b ∷ bids) = (a.rate ≡ pos (rate_of b)) × PaysAsBid more bids

-- A purchase of up to `size` units from the bids at the lowest prices.
pub record IsBuyback (size : ℕ) (bids sorted : List UnsealedBid) (r : AllocationResult)
    : Type 1 where
  pub merit : Sorts (Precedes AuctionType.buyback) bids sorted
  pub fills : FillsBids r.allocations sorted
  pub pays_as_bid : PaysAsBid r.allocations sorted
  pub total : r.total_allocated ≡ pos (min size (demand bids))
  pub total_adds_up : units_total r.allocations ≡ r.total_allocated
  -- the clearing rate is the lowest of all bids' prices
  pub clears_lowest : All (λ b. r.clearing_rate ≤ℤ pos (rate_of b)) bids

greedy-PaysAsBid :
    (isin : Text) (t : AuctionType) (m : ℕ) (bids : List UnsealedBid)
    → PaysAsBid (greedy isin t m bids) bids
greedy-PaysAsBid isin t m [] = tt
greedy-PaysAsBid isin t zero (b ∷ bids) = tt
greedy-PaysAsBid isin t (suc m) (b ∷ bids) =
    (refl, greedy-PaysAsBid isin t (suc m - units_of b) bids)

abbrev pub buyback_outcome : ℕ → Text → ℕ → UnsealedBid → List UnsealedBid → Text → AllocationResult
buyback_outcome now isin size first others hash = record {
  clearing_rate = pos (rate_of first);
  total_allocated = pos (min size (demand (first ∷ others)));
  auction_type = AuctionType.buyback;
  allocations = greedy isin AuctionType.buyback size (first ∷ others);
  allocation_hash = hash;
  computed_at = now;
}

buyback_outcome-IsBuyback :
    (now : ℕ) (isin : Text) (size : ℕ) (bids : List UnsealedBid) (b : UnsealedBid)
    (bs : List UnsealedBid) (hash : Text)
    → All IsWellFormed bids
    → Sorts (Precedes AuctionType.buyback) bids (b ∷ bs)
    → IsBuyback size bids (b ∷ bs) (buyback_outcome now isin size b bs hash)
buyback_outcome-IsBuyback now isin size bids b bs hash w s =
    let sorted = b ∷ bs in
    record {
      merit = s;
      fills = greedy-FillsBids isin AuctionType.buyback size sorted (s.within IsWellFormed w);
      pays_as_bid = greedy-PaysAsBid isin AuctionType.buyback size sorted;
      total = rw (s.sums units_of) refl;
      total_adds_up = units_total-greedy isin AuctionType.buyback size sorted;
      clears_lowest =
          s.covers (λ c. pos (rate_of b) ≤ℤ pos (rate_of c))
            (
              omega arith,
              All-imp (λ c. AtLeast AuctionType.buyback (rate_of b) (rate_of c))
                  (λ c. pos (rate_of b) ≤ℤ pos (rate_of c)) (λ c h. omega arith) bs
                  (behind AuctionType.buyback b bs s.in_order.0),
            );
    }

module _ (coder : AbiCoder) (now : ℕ) (isin : Text) where
  buyback_result-filled :
      (m : ℕ) (b : UnsealedBid) (bs : List UnsealedBid)
      → let outcome = buyback_outcome now isin (suc m) b bs in
        buyback_result coder now isin
          (filled isin AuctionType.buyback (suc m) (b ∷ bs) [] none (pos 0))
        ≡ (build_allocation_hash coder isin AuctionType.buyback
              (pos (rate_of b))
              (outcome []).allocations
            >>= λ hash. ok (outcome hash))
  unfolding buyback_result
  buyback_result-filled m b bs = rw (zero-+ℤ (pos (min (suc m) (demand (b ∷ bs))))) refl

  -- On one well-formed bid or more and a positive size, a BUYBACK auction clears: the call returns
  -- a pay-as-bid allocation as soon as its hash can be encoded, and otherwise throws what the
  -- encoder throws.
  pub compute_buyback_allocation-IsBuyback :
      (bids : List UnsealedBid) (size : ℕ)
      → 1 ≤ size
      → bids ≢ []
      → All IsWellFormed bids
      → (first : UnsealedBid) × (others : List UnsealedBid) × ((hash : Text)
          → IsBuyback size bids (first ∷ others) (buyback_outcome now isin size first others hash))
        × (compute_buyback_allocation coder now isin bids (pos size) ≡ (
            build_allocation_hash coder isin AuctionType.buyback
              (pos (rate_of first))
              (buyback_outcome now isin size first others []).allocations
            >>= λ hash. ok (buyback_outcome now isin size first others hash)))
  unfolding compute_buyback_allocation
  compute_buyback_allocation-IsBuyback bids zero positive some_bid w = absurd (omega arith)
  compute_buyback_allocation-IsBuyback bids (suc m) positive some_bid w =
      let (sorted, sorts, s) = sort_bids_by_auction_type-Sorts AuctionType.buyback bids w in
      let (b, bs, e) = Sorts-cons (Precedes AuctionType.buyback) bids sorted s some_bid in
      let s' : Sorts (Precedes AuctionType.buyback) bids (b ∷ bs) = rw e at s in
      (
        b,
        bs,
        (λ hash. buyback_outcome-IsBuyback now isin (suc m) bids b bs hash w s'),
        rw
            (
              some_units m,
              sorts,
              e,
              buyback_loop-greedy isin AuctionType.buyback (b ∷ bs) (suc m) [] none (pos 0) refl
                  (s'.within IsWellFormed w),
            )
            (buyback_result-filled m b bs),
      )
