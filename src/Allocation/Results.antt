-- ===== src/Allocation/Results.antt =====
-- allocation.ts: `computeUniformAllocation` as a whole.
use Prim.Native.Nat.{min}
use cbdc_tokenization_sandbo.Prelude.{
  All, List, Text, [], ap, arith, false, leb_ℤ, map, none, ok, pos, refl, suc, zero, zero-+ℤ, ℕ, ℤ,
  ◌+ℤ◌, ◌-◌, ◌>>=◌, ◌∙◌, ◌∷◌, ◌≡◌, ◌≢◌, ◌≤◌,
}
use cbdc_tokenization_sandbo.Allocation.Greedy.{demand, filled, greedy, uniform_loop-greedy}
use cbdc_tokenization_sandbo.Allocation.{
  AbiCoder, Allocation, AllocationResult, AuctionType, UnsealedBid, build_allocation_hash,
  compute_uniform_allocation, is_buyback, uniform_result,
}
use cbdc_tokenization_sandbo.Allocation.Order.{IsWellFormed, Precedes, rate_of, units_of}
use cbdc_tokenization_sandbo.Allocation.Sort.{Sorts, sort_bids_by_auction_type-Sorts}
use cbdc_tokenization_sandbo.Allocation.Fills.{
  AtLeast, AtLeast-refl, FillsBids, accepted, behind, greedy-FillsBids, last_rate-greedy, marginal,
  marginal-splits, refused, units_total, units_total-greedy,
}

-- An allocation of `size` units among `bids` at one clearing rate.
pub record IsUniform (t : AuctionType) (size : ℕ) (bids sorted : List UnsealedBid) (clearing : ℕ)
    (r : AllocationResult) : Type 1 where
  -- the bids in merit order
  pub merit : Sorts (Precedes t) bids sorted
  -- the first of them are filled, one allocation each, by at most what they ask for
  pub fills : FillsBids r.allocations sorted
  -- everything that is demanded, up to the size, is allocated
  pub total : r.total_allocated ≡ pos (min size (demand bids))
  pub total_adds_up : units_total r.allocations ≡ r.total_allocated
  -- all pay the clearing rate, which lies between the bids that are filled and those that are not
  pub clears : r.clearing_rate ≡ pos clearing
  pub uniform : All (λ (a : Allocation). a.rate ≡ pos clearing) r.allocations
  pub filled_at_least : All (λ b. AtLeast t (rate_of b) clearing) (accepted size sorted)
  pub refused_at_most : All (λ b. AtLeast t clearing (rate_of b)) (refused size sorted)

abbrev at_rate : ℤ → List Allocation → List Allocation
at_rate c = map (λ (a : Allocation). record a { rate = c })

module _ (c : ℤ) where
  at_rate-FillsBids :
      (as' : List Allocation) (bids : List UnsealedBid)
      → FillsBids as' bids
      → FillsBids (at_rate c as') bids
  at_rate-FillsBids [] bids h = tt
  at_rate-FillsBids (a ∷ more) [] h = h
  at_rate-FillsBids (a ∷ more) (b ∷ bids) h = (h.0, at_rate-FillsBids more bids h.1)

  units_total-at_rate : (as' : List Allocation) → units_total (at_rate c as') ≡ units_total as'
  units_total-at_rate [] = refl
  units_total-at_rate (a ∷ more) = ap (◌+ℤ◌ a.units) (units_total-at_rate more)

  at_rate-uniform : (as' : List Allocation) → All (λ (a : Allocation). a.rate ≡ c) (at_rate c as')
  at_rate-uniform [] = tt
  at_rate-uniform (a ∷ more) = (refl, at_rate-uniform more)

pub is_buyback-false : (t : AuctionType) → t ≢ AuctionType.buyback → is_buyback t ≡ false
is_buyback-false AuctionType.rate h = refl
is_buyback-false AuctionType.price h = refl
is_buyback-false AuctionType.buyback h = absurd (h refl)

-- A list that sorts to something has something in it.
pub Sorts-cons :
    (R : UnsealedBid → UnsealedBid → Type 0) (bids sorted : List UnsealedBid)
    → Sorts R bids sorted
    → bids ≢ []
    → (b : UnsealedBid) × (bs : List UnsealedBid) × (sorted ≡ b ∷ bs)
Sorts-cons R [] sorted h some_bid = absurd (some_bid refl)
Sorts-cons R (b ∷ bids) [] h some_bid = absurd (omega (arith, h.sums (λ _. 1)))
Sorts-cons R (b ∷ bids) (c ∷ sorted) h some_bid = (c, sorted, refl)

-- The result of a uniform allocation of `size` units in the order `sorted`, the hash given.
abbrev pub uniform_outcome :
    ℕ → Text → AuctionType → ℕ → List UnsealedBid → ℕ → Text → AllocationResult
uniform_outcome now isin t size sorted clearing hash = record {
  clearing_rate = pos clearing;
  total_allocated = pos (min size (demand sorted));
  auction_type = t;
  allocations = at_rate (pos clearing) (greedy isin t size sorted);
  allocation_hash = hash;
  computed_at = now;
}

uniform_outcome-IsUniform :
    (now : ℕ) (isin : Text) (t : AuctionType) (size : ℕ) (bids : List UnsealedBid) (b : UnsealedBid)
    (bs : List UnsealedBid) (hash : Text)
    → All IsWellFormed bids
    → Sorts (Precedes t) bids (b ∷ bs)
    → let clearing = marginal (rate_of b) size (b ∷ bs) in
      IsUniform t size bids
        (b ∷ bs)
        clearing
        (uniform_outcome now isin t size (b ∷ bs) clearing hash)
uniform_outcome-IsUniform now isin t size bids b bs hash w s =
    let sorted = b ∷ bs in
    let clearing = marginal (rate_of b) size sorted in
    let done = greedy isin t size sorted in
    let split =
      marginal-splits t (rate_of b) size sorted
        (AtLeast-refl t (rate_of b), behind t b bs s.in_order.0) s.in_order in
    record {
      merit = s;
      fills =
          at_rate-FillsBids (pos clearing) done sorted
            (greedy-FillsBids isin t size sorted (s.within IsWellFormed w));
      total = rw (s.sums units_of) refl;
      total_adds_up =
          units_total-at_rate (pos clearing) done ∙ units_total-greedy isin t size sorted;
      clears = refl;
      uniform = at_rate-uniform (pos clearing) done;
      filled_at_least = split.0;
      refused_at_most = split.1;
    }

pub some_units : (m : ℕ) → leb_ℤ (pos (suc m)) (pos 0) ≡ false
some_units m = ground arith

module _ (coder : AbiCoder) (now : ℕ) (isin : Text) where
  uniform_result-filled :
      (t : AuctionType) (m : ℕ) (b : UnsealedBid) (bs : List UnsealedBid)
      → let clearing = marginal (rate_of b) (suc m) (b ∷ bs) in
        let outcome = uniform_outcome now isin t (suc m) (b ∷ bs) clearing in
        uniform_result coder now isin t (filled isin t (suc m) (b ∷ bs) [] none (pos 0)) ≡ (
          build_allocation_hash coder isin t (pos clearing) (outcome []).allocations >>= λ hash.
          ok (outcome hash))
  unfolding uniform_result
  uniform_result-filled t m b bs =
      rw
        (
          last_rate-greedy isin t (rate_of b) (suc m - units_of b) bs,
          zero-+ℤ (pos (min (suc m) (demand (b ∷ bs)))),
        )
        refl

  -- On one well-formed bid or more and a positive offering, a RATE or PRICE auction clears: the
  -- call returns a uniform allocation as soon as the hash of that allocation can be encoded, and
  -- otherwise throws what the encoder throws.
  pub compute_uniform_allocation-IsUniform :
      (t : AuctionType) (bids : List UnsealedBid) (size : ℕ)
      → t ≢ AuctionType.buyback
      → 1 ≤ size
      → bids ≢ []
      → All IsWellFormed bids
      → (sorted : List UnsealedBid) × (clearing : ℕ) × ((hash : Text)
          → IsUniform t size bids sorted clearing
              (uniform_outcome now isin t size sorted clearing hash))
        × (compute_uniform_allocation coder now isin t bids (pos size) ≡ (
            build_allocation_hash coder isin t
              (pos clearing)
              (uniform_outcome now isin t size sorted clearing []).allocations
            >>= λ hash. ok (uniform_outcome now isin t size sorted clearing hash)))
  unfolding compute_uniform_allocation
  compute_uniform_allocation-IsUniform t bids zero sells positive some_bid w = absurd (omega arith)
  compute_uniform_allocation-IsUniform t bids (suc m) sells positive some_bid w =
      let (sorted, sorts, s) = sort_bids_by_auction_type-Sorts t bids w in
      let (b, bs, e) = Sorts-cons (Precedes t) bids sorted s some_bid in
      let s' : Sorts (Precedes t) bids (b ∷ bs) = rw e at s in
      (
        b ∷ bs,
        marginal (rate_of b) (suc m) (b ∷ bs),
        (λ hash. uniform_outcome-IsUniform now isin t (suc m) bids b bs hash w s'),
        rw
            (
              is_buyback-false t sells,
              some_units m,
              sorts,
              e,
              uniform_loop-greedy isin t (b ∷ bs) (suc m) [] none (pos 0)
                  (s'.within IsWellFormed w),
            )
            (uniform_result-filled t m b bs),
      )
