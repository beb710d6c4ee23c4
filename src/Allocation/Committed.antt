-- ===== src/Allocation/Committed.antt =====
-- allocation.ts: what every result has in common, whatever the bids are.
use cbdc_tokenization_sandbo.Prelude.{
  Holds, Holds-any, Holds-bind, List, Option, Result, Text, [], ap, buyback_size_must_be_positive,
  case_result-holds, eqb_ℤ, if-holds, if◌then◌else◌, int_laws, leb_ℤ, ltb_ℤ, map, none,
  offering_must_be_positive, ok, pos, refl, some, sym, throw_if, use_buyback_allocation, ℕ, ℤ, ◌++◌,
  ◌+ℤ◌, ◌>>=◌, ◌>>◌, ◌∙◌, ◌∷◌, ◌≡◌,
}
use cbdc_tokenization_sandbo.Allocation.{
  AbiCoder, Allocation, AllocationResult, AuctionType, Fill, UnsealedBid, build_allocation_hash,
  buyback_loop, buyback_result, compute_buyback_allocation, compute_uniform_allocation, empty_fill,
  is_buyback, push_fill, rate_field, sort_bids_by_auction_type, uniform_loop, uniform_result,
  units_field,
}
use cbdc_tokenization_sandbo.Parsing.{parse_positive_bigint, string}
use cbdc_tokenization_sandbo.Allocation.Fills.{units_total}

-- The total is that of the allocations, which the hash commits to, and the clearing rate is that of
-- the first of them.
abbrev pub IsCommitted : AbiCoder → Text → AuctionType → AllocationResult → Type 0
IsCommitted coder isin t r =
    (first : Allocation) × (others : List Allocation) × (r.allocations ≡ first ∷ others)
    × (first.rate ≡ r.clearing_rate)
    × (units_total r.allocations ≡ r.total_allocated)
    × (build_allocation_hash coder isin t r.clearing_rate r.allocations ≡ ok r.allocation_hash)

abbrev IsBalanced : Fill → Type 0
IsBalanced st = st.total_allocated ≡ units_total st.allocations

units_total-append :
    (as' : List Allocation) (a : Allocation)
    → units_total (as' ++ a ∷ []) ≡ units_total as' +ℤ a.units
units_total-append [] a = omega int_laws
units_total-append (b ∷ more) a = rw (units_total-append more a) (omega int_laws)

push_fill-IsBalanced :
    (isin : Text) (t : AuctionType) (bid : UnsealedBid) (units bid_rate : ℤ) (st : Fill)
    → IsBalanced st
    → IsBalanced (push_fill isin t bid units bid_rate st)
unfolding push_fill
push_fill-IsBalanced isin t bid units bid_rate st h =
    let fill = if ltb_ℤ st.remaining units then st.remaining else units in
    if-holds IsBalanced (eqb_ℤ fill (pos 0)) h (
      rw
        (
          units_total-append st.allocations (record {
            isin = isin;
            bidder = bid.bidder;
            units = fill;
            rate = bid_rate;
            auction_type = t;
            bid_index = bid.bid_index;
          }),
          h,
        )
        refl)

-- Both numbers of a bid are parsed first.
IsBalanced-parsed :
    (bid : UnsealedBid) (next : ℤ → ℤ → Result Fill)
    → ((units bid_rate : ℤ) → Holds IsBalanced (next units bid_rate))
    → Holds IsBalanced (
        parse_positive_bigint (string bid.plaintext.units) units_field >>= λ units.
        parse_positive_bigint (string bid.plaintext.rate) rate_field >>= next units)
IsBalanced-parsed bid next h =
    Holds-any IsBalanced (parse_positive_bigint (string bid.plaintext.units) units_field)
      (λ units. parse_positive_bigint (string bid.plaintext.rate) rate_field >>= next units)
      (λ units.
        Holds-any IsBalanced (parse_positive_bigint (string bid.plaintext.rate) rate_field)
          (next units) (h units))

uniform_loop-IsBalanced :
    (isin : Text) (t : AuctionType) (bids : List UnsealedBid) (st : Fill)
    → IsBalanced st
    → Holds IsBalanced (uniform_loop isin t bids st)
unfolding uniform_loop
uniform_loop-IsBalanced isin t [] st h = h
uniform_loop-IsBalanced isin t (bid ∷ bids) st h =
    let rest : ℤ → ℤ → Result Fill =
      λ units bid_rate. uniform_loop isin t bids (push_fill isin t bid units bid_rate st) in
    IsBalanced-parsed bid
      (λ units bid_rate. if eqb_ℤ st.remaining (pos 0) then ok st else rest units bid_rate)
      λ units bid_rate. if-holds (Holds IsBalanced) (eqb_ℤ st.remaining (pos 0)) {x = ok st} h (
        uniform_loop-IsBalanced isin t bids (push_fill isin t bid units bid_rate st)
          (push_fill-IsBalanced isin t bid units bid_rate st h))

buyback_loop-IsBalanced :
    (isin : Text) (bids : List UnsealedBid) (st : Fill)
    → IsBalanced st
    → Holds IsBalanced (buyback_loop isin bids st)
unfolding buyback_loop
buyback_loop-IsBalanced isin [] st h = h
buyback_loop-IsBalanced isin (bid ∷ bids) st h =
    if-holds (Holds IsBalanced) (eqb_ℤ st.remaining (pos 0)) {x = ok st} h (
      IsBalanced-parsed bid
        (λ units bid_rate.
          buyback_loop isin bids (push_fill isin AuctionType.buyback bid units bid_rate st))
        λ units bid_rate.
          buyback_loop-IsBalanced isin bids
            (push_fill isin AuctionType.buyback bid units bid_rate st)
            (push_fill-IsBalanced isin AuctionType.buyback bid units bid_rate st h))

module _ (coder : AbiCoder) (now : ℕ) (isin : Text) where
  hash-IsCommitted :
      (t : AuctionType) (first : Allocation) (others : List Allocation) (total : ℤ)
      → units_total (first ∷ others) ≡ total
      → Holds (IsCommitted coder isin t) (
          build_allocation_hash coder isin t first.rate (first ∷ others) >>= λ hash. ok (record {
            clearing_rate = first.rate;
            total_allocated = total;
            auction_type = t;
            allocations = first ∷ others;
            allocation_hash = hash;
            computed_at = now;
          }))
  hash-IsCommitted t first others total adds_up =
      case_result-holds (Holds (IsCommitted coder isin t))
        (build_allocation_hash coder isin t first.rate (first ∷ others)) (λ e failed. tt)
        (λ hash hashed. (first, others, refl, refl, adds_up, hashed))

  units_total-at :
      (c : ℤ) (as' : List Allocation)
      → units_total (map (λ (a : Allocation). record a { rate = c }) as') ≡ units_total as'
  units_total-at c [] = refl
  units_total-at c (a ∷ more) = ap (◌+ℤ◌ a.units) (units_total-at c more)

  abbrev fill_of : ℤ → List Allocation → Option ℤ → ℤ → Fill
  fill_of remaining allocations clearing total = record {
    remaining = remaining;
    allocations = allocations;
    clearing_rate = clearing;
    total_allocated = total;
  }

  uniform_result-IsCommitted :
      (t : AuctionType) (remaining total : ℤ) (allocations : List Allocation) (clearing : Option ℤ)
      → total ≡ units_total allocations
      → Holds
          (IsCommitted coder isin t)
          (uniform_result coder now isin t (fill_of remaining allocations clearing total))
  unfolding uniform_result
  uniform_result-IsCommitted t remaining total [] clearing h = tt
  uniform_result-IsCommitted t remaining total (a ∷ more) none h = tt
  uniform_result-IsCommitted t remaining total (a ∷ more) (some c) h =
      hash-IsCommitted t (record a { rate = c })
        (map (λ (b : Allocation). record b { rate = c }) more) total
        (units_total-at c (a ∷ more) ∙ sym h)

  buyback_result-IsCommitted :
      (remaining total : ℤ) (allocations : List Allocation) (clearing : Option ℤ)
      → total ≡ units_total allocations
      → Holds
          (IsCommitted coder isin AuctionType.buyback)
          (buyback_result coder now isin (fill_of remaining allocations clearing total))
  unfolding buyback_result
  buyback_result-IsCommitted remaining total [] clearing h = tt
  buyback_result-IsCommitted remaining total (a ∷ more) clearing h =
      hash-IsCommitted AuctionType.buyback a more total (sym h)

  compute_uniform_allocation-IsCommitted :
      (t : AuctionType) (bids : List UnsealedBid) (offering : ℤ)
      → Holds (IsCommitted coder isin t) (compute_uniform_allocation coder now isin t bids offering)
  unfolding compute_uniform_allocation
  compute_uniform_allocation-IsCommitted t bids offering =
      let P = IsCommitted coder isin t in
      let finish : List UnsealedBid → Result AllocationResult = λ sorted.
        uniform_loop isin t sorted (empty_fill offering) >>= uniform_result coder now isin t in
      let sized : Result AllocationResult = sort_bids_by_auction_type bids t >>= finish in
      let checked : Result AllocationResult =
        throw_if (leb_ℤ offering (pos 0)) offering_must_be_positive >> sized in
      Holds-any P (throw_if (is_buyback t) use_buyback_allocation) (λ _. checked)
        λ _.
          Holds-any P (throw_if (leb_ℤ offering (pos 0)) offering_must_be_positive) (λ _. sized)
            λ _. Holds-any P (sort_bids_by_auction_type bids t) finish λ sorted.
              Holds-bind IsBalanced P (uniform_loop isin t sorted (empty_fill offering))
                (uniform_result coder now isin t)
                (uniform_loop-IsBalanced isin t sorted (empty_fill offering) refl)
                (λ st h.
                  uniform_result-IsCommitted t st.remaining st.total_allocated st.allocations
                    st.clearing_rate h)

  compute_buyback_allocation-IsCommitted :
      (bids : List UnsealedBid) (size : ℤ)
      → Holds
          (IsCommitted coder isin AuctionType.buyback)
          (compute_buyback_allocation coder now isin bids size)
  unfolding compute_buyback_allocation
  compute_buyback_allocation-IsCommitted bids size =
      let t = AuctionType.buyback in
      let P = IsCommitted coder isin t in
      let finish : List UnsealedBid → Result AllocationResult =
        λ sorted. buyback_loop isin sorted (empty_fill size) >>= buyback_result coder now isin in
      let sized : Result AllocationResult = sort_bids_by_auction_type bids t >>= finish in
      Holds-any P (throw_if (leb_ℤ size (pos 0)) buyback_size_must_be_positive) (λ _. sized)
        λ _. Holds-any P (sort_bids_by_auction_type bids t) finish λ sorted.
          Holds-bind IsBalanced P (buyback_loop isin sorted (empty_fill size))
            (buyback_result coder now isin)
            (buyback_loop-IsBalanced isin sorted (empty_fill size) refl)
            (λ st h.
              buyback_result-IsCommitted st.remaining st.total_allocated st.allocations
                st.clearing_rate h)

-- Whatever the bids, the size and the type: if an allocation is returned, it is not empty, its total
-- is the sum of its units, its clearing rate is the rate of its first entry, and its hash is that of
-- exactly its entries at its clearing rate.
pub compute_allocation-IsCommitted :
    (coder : AbiCoder) (now : ℕ) (isin : Text) (t : AuctionType) (bids : List UnsealedBid)
    (size : ℤ)
    → Holds (IsCommitted coder isin t) (compute_uniform_allocation coder now isin t bids size)
      × Holds
          (IsCommitted coder isin AuctionType.buyback)
          (compute_buyback_allocation coder now isin bids size)
compute_allocation-IsCommitted coder now isin t bids size = (
  compute_uniform_allocation-IsCommitted coder now isin t bids size,
  compute_buyback_allocation-IsCommitted coder now isin bids size,
)
