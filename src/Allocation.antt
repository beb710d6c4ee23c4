-- ===== src/Allocation.antt =====
-- services/nb-bond-api/src/allocation.ts with the types of types.ts: merit order of sealed bids, the
-- uniform-price and the buyback allocation, and the hash that commits to the result.
pub mod Buyback
pub mod Committed
pub mod Fills
pub mod Greedy
pub mod Order
pub mod Results
pub mod Sort
use cbdc_tokenization_sandbo.Prelude.{
  Bool, List, Option, Result, Text, [], buyback_size_must_be_positive, codes, eqb_ℤ, err, false,
  if◌then◌else◌, leb_ℤ, ltb_ℤ, map, negsuc, no_allocatable_bids, none, offering_must_be_positive,
  ok, pos, some, throw_if, true, use_buyback_allocation, ℕ, ℤ, ◌++◌, ◌+ℤ◌, ◌-ℤ◌, ◌>>=◌, ◌>>◌, ◌∷◌,
}
use cbdc_tokenization_sandbo.Parsing.{parse_positive_bigint, string}

pub data AuctionType : Type 0 where
  rate price buyback : AuctionType

-- `Role` of encryption.ts: whose key wrap opened the bid.
pub data Role : Type 0 where
  auctioneer bidder : Role

pub record BidPlaintext : Type 0 where
  pub isin : Text
  pub bidder : Text
  pub nonce : Text
  pub rate : Text
  pub units : Text
  pub salt : Text
  pub bidder_nonce : Text
  pub bidder_sig : Text

pub record UnsealedBid : Type 0 where
  pub bidder : Text
  pub ciphertext : Text
  pub plaintext_hash : Text
  pub plaintext : BidPlaintext
  pub ciphertext_hash : Text
  pub bid_index : ℕ
  pub used_wrap : Role

pub record Allocation : Type 0 where
  pub isin : Text
  pub bidder : Text
  pub units : ℤ
  pub rate : ℤ
  pub auction_type : AuctionType
  pub bid_index : ℕ

pub record AllocationResult : Type 0 where
  pub clearing_rate : ℤ
  pub total_allocated : ℤ
  pub auction_type : AuctionType
  pub allocations : List Allocation
  pub allocation_hash : Text
  pub computed_at : ℕ

-- The parts of `ethers` that the module calls: ABI encoding, which throws on a value outside its
-- type, and the hash of the encoded bytes.
pub record AbiCoder : Type 0 where
  pub encode : Text → AuctionType → ℤ → List (Text × ℤ × ℤ × AuctionType) → Result Text
  pub keccak256 : Text → Text

abbrev pub units_field : Text
units_field = codes "units"

abbrev pub rate_field : Text
rate_field = codes "rate"

-- `AUCTION_RATE_ORDER[auctionType] === 'higher'`
unfoldable pub prefer_higher : AuctionType → Bool
prefer_higher rate = false
prefer_higher price = true
prefer_higher buyback = false

-- Ties on the rate prefer larger units.
compare_units : Text → Text → Result ℤ
compare_units units_a units_b = do
  parsed_units_a ← parse_positive_bigint (string units_a) units_field
  parsed_units_b ← parse_positive_bigint (string units_b) units_field
  ok (
      if ltb_ℤ parsed_units_a parsed_units_b
      then pos 1
      else if ltb_ℤ parsed_units_b parsed_units_a
      then negsuc 0
      else pos 0)

-- The sign that `sort` reads: positive puts the second bid first.
unfoldable pub compare_bid_plaintext : Text → Text → Text → Text → AuctionType → Result ℤ
unfolding prefer_higher compare_units
compare_bid_plaintext rate_a units_a rate_b units_b auction_type = do
  parsed_rate_a ← parse_positive_bigint (string rate_a) rate_field
  parsed_rate_b ← parse_positive_bigint (string rate_b) rate_field
  let better =
      if prefer_higher auction_type
      then ltb_ℤ parsed_rate_a parsed_rate_b
      else ltb_ℤ parsed_rate_b parsed_rate_a
  if eqb_ℤ parsed_rate_a parsed_rate_b
      then compare_units units_a units_b
      else ok (if better then pos 1 else negsuc 0)

-- `Array.prototype.sort` with a comparator that may throw: a stable insertion sort. Two elements
-- that compare as 0 keep their order.
module _ {A : Type 0} (compare_fn : A → A → Result ℤ) where
  insert_sorted : A → List A → Result (List A)
  insert_sorted x [] = ok (x ∷ [])
  insert_sorted x (y ∷ ys) = do
    sign ← compare_fn x y
    let later = insert_sorted x ys >>= λ rest. ok (y ∷ rest)
    if leb_ℤ sign (pos 0) then ok (x ∷ y ∷ ys) else later

  unfoldable pub sort : List A → Result (List A)
  unfolding insert_sorted
  sort [] = ok []
  sort (x ∷ xs) = sort xs >>= insert_sorted x

abbrev pub compare_bids : AuctionType → UnsealedBid → UnsealedBid → Result ℤ
compare_bids auction_type a b =
    compare_bid_plaintext a.plaintext.rate a.plaintext.units b.plaintext.rate b.plaintext.units
      auction_type

unfoldable pub sort_bids_by_auction_type :
    List UnsealedBid → AuctionType → Result (List UnsealedBid)
unfolding sort
sort_bids_by_auction_type bids auction_type = sort (compare_bids auction_type) bids

-- The variables of the two loops. The buyback loop has no `clearing_rate`.
pub record Fill : Type 0 where
  pub remaining : ℤ
  pub allocations : List Allocation
  pub clearing_rate : Option ℤ
  pub total_allocated : ℤ

-- The end of a round: what is left of the bid is allocated, unless it is nothing.
unfoldable pub push_fill : Text → AuctionType → UnsealedBid → ℤ → ℤ → Fill → Fill
push_fill isin auction_type bid units bid_rate st =
    let fill = if ltb_ℤ st.remaining units then st.remaining else units in
    if eqb_ℤ fill (pos 0) then st else record st {
      allocations =
          st.allocations
          ++ record {
            isin = isin;
            bidder = bid.bidder;
            units = fill;
            rate = bid_rate;
            auction_type = auction_type;
            bid_index = bid.bid_index;
          }
            ∷ [];
      total_allocated = st.total_allocated +ℤ fill;
      remaining = st.remaining -ℤ fill;
      clearing_rate = some bid_rate;
    }

-- The uniform loop parses a bid before it looks at what remains.
unfoldable pub uniform_loop : Text → AuctionType → List UnsealedBid → Fill → Result Fill
uniform_loop isin auction_type [] st = ok st
uniform_loop isin auction_type (bid ∷ bids) st = do
  units ← parse_positive_bigint (string bid.plaintext.units) units_field
  bid_rate ← parse_positive_bigint (string bid.plaintext.rate) rate_field
  let rest = uniform_loop isin auction_type bids (push_fill isin auction_type bid units bid_rate st)
  if eqb_ℤ st.remaining (pos 0) then ok st else rest

-- The buyback loop stops before it parses a bid for which nothing remains.
unfoldable pub buyback_loop : Text → List UnsealedBid → Fill → Result Fill
buyback_loop isin [] st = ok st
buyback_loop isin (bid ∷ bids) st =
    let rest = (do
      units ← parse_positive_bigint (string bid.plaintext.units) units_field
      bid_rate ← parse_positive_bigint (string bid.plaintext.rate) rate_field
      buyback_loop isin bids (push_fill isin AuctionType.buyback bid units bid_rate st)) in
    if eqb_ℤ st.remaining (pos 0) then ok st else rest

abbrev pub empty_fill : ℤ → Fill
empty_fill size = record {
  remaining = size;
  allocations = [];
  clearing_rate = none;
  total_allocated = pos 0;
}

abbrev pub is_buyback : AuctionType → Bool
is_buyback AuctionType.buyback = true
is_buyback _ = false

abbrev pub is_nil {ℓ} : {A : Type ℓ} → List A → Bool
is_nil [] = true
is_nil (x ∷ xs) = false

module _ (coder : AbiCoder) where
  unfoldable pub build_allocation_hash : Text → AuctionType → ℤ → List Allocation → Result Text
  build_allocation_hash isin auction_type clearing_rate allocations = do
    encoded ←
        coder.encode isin auction_type clearing_rate
          (map (λ (a : Allocation). (a.bidder, a.units, a.rate, auction_type)) allocations)
    ok (coder.keccak256 encoded)

  -- The end of `computeUniformAllocation`: every allocation at the clearing rate.
  unfoldable pub uniform_result : ℕ → Text → AuctionType → Fill → Result AllocationResult
  unfolding build_allocation_hash
  uniform_result now isin auction_type st =
      throw_if (is_nil st.allocations) no_allocatable_bids >> elim st.clearing_rate [
        | none ↦ err no_allocatable_bids
        | some clearing ↦
            let uniform = map (λ (a : Allocation). record a { rate = clearing }) st.allocations in
            build_allocation_hash isin auction_type clearing uniform >>= λ hash. ok (record {
              clearing_rate = clearing;
              total_allocated = st.total_allocated;
              auction_type = auction_type;
              allocations = uniform;
              allocation_hash = hash;
              computed_at = now;
            })
      ]

  -- The end of `computeBuybackAllocation`: the clearing rate is that of the first allocation.
  unfoldable pub buyback_result : ℕ → Text → Fill → Result AllocationResult
  unfolding build_allocation_hash
  buyback_result now isin st = elim st.allocations [
    | [] ↦ err no_allocatable_bids
    | first ∷ others ↦
        build_allocation_hash isin AuctionType.buyback first.rate (first ∷ others) >>= λ hash.
        ok (record {
          clearing_rate = first.rate;
          total_allocated = st.total_allocated;
          auction_type = AuctionType.buyback;
          allocations = first ∷ others;
          allocation_hash = hash;
          computed_at = now;
        })
  ]

  unfoldable pub compute_uniform_allocation :
      ℕ → Text → AuctionType → List UnsealedBid → ℤ → Result AllocationResult
  compute_uniform_allocation now isin auction_type bids offering_units = do
    throw_if (is_buyback auction_type) use_buyback_allocation
    throw_if (leb_ℤ offering_units (pos 0)) offering_must_be_positive
    sorted ← sort_bids_by_auction_type bids auction_type
    st ← uniform_loop isin auction_type sorted (empty_fill offering_units)
    uniform_result now isin auction_type st

  unfoldable pub compute_buyback_allocation :
      ℕ → Text → List UnsealedBid → ℤ → Result AllocationResult
  compute_buyback_allocation now isin bids target_size = do
    throw_if (leb_ℤ target_size (pos 0)) buyback_size_must_be_positive
    sorted ← sort_bids_by_auction_type bids AuctionType.buyback
    st ← buyback_loop isin sorted (empty_fill target_size)
    buyback_result now isin st
