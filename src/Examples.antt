-- ===== src/Examples.antt =====
-- Runs of the model at small inputs, and each theorem at one of them: bids and their allocation.
mod Records
mod Sealing
mod Bids
mod Views
mod Api
mod Boot
mod Ingest
mod Store
mod Service
use cbdc_tokenization_sandbo.Prelude.{
  All, List, Text, [], arith, codes, negsuc, ok, pos, refl, ℕ, ℤ, ◌+ℤ◌, ◌-ℤ◌, ◌>>=◌, ◌↔◌, ◌∷◌, ◌≡◌,
  ◌≢◌, ◌≤ℤ◌,
}
use cbdc_tokenization_sandbo.Allocation.{
  AbiCoder, AuctionType, UnsealedBid, auctioneer, bidder, build_allocation_hash, buyback,
  compare_bid_plaintext, compare_bids, compute_buyback_allocation, compute_uniform_allocation,
  price, push_fill, rate, sort_bids_by_auction_type, uniform_loop, uniform_result, units_field,
}
use cbdc_tokenization_sandbo.Parsing.{
  Value, parse_bigint, parse_positive_bigint, print_bigint, string,
}
use cbdc_tokenization_sandbo.Allocation.Order.{
  IsWellFormed, Precedes, amount, compare_bids-sign, rate_of,
}
use cbdc_tokenization_sandbo.Allocation.Results.{
  IsUniform, compute_uniform_allocation-IsUniform, uniform_outcome,
}
use cbdc_tokenization_sandbo.Allocation.Buyback.{
  IsBuyback, buyback_outcome, compute_buyback_allocation-IsBuyback,
}
use cbdc_tokenization_sandbo.Allocation.Sort.{Sorts, sort_bids_by_auction_type-Sorts}
use cbdc_tokenization_sandbo.Parsing.Decimal.{parse_bigint-print_bigint}

abbrev seller : Text
seller = codes "0x01"

abbrev isin_a : Text
isin_a = codes "NO001"

abbrev bid : Text → Text → Text → ℕ → UnsealedBid
bid owner bid_rate units index = record {
  bidder = owner;
  ciphertext = [];
  plaintext_hash = [];
  plaintext = record {
    isin = isin_a;
    bidder = owner;
    nonce = [];
    rate = bid_rate;
    units = units;
    salt = [];
    bidder_nonce = [];
    bidder_sig = [];
  };
  ciphertext_hash = [];
  bid_index = index;
  used_wrap = auctioneer;
}

abbrev high : UnsealedBid
high = bid (codes "0xaa") (codes "325") (codes "10") 0

abbrev low : UnsealedBid
low = bid (codes "0xbb") (codes "300") (codes "6") 1

abbrev two_bids : List UnsealedBid
two_bids = high ∷ low ∷ []

high-IsWellFormed : IsWellFormed high
unfolding parse_positive_bigint amount
high-IsWellFormed = record { units_parse = refl; rate_parse = refl }

low-IsWellFormed : IsWellFormed low
unfolding parse_positive_bigint amount
low-IsWellFormed = record { units_parse = refl; rate_parse = refl }

two_bids-IsWellFormed : All IsWellFormed two_bids
two_bids-IsWellFormed = (high-IsWellFormed, (low-IsWellFormed, tt))

abbrev coder : AbiCoder
coder = record { encode = λ isin _ _ _. ok isin; keccak256 = λ s. s }

some_bids : two_bids ≢ []
some_bids = ground arith

sells : AuctionType.rate ≢ AuctionType.buyback
sells = ground arith

-- Twelve units are sold: six at the better rate and six of the other bid's ten, all at 325.
compute_uniform_allocation-twelve :
    compute_uniform_allocation coder 7 isin_a AuctionType.rate two_bids (pos 12)
    ≡ ok (record {
      clearing_rate = pos 325;
      total_allocated = pos 12;
      auction_type = AuctionType.rate;
      allocations =
          record {
            isin = isin_a;
            bidder = codes "0xbb";
            units = pos 6;
            rate = pos 325;
            auction_type = AuctionType.rate;
            bid_index = 1;
          }
          ∷ record {
            isin = isin_a;
            bidder = codes "0xaa";
            units = pos 6;
            rate = pos 325;
            auction_type = AuctionType.rate;
            bid_index = 0;
          }
          ∷ [];
      allocation_hash = isin_a;
      computed_at = 7;
    })
unfolding compute_uniform_allocation uniform_loop push_fill uniform_result sort_bids_by_auction_type
    compare_bid_plaintext parse_positive_bigint ◌+ℤ◌ ◌-ℤ◌
compute_uniform_allocation-twelve = refl

compute_uniform_allocation-IsUniform_example :
    (sorted : List UnsealedBid) × (clearing : ℕ) × ((hash : Text)
      → IsUniform AuctionType.rate 12 two_bids sorted clearing
          (uniform_outcome 7 isin_a AuctionType.rate 12 sorted clearing hash))
    × (compute_uniform_allocation coder 7 isin_a AuctionType.rate two_bids (pos 12) ≡ (
        build_allocation_hash coder isin_a AuctionType.rate
          (pos clearing)
          (uniform_outcome 7 isin_a AuctionType.rate 12 sorted clearing []).allocations
        >>= λ hash. ok (uniform_outcome 7 isin_a AuctionType.rate 12 sorted clearing hash)))
compute_uniform_allocation-IsUniform_example =
    compute_uniform_allocation-IsUniform coder 7 isin_a AuctionType.rate two_bids 12 sells
      (omega arith) some_bids two_bids-IsWellFormed

compute_buyback_allocation-IsBuyback_example :
    (first : UnsealedBid) × (others : List UnsealedBid) × ((hash : Text)
      → IsBuyback 12 two_bids (first ∷ others) (buyback_outcome 7 isin_a 12 first others hash))
    × (compute_buyback_allocation coder 7 isin_a two_bids (pos 12) ≡ (
        build_allocation_hash coder isin_a AuctionType.buyback
          (pos (rate_of first))
          (buyback_outcome 7 isin_a 12 first others []).allocations
        >>= λ hash. ok (buyback_outcome 7 isin_a 12 first others hash)))
compute_buyback_allocation-IsBuyback_example =
    compute_buyback_allocation-IsBuyback coder 7 isin_a two_bids 12 (omega arith) some_bids
      two_bids-IsWellFormed

sort_bids_by_auction_type-Sorts_example :
    (sorted : List UnsealedBid) × (sort_bids_by_auction_type two_bids AuctionType.price ≡ ok sorted)
    × Sorts (Precedes AuctionType.price) two_bids sorted
sort_bids_by_auction_type-Sorts_example =
    sort_bids_by_auction_type-Sorts AuctionType.price two_bids two_bids-IsWellFormed

compare_bids-sign_run :
    (c : ℤ) × (compare_bids AuctionType.price high low ≡ ok c)
    × ((c ≤ℤ pos 0) ↔ Precedes AuctionType.price high low)
compare_bids-sign_run =
    compare_bids-sign AuctionType.price high low high-IsWellFormed low-IsWellFormed

parse_bigint-print_bigint_example :
    parse_bigint (Value.string (print_bigint (negsuc 41))) units_field ≡ ok (negsuc 41)
parse_bigint-print_bigint_example = parse_bigint-print_bigint (negsuc 41) units_field

print_bigint-forty_two : print_bigint (negsuc 41) ≡ codes "-42"
unfolding print_bigint
print_bigint-forty_two = refl
