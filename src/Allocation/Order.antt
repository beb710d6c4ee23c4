-- ===== src/Allocation/Order.antt =====
-- allocation.ts, `compareBidPlaintextByAuctionType`: the merit order of bids and its comparator.
use cbdc_tokenization_sandbo.Prelude.{
  Result, Text, arith, err, if◌then◌else◌, leb_ℤ, ltb, must_be_positive, negsuc, ok, pos, pos_part,
  ℕ, ℤ, ◌<◌, ◌==◌, ◌>>=◌, ◌↔◌, ◌≡◌, ◌≤ℤ◌, ◌≤◌, ◌⊎◌,
}
use cbdc_tokenization_sandbo.Parsing.{Value, parse_bigint, parse_positive_bigint, string}
use cbdc_tokenization_sandbo.Allocation.{
  AuctionType, UnsealedBid, compare_bid_plaintext, compare_bids, rate_field, units_field,
}

-- What a text stands for as a positive number, 0 if it is none.
unfoldable pub amount : Text → Text → ℕ
amount s field = elim (parse_positive_bigint (string s) field) [ ok z ↦ pos_part z | err _ ↦ 0 ]

abbrev pub units_of : UnsealedBid → ℕ
units_of b = amount b.plaintext.units units_field

abbrev pub rate_of : UnsealedBid → ℕ
rate_of b = amount b.plaintext.rate rate_field

-- Both numbers of the bid parse as positive integers.
pub record IsWellFormed (b : UnsealedBid) : Type 0 where
  pub units_parse :
      parse_positive_bigint (string b.plaintext.units) units_field ≡ ok (pos (units_of b))
  pub rate_parse : parse_positive_bigint (string b.plaintext.rate) rate_field ≡ ok (pos (rate_of b))

-- `a` comes before `b`, or ties with it: the better rate, and at equal rates the larger units.
abbrev pub BetterRate : AuctionType → ℕ → ℕ → Type 0
BetterRate AuctionType.price a b = b < a
BetterRate _ a b = a < b

abbrev pub Precedes : AuctionType → UnsealedBid → UnsealedBid → Type 0
Precedes t a b =
    BetterRate t (rate_of a) (rate_of b) ⊎ ((rate_of a ≡ rate_of b) × (units_of b ≤ units_of a))

checked_pos :
    (r : Result ℤ) (field : Text) (z : ℤ)
    → (r >>= λ n. if leb_ℤ n (pos 0) then err (must_be_positive field) else ok n) ≡ ok z
    → pos 1 ≤ℤ z
checked_pos (ok n) field z h = ground arith
checked_pos (err e) field z h = cc

-- `parsePositiveBigInt` returns positive numbers only.
pub parse_positive-pos :
    (v : Value) (field : Text) (z : ℤ) → parse_positive_bigint v field ≡ ok z → pos 1 ≤ℤ z
unfolding parse_positive_bigint
parse_positive-pos v field z h = checked_pos (parse_bigint v field) field z h

pub IsWellFormed-pos : (b : UnsealedBid) → IsWellFormed b → (1 ≤ units_of b) × (1 ≤ rate_of b)
IsWellFormed-pos b h = (
  omega (
    arith,
    parse_positive-pos (string b.plaintext.units) units_field (pos (units_of b)) h.units_parse,
  ),
  omega (
    arith,
    parse_positive-pos (string b.plaintext.rate) rate_field (pos (rate_of b)) h.rate_parse,
  ),
)

-- The sign, on numbers.
abbrev tie_sign : ℕ → ℕ → ℤ
tie_sign ua ub = if ltb ua ub then pos 1 else if ltb ub ua then negsuc 0 else pos 0

abbrev rate_sign : AuctionType → ℕ → ℕ → ℤ
rate_sign AuctionType.price ra rb = if ltb ra rb then pos 1 else negsuc 0
rate_sign _ ra rb = if ltb rb ra then pos 1 else negsuc 0

abbrev merit_sign : AuctionType → ℕ → ℕ → ℕ → ℕ → ℤ
merit_sign t ra ua rb ub = if ra == rb then tie_sign ua ub else rate_sign t ra rb

merit_sign_iff :
    (t : AuctionType) (ra ua rb ub : ℕ)
    → (merit_sign t ra ua rb ub ≤ℤ pos 0) ↔ (BetterRate t ra rb ⊎ ((ra ≡ rb) × (ub ≤ ua)))
merit_sign_iff AuctionType.rate ra ua rb ub = ground arith
merit_sign_iff AuctionType.price ra ua rb ub = ground arith
merit_sign_iff AuctionType.buyback ra ua rb ub = ground arith

compare_bids-merit_sign :
    (t : AuctionType) (a b : UnsealedBid)
    → IsWellFormed a
    → IsWellFormed b
    → compare_bids t a b ≡ ok (merit_sign t (rate_of a) (units_of a) (rate_of b) (units_of b))
unfolding compare_bid_plaintext
compare_bids-merit_sign AuctionType.rate a b ha hb =
    rw (ha.rate_parse, hb.rate_parse, ha.units_parse, hb.units_parse) (ground arith)
compare_bids-merit_sign AuctionType.price a b ha hb =
    rw (ha.rate_parse, hb.rate_parse, ha.units_parse, hb.units_parse) (ground arith)
compare_bids-merit_sign AuctionType.buyback a b ha hb =
    rw (ha.rate_parse, hb.rate_parse, ha.units_parse, hb.units_parse) (ground arith)

-- On well-formed bids the comparator returns, and its sign is not positive just if the first
-- bid precedes the second.
pub compare_bids-sign :
    (t : AuctionType) (a b : UnsealedBid)
    → IsWellFormed a
    → IsWellFormed b
    → (c : ℤ) × (compare_bids t a b ≡ ok c) × ((c ≤ℤ pos 0) ↔ Precedes t a b)
compare_bids-sign t a b ha hb = (
  merit_sign t (rate_of a) (units_of a) (rate_of b) (units_of b),
  compare_bids-merit_sign t a b ha hb,
  merit_sign_iff t (rate_of a) (units_of a) (rate_of b) (units_of b),
)

-- The merit order is total and transitive.
pub Precedes-total : (t : AuctionType) (a b : UnsealedBid) → ¬ Precedes t a b → Precedes t b a
Precedes-total AuctionType.rate a b h = grind arith
Precedes-total AuctionType.price a b h = grind arith
Precedes-total AuctionType.buyback a b h = grind arith

pub Precedes-trans :
    (t : AuctionType) (a b c : UnsealedBid) → Precedes t a b → Precedes t b c → Precedes t a c
Precedes-trans AuctionType.rate a b c h k = omega arith
Precedes-trans AuctionType.price a b c h k = omega arith
Precedes-trans AuctionType.buyback a b c h k = omega arith
