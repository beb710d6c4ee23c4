-- ===== src/Allocation/Greedy.antt =====
-- allocation.ts: what both allocation loops compute, said without a state: bids are filled in order,
-- each as far as units remain.
use Prim.Native.Nat.{min}
use cbdc_tokenization_sandbo.Prelude.{
  +ℤ_zero, All, List, Option, Text, [], append-nil, append_assoc, arith, int_laws, ok, pos, refl,
  some, suc, zero, ℕ, ℤ, ◌++◌, ◌+ℤ◌, ◌+◌, ◌-ℤ◌, ◌-◌, ◌∷◌, ◌≡◌, ◌≤◌,
}
use cbdc_tokenization_sandbo.Allocation.{
  Allocation, AuctionType, Fill, UnsealedBid, buyback_loop, push_fill, uniform_loop,
}
use cbdc_tokenization_sandbo.Allocation.Sort.{total_of}
use cbdc_tokenization_sandbo.Allocation.Order.{IsWellFormed, IsWellFormed-pos, rate_of, units_of}

-- The units that the bids ask for together.
abbrev pub demand : List UnsealedBid → ℕ
demand = total_of units_of

abbrev pub allocate : Text → AuctionType → UnsealedBid → ℕ → Allocation
allocate isin t b filled = record {
  isin = isin;
  bidder = b.bidder;
  units = pos filled;
  rate = pos (rate_of b);
  auction_type = t;
  bid_index = b.bid_index;
}

abbrev pub greedy : Text → AuctionType → ℕ → List UnsealedBid → List Allocation
greedy isin t m [] = []
greedy isin t zero (b ∷ bs) = []
greedy isin t (suc m) (b ∷ bs) =
    allocate isin t b (min (units_of b) (suc m)) ∷ greedy isin t (suc m - units_of b) bs

-- The rate of the last allocation, if there is one.
abbrev pub last_rate : Option ℤ → List Allocation → Option ℤ
last_rate o [] = o
last_rate o (a ∷ more) = last_rate (some a.rate) more

-- The variables of the loop behind the bids, when `m` units remain before them.
abbrev pub filled :
    Text → AuctionType → ℕ → List UnsealedBid → List Allocation → Option ℤ → ℤ → Fill
filled isin t m bids done clearing total = record {
  remaining = pos (m - demand bids);
  allocations = done ++ greedy isin t m bids;
  clearing_rate = last_rate clearing (greedy isin t m bids);
  total_allocated = total +ℤ pos (min m (demand bids));
}

abbrev fill_at : ℕ → List Allocation → Option ℤ → ℤ → Fill
fill_at m done clearing total = record {
  remaining = pos m;
  allocations = done;
  clearing_rate = clearing;
  total_allocated = total;
}

split_total :
    (total : ℤ) (u m d : ℕ)
    → total +ℤ pos (min u m) +ℤ pos (min (m - u) d) ≡ total +ℤ pos (min m (u + d))
split_total total u m d = omega int_laws

module _ (isin : Text) (t : AuctionType) where
  push_fill-fill_at :
      (b : UnsealedBid) (m : ℕ) (done : List Allocation) (clearing : Option ℤ) (total : ℤ)
      → 1 ≤ units_of b
      → push_fill isin t b
          (pos (units_of b))
          (pos (rate_of b))
          (fill_at (suc m) done clearing total)
        ≡ fill_at
            (suc m - units_of b)
            (done ++ allocate isin t b (min (units_of b) (suc m)) ∷ [])
            (some (pos (rate_of b)))
            (total +ℤ pos (min (units_of b) (suc m)))
  unfolding push_fill ◌-ℤ◌
  push_fill-fill_at b m done clearing total h = ground arith

  filled-cons :
      (b : UnsealedBid) (bs : List UnsealedBid) (m : ℕ) (done : List Allocation)
      (clearing : Option ℤ) (total : ℤ)
      → filled isin t
          (suc m - units_of b)
          bs
          (done ++ allocate isin t b (min (units_of b) (suc m)) ∷ [])
          (some (pos (rate_of b)))
          (total +ℤ pos (min (units_of b) (suc m)))
        ≡ filled isin t (suc m) (b ∷ bs) done clearing total
  filled-cons b bs m done clearing total = ground (
    arith,
    append_assoc done (allocate isin t b (min (units_of b) (suc m)) ∷ [])
        (greedy isin t (suc m - units_of b) bs),
    split_total total (units_of b) (suc m) (demand bs),
  )

  filled-zero :
      (bids : List UnsealedBid) (done : List Allocation) (clearing : Option ℤ) (total : ℤ)
      → filled isin t 0 bids done clearing total ≡ fill_at 0 done clearing total
  filled-zero [] done clearing total = ground (arith, append-nil done, +ℤ_zero total)
  filled-zero (b ∷ bids) done clearing total = ground (arith, append-nil done, +ℤ_zero total)

  filled-nil :
      (m : ℕ) (done : List Allocation) (clearing : Option ℤ) (total : ℤ)
      → filled isin t m [] done clearing total ≡ fill_at m done clearing total
  filled-nil m done clearing total = ground (arith, append-nil done, +ℤ_zero total)

  -- The uniform loop on well-formed bids.
  pub uniform_loop-greedy :
      (bids : List UnsealedBid) (m : ℕ) (done : List Allocation) (clearing : Option ℤ) (total : ℤ)
      → All IsWellFormed bids
      → uniform_loop isin t bids (fill_at m done clearing total)
        ≡ ok (filled isin t m bids done clearing total)
  unfolding uniform_loop
  uniform_loop-greedy [] m done clearing total w = rw filled-nil refl
  uniform_loop-greedy (b ∷ bids) zero done clearing total w =
      rw (w.0.units_parse, w.0.rate_parse, filled-zero (b ∷ bids)) refl
  uniform_loop-greedy (b ∷ bids) (suc m) done clearing total w =
      rw
        (
          w.0.units_parse,
          w.0.rate_parse,
          push_fill-fill_at b m done clearing total (IsWellFormed-pos b w.0).0,
          uniform_loop-greedy bids (suc m - units_of b)
              (done ++ allocate isin t b (min (units_of b) (suc m)) ∷ []) (some (pos (rate_of b)))
              (total +ℤ pos (min (units_of b) (suc m))) w.1,
          filled-cons b bids m done clearing total,
        )
        (ground arith)

  -- The buyback loop on well-formed bids: the same fills, at the bids' own rates.
  pub buyback_loop-greedy :
      (bids : List UnsealedBid) (m : ℕ) (done : List Allocation) (clearing : Option ℤ) (total : ℤ)
      → t ≡ AuctionType.buyback
      → All IsWellFormed bids
      → buyback_loop isin bids (fill_at m done clearing total)
        ≡ ok (filled isin t m bids done clearing total)
  unfolding buyback_loop
  buyback_loop-greedy [] m done clearing total e w = rw filled-nil refl
  buyback_loop-greedy (b ∷ bids) zero done clearing total e w = rw (filled-zero (b ∷ bids)) refl
  buyback_loop-greedy (b ∷ bids) (suc m) done clearing total e w =
      rw
        (
          w.0.units_parse,
          w.0.rate_parse,
          ← e,
          push_fill-fill_at b m done clearing total (IsWellFormed-pos b w.0).0,
          buyback_loop-greedy bids (suc m - units_of b)
              (done ++ allocate isin t b (min (units_of b) (suc m)) ∷ []) (some (pos (rate_of b)))
              (total +ℤ pos (min (units_of b) (suc m))) e w.1,
          filled-cons b bids m done clearing total,
        )
        (ground arith)
