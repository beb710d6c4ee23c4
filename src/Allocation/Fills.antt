-- ===== src/Allocation/Fills.antt =====
-- allocation.ts: the fills of both loops, bid by bid, their total and the marginal rate.
use Prim.Native.Nat.{min}
use cbdc_tokenization_sandbo.Prelude.{
  All, List, Text, [], ap, arith, int_laws, pos, refl, some, suc, zero, ℕ, ℤ, ◌++◌, ◌+ℤ◌, ◌-◌, ◌∷◌,
  ◌≡◌, ◌≤ℤ◌, ◌≤◌,
}
use cbdc_tokenization_sandbo.Allocation.{Allocation, AuctionType, UnsealedBid}
use cbdc_tokenization_sandbo.Allocation.Order.{
  IsWellFormed, IsWellFormed-pos, Precedes, rate_of, units_of,
}
use cbdc_tokenization_sandbo.Allocation.Sort.{All-imp, IsInOrder}
use cbdc_tokenization_sandbo.Allocation.Greedy.{demand, greedy, last_rate}

-- The allocations fill the first bids of the list, one each: the bidder and the index are the bid's,
-- and the units lie between one and what the bid asks for.
abbrev pub FillsBids : List Allocation → List UnsealedBid → Type 0
FillsBids [] bids = Unit
FillsBids (a ∷ more) [] = ⊥
FillsBids (a ∷ more) (b ∷ bids) =
    ((a.bidder ≡ b.bidder)
      × (a.bid_index ≡ b.bid_index)
      × (pos 1 ≤ℤ a.units)
      × (a.units ≤ℤ pos (units_of b)))
    × FillsBids more bids

abbrev pub units_total : List Allocation → ℤ
units_total [] = pos 0
units_total (a ∷ more) = a.units +ℤ units_total more

-- The bids that are filled, at least in part, and those that get nothing.
abbrev pub accepted : ℕ → List UnsealedBid → List UnsealedBid
accepted m [] = []
accepted zero (b ∷ bids) = []
accepted (suc m) (b ∷ bids) = b ∷ accepted (suc m - units_of b) bids

abbrev pub refused : ℕ → List UnsealedBid → List UnsealedBid
refused m [] = []
refused zero (b ∷ bids) = b ∷ bids
refused (suc m) (b ∷ bids) = refused (suc m - units_of b) bids

-- The rate of the last bid that is filled, `r` if none is.
abbrev pub marginal : ℕ → ℕ → List UnsealedBid → ℕ
marginal r m [] = r
marginal r zero (b ∷ bids) = r
marginal r (suc m) (b ∷ bids) = marginal (rate_of b) (suc m - units_of b) bids

-- At least as good a rate.
abbrev pub AtLeast : AuctionType → ℕ → ℕ → Type 0
AtLeast AuctionType.price a b = b ≤ a
AtLeast _ a b = a ≤ b

module _ (isin : Text) (t : AuctionType) where
  pub greedy-FillsBids :
      (m : ℕ) (bids : List UnsealedBid)
      → All IsWellFormed bids
      → FillsBids (greedy isin t m bids) bids
  greedy-FillsBids m [] w = tt
  greedy-FillsBids zero (b ∷ bids) w = tt
  greedy-FillsBids (suc m) (b ∷ bids) w = (
    (refl, refl, omega (arith, IsWellFormed-pos b w.0), omega arith),
    greedy-FillsBids (suc m - units_of b) bids w.1,
  )

  pub units_total-greedy :
      (m : ℕ) (bids : List UnsealedBid)
      → units_total (greedy isin t m bids) ≡ pos (min m (demand bids))
  units_total-greedy zero [] = omega int_laws
  units_total-greedy (suc m) [] = omega int_laws
  units_total-greedy zero (b ∷ bids) = omega int_laws
  units_total-greedy (suc m) (b ∷ bids) =
      rw (units_total-greedy (suc m - units_of b) bids) (omega int_laws)

  pub last_rate-greedy :
      (r m : ℕ) (bids : List UnsealedBid)
      → last_rate (some (pos r)) (greedy isin t m bids) ≡ some (pos (marginal r m bids))
  last_rate-greedy r m [] = refl
  last_rate-greedy r zero (b ∷ bids) = refl
  last_rate-greedy r (suc m) (b ∷ bids) = last_rate-greedy (rate_of b) (suc m - units_of b) bids

pub append-accepted-refused :
    (m : ℕ) (bids : List UnsealedBid) → accepted m bids ++ refused m bids ≡ bids
append-accepted-refused m [] = refl
append-accepted-refused zero (b ∷ bids) = refl
append-accepted-refused (suc m) (b ∷ bids) =
    ap (◌∷◌ b) (append-accepted-refused (suc m - units_of b) bids)

Precedes-AtLeast :
    (t : AuctionType) (a b : UnsealedBid) → Precedes t a b → AtLeast t (rate_of a) (rate_of b)
Precedes-AtLeast AuctionType.rate a b h = omega arith
Precedes-AtLeast AuctionType.price a b h = omega arith
Precedes-AtLeast AuctionType.buyback a b h = omega arith

AtLeast-trans : (t : AuctionType) (a b c : ℕ) → AtLeast t a b → AtLeast t b c → AtLeast t a c
AtLeast-trans AuctionType.rate a b c h k = omega arith
AtLeast-trans AuctionType.price a b c h k = omega arith
AtLeast-trans AuctionType.buyback a b c h k = omega arith

pub AtLeast-refl : (t : AuctionType) (r : ℕ) → AtLeast t r r
AtLeast-refl AuctionType.rate r = omega arith
AtLeast-refl AuctionType.price r = omega arith
AtLeast-refl AuctionType.buyback r = omega arith

pub behind :
    (t : AuctionType) (b : UnsealedBid) (bids : List UnsealedBid)
    → All (Precedes t b) bids
    → All (λ c. AtLeast t (rate_of b) (rate_of c)) bids
behind t b bids =
    All-imp (Precedes t b) (λ c. AtLeast t (rate_of b) (rate_of c)) (Precedes-AtLeast t b) bids

-- The marginal rate is no better than the rate before it.
marginal-AtLeast :
    (t : AuctionType) (r m : ℕ) (bids : List UnsealedBid)
    → All (λ b. AtLeast t r (rate_of b)) bids
    → IsInOrder (Precedes t) bids
    → AtLeast t r (marginal r m bids)
marginal-AtLeast t r m [] h s = AtLeast-refl t r
marginal-AtLeast t r zero (b ∷ bids) h s = AtLeast-refl t r
marginal-AtLeast t r (suc m) (b ∷ bids) h s =
    AtLeast-trans t r (rate_of b) (marginal (rate_of b) (suc m - units_of b) bids) h.0
      (marginal-AtLeast t (rate_of b) (suc m - units_of b) bids (behind t b bids s.0) s.1)

-- In merit order every filled bid has at least the marginal rate, and the marginal rate is at
-- least that of every bid that gets nothing.
pub marginal-splits :
    (t : AuctionType) (r m : ℕ) (bids : List UnsealedBid)
    → All (λ b. AtLeast t r (rate_of b)) bids
    → IsInOrder (Precedes t) bids
    → All (λ b. AtLeast t (rate_of b) (marginal r m bids)) (accepted m bids)
      × All (λ b. AtLeast t (marginal r m bids) (rate_of b)) (refused m bids)
marginal-splits t r m [] h s = (tt, tt)
marginal-splits t r zero (b ∷ bids) h s = (tt, h)
marginal-splits t r (suc m) (b ∷ bids) h s =
    let after = behind t b bids s.0 in
    let (kept, others) = marginal-splits t (rate_of b) (suc m - units_of b) bids after s.1 in
    ((marginal-AtLeast t (rate_of b) (suc m - units_of b) bids after s.1, kept), others)
