-- ===== src/Allocation/Sort.antt =====
-- allocation.ts, `sortBidsByAuctionType`: `sort` over a comparator that decides a total order.
use mathlib.Core.List.Perm
use mathlib.Core.List.{Perm}
use cbdc_tokenization_sandbo.Prelude.{
  All, Bool-cases, List, Result, [], arith, inl, inr, leb_ℤ, leb→le, ok, pos, refl, ℕ, ℤ, ◌+◌, ◌↔◌,
  ◌∷◌, ◌≡◌, ◌≤ℤ◌,
}
use cbdc_tokenization_sandbo.Allocation.{
  AuctionType, UnsealedBid, compare_bids, insert_sorted, sort, sort_bids_by_auction_type,
}
use cbdc_tokenization_sandbo.Allocation.Order.{
  IsWellFormed, Precedes, Precedes-total, Precedes-trans, compare_bids-sign,
}

-- Each element precedes all that follow it.
abbrev pub IsInOrder : {A : Type 0} → (A → A → Type 0) → List A → Type 0
IsInOrder R [] = Unit
IsInOrder R (x ∷ xs) = All (R x) xs × IsInOrder R xs

-- Whatever holds of all elements of the first list holds of all of the second.
abbrev pub Within : {A : Type 0} → List A → List A → Type 1
Within {A} xs ys = (P : A → Type 0) → All P xs → All P ys

pub All-imp :
    {A : Type 0} (P Q : A → Type 0) → ((a : A) → P a → Q a) → (xs : List A) → All P xs → All Q xs
All-imp P Q f [] h = tt
All-imp P Q f (x ∷ xs) h = (f x h.0, All-imp P Q f xs h.1)

-- The sum of a quantity over a list.
abbrev pub total_of : {A : Type 0} → (A → ℕ) → List A → ℕ
total_of f [] = 0
total_of f (x ∷ xs) = f x + total_of f xs

-- What a sort owes: order, the same elements, the same sums.
pub record Sorts {A : Type 0} (R : A → A → Type 0) (xs ys : List A) : Type 1 where
  pub in_order : IsInOrder R ys
  pub perm : Perm ys xs
  pub within : Within xs ys
  pub covers : Within ys xs
  pub sums : (f : A → ℕ) → total_of f ys ≡ total_of f xs

module _ {A : Type 0} (compare_fn : A → A → Result ℤ) (R : A → A → Type 0) (W : A → Type 0)
    (decides : (a b : A) → W a → W b → (c : ℤ) × (compare_fn a b ≡ ok c) × ((c ≤ℤ pos 0) ↔ R a b))
    (total : (a b : A) → ¬ R a b → R b a) (trans : (a b c : A) → R a b → R b c → R a c) where
  insert_sorted-Sorts :
      (x : A) (ys : List A)
      → W x
      → All W ys
      → IsInOrder R ys
      → (r : List A) × (insert_sorted compare_fn x ys ≡ ok r) × Sorts R (x ∷ ys) r
  unfolding insert_sorted
  insert_sorted-Sorts x [] wx wys s = (
    x ∷ [],
    refl,
    record {
      in_order = (tt, tt);
      perm = Perm.refl (x ∷ []);
      within = λ P h. h;
      covers = λ P h. h;
      sums = λ f. refl;
    },
  )
  insert_sorted-Sorts x (y ∷ ys) wx wys s =
      let (c, e, iff) = decides x y wx wys.0 in
      elim (Bool-cases (leb_ℤ c (pos 0))) [
        | inl first ↦
            let before : R x y = iff.0 (leb→le _ _ first) in
            (
              x ∷ y ∷ ys,
              rw (e, first) refl,
              record {
                in_order = ((before, All-imp (R y) (R x) (λ z. trans x y z before) ys s.0), s);
                perm = Perm.refl (x ∷ y ∷ ys);
                within = λ P h. h;
                covers = λ P h. h;
                sums = λ f. refl;
              },
            )
        | inr later ↦
            let (r, er, sr) = insert_sorted-Sorts x ys wx wys.1 s.1 in
            let after : R y x = total x y (λ before. absurd (ground (arith, iff.1 before))) in
            (
              y ∷ r,
              rw (e, later, er) refl,
              record {
                in_order = (sr.within (R y) (after, s.0), sr.in_order);
                perm = Perm.trans (Perm.cons y sr.perm) (Perm.swap x y ys);
                within = λ P h. (h.1.0, sr.within P (h.0, h.1.1));
                covers = λ P h. let k = sr.covers P h.1 in (k.0, (h.0, k.1));
                sums = λ f. omega (arith, sr.sums f);
              },
            )
      ]

  pub sort-Sorts :
      (xs : List A) → All W xs → (r : List A) × (sort compare_fn xs ≡ ok r) × Sorts R xs r
  unfolding sort
  sort-Sorts [] w = (
    [],
    refl,
    record {
      in_order = tt;
      perm = Perm.refl [];
      within = λ P h. h;
      covers = λ P h. h;
      sums = λ f. refl;
    },
  )
  sort-Sorts (x ∷ xs) w =
      let (s, es, hs) = sort-Sorts xs w.1 in
      let (r, er, hr) = insert_sorted-Sorts x s w.0 (hs.within W w.1) hs.in_order in
      (
        r,
        rw (es, er) refl,
        record {
          in_order = hr.in_order;
          perm = Perm.trans hr.perm (Perm.cons x hs.perm);
          within = λ P h. hr.within P (h.0, hs.within P h.1);
          covers = λ P h. let k = hr.covers P h in (k.0, hs.covers P k.1);
          sums = λ f. omega (arith, hr.sums f, hs.sums f);
        },
      )

-- `sortBidsByAuctionType` on well-formed bids returns all of them, in merit order.
pub sort_bids_by_auction_type-Sorts :
    (t : AuctionType) (bids : List UnsealedBid)
    → All IsWellFormed bids
    → (sorted : List UnsealedBid) × (sort_bids_by_auction_type bids t ≡ ok sorted)
      × Sorts (Precedes t) bids sorted
unfolding sort_bids_by_auction_type
sort_bids_by_auction_type-Sorts t bids w =
    sort-Sorts (compare_bids t) (Precedes t) IsWellFormed (compare_bids-sign t) (Precedes-total t)
      (Precedes-trans t) bids w
