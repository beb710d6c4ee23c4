-- ===== src/Database/Records/Order.antt =====
-- ingestion-db.ts, `ORDER BY`: the rows that it gives are the rows that it was given.
use mathlib.Core.List.Perm
use mathlib.Core.List.{Perm}
use cbdc_tokenization_sandbo.Prelude.{
  Bool, List, [], false, if-holds, if◌then◌else◌, map, true, ◌∷◌,
}
use cbdc_tokenization_sandbo.Database.Records.{order_by, place}
use cbdc_tokenization_sandbo.Database.Table.{select_rows}

-- What is read of a list, if it does not depend on the order, does not depend on `order_by`.
module _ {A B : Type 0} (before : A → A → Bool) (read : List A → List B)
    (read_cons : (x : A) (xs ys : List A)
      → Perm (read xs) (read ys)
      → Perm (read (x ∷ xs)) (read (x ∷ ys)))
    (read_swap : (x y : A) (xs : List A) → Perm (read (x ∷ y ∷ xs)) (read (y ∷ x ∷ xs))) where
  read_place : (x : A) (ys : List A) → Perm (read (place before x ys)) (read (x ∷ ys))
  unfolding place
  read_place x [] = Perm.refl (read (x ∷ []))
  read_place x (y ∷ ys) =
      if-holds (λ (l : List A). Perm (read l) (read (x ∷ y ∷ ys))) (before x y)
        (Perm.refl (read (x ∷ y ∷ ys)))
        (Perm.trans (read_cons y (place before x ys) (x ∷ ys) (read_place x ys)) (read_swap y x ys))

  pub read_order_by : (xs : List A) → Perm (read (order_by before xs)) (read xs)
  unfolding order_by
  read_order_by [] = Perm.refl (read [])
  read_order_by (x ∷ xs) =
      Perm.trans (read_place x (order_by before xs))
        (read_cons x (order_by before xs) xs (read_order_by xs))

pub map-order_by-Perm :
    {A B : Type 0} (before : A → A → Bool) (f : A → B) (xs : List A)
    → Perm (map f (order_by before xs)) (map f xs)
map-order_by-Perm before f xs =
    read_order_by before (map f) (λ x xs' ys. Perm.cons (f x))
      (λ x y ys. Perm.swap (f y) (f x) (map f ys)) xs

pub order_by-Perm :
    {A : Type 0} (before : A → A → Bool) (xs : List A) → Perm (order_by before xs) xs
order_by-Perm before xs =
    read_order_by before (λ ys. ys) (λ x xs' ys. Perm.cons x) (λ x y ys. Perm.swap y x ys) xs

keep-cons :
    {B : Type 0} (b : Bool) (y : B) (xs ys : List B)
    → Perm xs ys
    → Perm (if b then y ∷ xs else xs) (if b then y ∷ ys else ys)
keep-cons true y xs ys same = Perm.cons y same
keep-cons false y xs ys same = same

keep-swap :
    {B : Type 0} (b c : Bool) (y z : B) (xs : List B)
    → Perm
        (if b then y ∷ (if c then z ∷ xs else xs) else (if c then z ∷ xs else xs))
        (if c then z ∷ (if b then y ∷ xs else xs) else (if b then y ∷ xs else xs))
keep-swap true true y z xs = Perm.swap z y xs
keep-swap true false y z xs = Perm.refl (y ∷ xs)
keep-swap false true y z xs = Perm.refl (z ∷ xs)
keep-swap false false y z xs = Perm.refl xs

-- The rows that pass a test, each in another form.
pub select-map-order_by-Perm :
    {A B : Type 0} (before : A → A → Bool) (p : B → Bool) (f : A → B) (xs : List A)
    → Perm (select_rows p (map f (order_by before xs))) (select_rows p (map f xs))
unfolding select_rows
select-map-order_by-Perm before p f xs =
    read_order_by before (λ ys. select_rows p (map f ys))
      (λ x xs' ys. keep-cons (p (f x)) (f x) (select_rows p (map f xs')) (select_rows p (map f ys)))
      (λ x y ys. keep-swap (p (f x)) (p (f y)) (f x) (f y) (select_rows p (map f ys))) xs
