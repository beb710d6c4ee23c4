-- ===== src/Database/Records/Laws.antt =====
-- ingestion-db.ts: the statements on bidders, banks and attempts, one after another.
use Prim.Native.Nat.{min}
use cbdc_tokenization_sandbo.Prelude.{
  All, Bool, Bool-cases, List, Text, [], ap, arith, case_option, false, if-holds, inl, inr, length,
  none, ok, refl, some, suc, take, text_eq_refl, to_lower_case, true, zero, ℕ, ◌++◌, ◌+◌, ◌∙◌, ◌∷◌,
  ◌≡◌,
}
use cbdc_tokenization_sandbo.Allocation.Sort.{IsInOrder}
use cbdc_tokenization_sandbo.Database.Records.{
  bidder_address_is, bidder_conflicts, bidder_name_is, count_bidder_rows, delete_bidder_row,
  get_bidder_row_by_address, get_bidder_row_by_name, insert_bidder_row, list_operation_attempt_rows,
  newer, order_by, place,
}
use cbdc_tokenization_sandbo.Database.Table.{delete_rows, find_row, has_row, select_rows}
use cbdc_tokenization_sandbo.Database.{BidderRow, OperationAttemptRow, RecordTables}
use cbdc_tokenization_sandbo.Database.Table.Laws.{find_row-append}

module _ {A : Type 0} (p : A → Bool) where
  find_row-append-any :
      (rows : List A) (r : A)
      → p r ≡ true
      → find_row p (rows ++ r ∷ []) ≡ case_option (find_row p rows) (some r) some
  unfolding find_row
  find_row-append-any [] r e = grind arith
  find_row-append-any (x ∷ rows) r e = grind (arith, Bool-cases (p x), find_row-append-any rows r)

  find_row-delete : (rows : List A) → find_row p (delete_rows p rows) ≡ none
  unfolding find_row delete_rows
  find_row-delete [] = refl
  find_row-delete (x ∷ rows) = grind (arith, Bool-cases (p x), find_row-delete rows)

  length-delete :
      (rows : List A) → length (delete_rows p rows) + length (select_rows p rows) ≡ length rows
  unfolding delete_rows select_rows
  length-delete [] = refl
  length-delete (x ∷ rows) = grind (arith, Bool-cases (p x), length-delete rows)

has_row-weaker :
    {A : Type 0} (p q : A → Bool) (rows : List A)
    → ((a : A) → q a ≡ true → p a ≡ true)
    → has_row p rows ≡ false
    → has_row q rows ≡ false
unfolding has_row
has_row-weaker p q [] h e = refl
has_row-weaker p q (x ∷ rows) h e = grind (arith, Bool-cases (q x), h x, has_row-weaker p q rows h)

length-append-one : {A : Type 0} (rows : List A) (r : A) → length (rows ++ r ∷ []) ≡ length rows + 1
length-append-one [] r = refl
length-append-one (x ∷ rows) r = omega (arith, length-append-one rows r)

-- A bidder that is inserted is found by its name, and by its address unless an older row has that
-- address in another case, which is found instead; there is one bidder more.
pub insert_bidder_row-lookup :
    (row : BidderRow) (db db' : RecordTables)
    → insert_bidder_row row db ≡ ok db'
    → (get_bidder_row_by_name row.name db' ≡ some row)
      × (get_bidder_row_by_address row.address db'
          ≡ case_option (get_bidder_row_by_address row.address db) (some row) some)
      × (count_bidder_rows db' ≡ count_bidder_rows db + 1)
unfolding insert_bidder_row get_bidder_row_by_name get_bidder_row_by_address count_bidder_rows
insert_bidder_row-lookup row db db' e =
    elim (Bool-cases (has_row (bidder_conflicts row) db.bidders)) [
      | inl conflict ↦ absurd (ground (arith, e, conflict))
      | inr free ↦
          let same : ok (record db { bidders = db.bidders ++ row ∷ [] }) ≡ ok db' = rw free at e in
          let db-eq : record db { bidders = db.bidders ++ row ∷ [] } ≡ db' = cc same in
          rw (← db-eq) (
            find_row-append (bidder_name_is row.name) db.bidders row (text_eq_refl row.name) (
                has_row-weaker (bidder_conflicts row) (bidder_name_is row.name) db.bidders
                  (λ a same_name. ground (arith, same_name)) free),
            find_row-append-any (bidder_address_is row.address) db.bidders row
                (text_eq_refl (to_lower_case row.address)),
            length-append-one db.bidders row,
          )
    ]

-- Deleting an address leaves no bidder of that address, in any case, and reports how many rows went.
pub delete_bidder_row-gone :
    (address : Text) (db : RecordTables)
    → (get_bidder_row_by_address address (delete_bidder_row address db).0 ≡ none)
      × (count_bidder_rows (delete_bidder_row address db).0 + (delete_bidder_row address db).1
          ≡ count_bidder_rows db)
unfolding delete_bidder_row get_bidder_row_by_address count_bidder_rows
delete_bidder_row-gone address db = (
  find_row-delete (bidder_address_is address) db.bidders,
  length-delete (bidder_address_is address) db.bidders,
)

module _ {A : Type 0} (before : A → A → Bool)
    (total : (a b : A) → before a b ≡ false → before b a ≡ true)
    (trans : (a b c : A) → before a b ≡ true → before b c ≡ true → before a c ≡ true) where
  abbrev pub Before : A → A → Type 0
  Before a b = before a b ≡ true

  place-All : (P : A → Type 0) (x : A) (ys : List A) → P x → All P ys → All P (place before x ys)
  unfolding place
  place-All P x [] px pys = (px, tt)
  place-All P x (y ∷ ys) px pys =
      if-holds (All P) (before x y) (px, pys) (pys.0, place-All P x ys px pys.1)

  Before-All : (x y : A) (ys : List A) → Before x y → All (Before y) ys → All (Before x) ys
  Before-All x y [] h hs = tt
  Before-All x y (z ∷ zs) h hs = (trans x y z h hs.0, Before-All x y zs h hs.1)

  place-IsInOrder :
      (x : A) (ys : List A) → IsInOrder Before ys → IsInOrder Before (place before x ys)
  unfolding place
  place-IsInOrder x [] s = (tt, tt)
  place-IsInOrder x (y ∷ ys) s = elim (Bool-cases (before x y)) [
    | inl e ↦ rw e ((e, Before-All x y ys e s.0), s)
    | inr e ↦ rw e (place-All (Before y) x ys (total x y e) s.0, place-IsInOrder x ys s.1)
  ]

  pub order_by-IsInOrder : (xs : List A) → IsInOrder Before (order_by before xs)
  unfolding order_by
  order_by-IsInOrder [] = tt
  order_by-IsInOrder (x ∷ xs) = place-IsInOrder x (order_by before xs) (order_by-IsInOrder xs)

  pub order_by-All : (P : A → Type 0) (xs : List A) → All P xs → All P (order_by before xs)
  unfolding order_by
  order_by-All P [] h = tt
  order_by-All P (x ∷ xs) h = place-All P x (order_by before xs) h.0 (order_by-All P xs h.1)

  length-place : (x : A) (ys : List A) → length (place before x ys) ≡ suc (length ys)
  unfolding place
  length-place x [] = refl
  length-place x (y ∷ ys) =
      if-holds (λ (l : List A). length l ≡ suc (suc (length ys))) (before x y) refl
        (ap suc (length-place x ys))

  pub length-order_by : (xs : List A) → length (order_by before xs) ≡ length xs
  unfolding order_by
  length-order_by [] = refl
  length-order_by (x ∷ xs) = length-place x (order_by before xs) ∙ ap suc (length-order_by xs)

  pub take-All : (P : A → Type 0) (n : ℕ) (xs : List A) → All P xs → All P (take n xs)
  take-All P zero xs h = tt
  take-All P (suc n) [] h = tt
  take-All P (suc n) (x ∷ xs) h = (h.0, take-All P n xs h.1)

  pub take-IsInOrder : (n : ℕ) (xs : List A) → IsInOrder Before xs → IsInOrder Before (take n xs)
  take-IsInOrder zero xs s = tt
  take-IsInOrder (suc n) [] s = tt
  take-IsInOrder (suc n) (x ∷ xs) s = (take-All (Before x) n xs s.0, take-IsInOrder n xs s.1)

pub length-take-min : {A : Type 0} (n : ℕ) (xs : List A) → length (take n xs) ≡ min n (length xs)
length-take-min zero xs = omega arith
length-take-min (suc n) [] = omega arith
length-take-min (suc n) (x ∷ xs) = omega (arith, length-take-min n xs)

newer_total : (a b : OperationAttemptRow) → newer a b ≡ false → newer b a ≡ true
newer_total a b e = ground arith

newer_trans : (a b c : OperationAttemptRow) → newer a b ≡ true → newer b c ≡ true → newer a c ≡ true
newer_trans a b c h k = ground arith

-- The listed attempts are the newest first, by time and then by id, and are as many as there are, up
-- to the limit.
pub list_operation_attempt_rows-newest :
    (limit : ℕ) (db : RecordTables)
    → IsInOrder
        (λ (a : OperationAttemptRow) (b : OperationAttemptRow). newer a b ≡ true)
        (list_operation_attempt_rows limit db)
      × (length (list_operation_attempt_rows limit db) ≡ min limit (length db.operation_attempts))
unfolding list_operation_attempt_rows
list_operation_attempt_rows-newest limit db = (
  take-IsInOrder newer newer_total newer_trans limit _
      (order_by-IsInOrder newer newer_total newer_trans db.operation_attempts),
  length-take-min limit (order_by newer db.operation_attempts)
      ∙ ap (min limit) (length-order_by newer newer_total newer_trans db.operation_attempts),
)
