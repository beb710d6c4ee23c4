-- ===== src/Database/Table/Laws.antt =====
-- Any table: a statement, and the next one that reads.
use cbdc_tokenization_sandbo.Prelude.{
  Bool, Bool-cases, List, Option-cases, [], arith, case_option, false, inl, inr, none, refl, some,
  true, ◌++◌, ◌∷◌, ◌≡◌, ◌⊎◌,
}
use cbdc_tokenization_sandbo.Database.Table.{find_row, has_row, update_rows, upsert}

module _ {A : Type 0} (p : A → Bool) where
  -- What is found satisfies the test.
  pub find_row-satisfies : (rows : List A) (r : A) → find_row p rows ≡ some r → p r ≡ true
  unfolding find_row
  find_row-satisfies [] r e = grind arith
  find_row-satisfies (x ∷ rows) r e = grind (arith, Bool-cases (p x), find_row-satisfies rows r)

  pub find_row-append :
      (rows : List A) (r : A)
      → p r ≡ true
      → has_row p rows ≡ false
      → find_row p (rows ++ r ∷ []) ≡ some r
  unfolding find_row has_row
  find_row-append [] r e none_there = grind arith
  find_row-append (x ∷ rows) r e none_there = grind (arith, find_row-append rows r)

  pub find_row-update :
      (f : A → A) (rows : List A)
      → ((r : A) → p r ≡ true → p (f r) ≡ true)
      → find_row p (update_rows p f rows) ≡ case_option (find_row p rows) none (λ r. some (f r))
  unfolding find_row update_rows
  find_row-update f [] keeps = refl
  find_row-update f (x ∷ rows) keeps =
      grind (arith, Bool-cases (p x), keeps x, find_row-update f rows keeps)

  find_row-none : (rows : List A) → find_row p rows ≡ none → has_row p rows ≡ false
  unfolding find_row has_row
  find_row-none [] e = refl
  find_row-none (x ∷ rows) e = grind (arith, Bool-cases (p x), find_row-none rows)

  find_row-some : (rows : List A) (r : A) → find_row p rows ≡ some r → has_row p rows ≡ true
  unfolding find_row has_row
  find_row-some [] r e = grind arith
  find_row-some (x ∷ rows) r e = grind (arith, Bool-cases (p x), find_row-some rows r)

  -- After an upsert its row is found: the new one, or the old one updated.
  pub find_row-upsert :
      (f : A → A) (row : A) (rows : List A)
      → p row ≡ true
      → ((r : A) → p r ≡ true → p (f r) ≡ true)
      → (find_row p (upsert p f row rows) ≡ some row)
        ⊎ ((r : A) × (p r ≡ true) × (find_row p (upsert p f row rows) ≡ some (f r)))
  unfolding upsert
  find_row-upsert f row rows e keeps = elim (Option-cases (find_row p rows)) [
    | inl absent_row ↦ inl (
        rw (find_row-none rows absent_row)
          (find_row-append rows row e (find_row-none rows absent_row)))
    | inr (r, found) ↦ inr (
      r,
      find_row-satisfies rows r found,
      rw (find_row-some rows r found, find_row-update f rows keeps, found) refl,
    )
  ]
