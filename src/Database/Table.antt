-- ===== src/Database/Table.antt =====
-- SQLite tables as lists of rows in insertion order, and the statements that the service runs on
-- them. A primary key or a unique index is a test: does this row have the key of that one?
pub mod Laws
use cbdc_tokenization_sandbo.Prelude.{
  Bool, List, Option, [], false, if◌then◌else◌, none, some, true, ◌++◌, ◌||◌, ◌∷◌,
}

module _ {A : Type 0} where
  -- Is there a row that satisfies the `WHERE` clause?
  unfoldable pub has_row : (A → Bool) → List A → Bool
  has_row p [] = false
  has_row p (r ∷ rows) = p r || has_row p rows

  -- `SELECT … WHERE p`, the first row.
  unfoldable pub find_row : (A → Bool) → List A → Option A
  find_row p [] = none
  find_row p (r ∷ rows) = if p r then some r else find_row p rows

  -- `SELECT … WHERE p`, all rows.
  unfoldable pub select_rows : (A → Bool) → List A → List A
  select_rows p [] = []
  select_rows p (r ∷ rows) = if p r then r ∷ select_rows p rows else select_rows p rows

  -- `UPDATE … WHERE p`
  unfoldable pub update_rows : (A → Bool) → (A → A) → List A → List A
  update_rows p f [] = []
  update_rows p f (r ∷ rows) = (if p r then f r else r) ∷ update_rows p f rows

  -- `DELETE … WHERE p`
  unfoldable pub delete_rows : (A → Bool) → List A → List A
  delete_rows p [] = []
  delete_rows p (r ∷ rows) = if p r then delete_rows p rows else r ∷ delete_rows p rows

  -- `INSERT OR IGNORE`, where `p` finds the rows with the key of the new one: the table, and whether
  -- a row was written.
  unfoldable pub insert_or_ignore : (A → Bool) → A → List A → List A × Bool
  unfolding has_row
  insert_or_ignore p row rows = if has_row p rows then (rows, false) else (rows ++ row ∷ [], true)

  -- `INSERT … ON CONFLICT(key) DO UPDATE SET …`
  unfoldable pub upsert : (A → Bool) → (A → A) → A → List A → List A
  unfolding has_row update_rows
  upsert p f row rows = if has_row p rows then update_rows p f rows else rows ++ row ∷ []
