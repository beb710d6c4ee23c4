-- ===== src/Ingestion/Writes/Balances.antt =====
-- ingestion.ts, `applyBalanceDelta`: the tables `balances` and `balance_events` together.
use cbdc_tokenization_sandbo.Prelude.{
  +ℤ_assoc, +ℤ_zero, ==_iff, Bool, Bool-cases, List, Text, [], arith, false, if◌then◌else◌,
  int_laws, pos, refl, text_eq, text_eq_iff, text_eq_refl, to_lower_case, true, ℤ, ◌&&◌, ◌++◌, ◌+ℤ◌,
  ◌||◌, ◌∷◌, ◌≡◌,
}
use cbdc_tokenization_sandbo.Database.{BalanceEventRow, BalanceRow, ProjectionTables}
use cbdc_tokenization_sandbo.Ingestion.Writes.{
  Source, apply_balance_delta, balance_event, balance_of, is_balance, is_balance_event,
}
use cbdc_tokenization_sandbo.Database.Table.{
  find_row, has_row, insert_or_ignore, update_rows, upsert,
}
use cbdc_tokenization_sandbo.Projection.Balance.{TransferKind, zero_address}

-- The sum of the changes of one holder's units of one ISIN.
abbrev pub is_change_of : Text → Text → BalanceEventRow → Bool
is_change_of isin holder row = text_eq row.isin isin && text_eq row.holder holder

abbrev pub recorded : Text → Text → List BalanceEventRow → ℤ
recorded isin holder [] = pos 0
recorded isin holder (e ∷ es) =
    (if is_change_of isin holder e then e.delta else pos 0) +ℤ recorded isin holder es

-- `balances` agrees with `balance_events` everywhere.
abbrev pub IsReconciled : ProjectionTables → Type 0
IsReconciled db =
    (isin holder : Text)
    → balance_of isin holder db.balances ≡ recorded isin holder db.balance_events

recorded-append :
    (isin holder : Text) (es : List BalanceEventRow) (e : BalanceEventRow)
    → recorded isin holder (es ++ e ∷ [])
      ≡ recorded isin holder es +ℤ (if is_change_of isin holder e then e.delta else pos 0)
recorded-append isin holder [] e = omega int_laws
recorded-append isin holder (x ∷ es) e = grind (arith, recorded-append isin holder es e, +ℤ_assoc)

module _ (isin holder : Text) (next : ℤ) where
  abbrev set_balance : BalanceRow → BalanceRow
  set_balance row = record row { balance = next }

  abbrev new_balance : BalanceRow
  new_balance = record { isin = isin; holder = holder; balance = next }

  same_balance-other :
      (i h : Text) (row : BalanceRow)
      → is_balance isin holder row ≡ true
      → is_balance i h row ≡ (text_eq isin i && text_eq holder h)
  same_balance-other i h row e = grind (
    arith,
    text_eq_iff row.isin isin,
    text_eq_iff row.holder holder,
    text_eq_iff row.isin i,
    text_eq_iff row.holder h,
    text_eq_iff isin i,
    text_eq_iff holder h,
  )

  -- A row of the named balance is not a row of another.
  same_row :
      (i h : Text) (row : BalanceRow)
      → is_balance isin holder row ≡ false
      → (text_eq isin i && text_eq holder h) ≡ true
      → is_balance i h row ≡ false
  same_row i h row e e' = grind (arith, text_eq_iff isin i, text_eq_iff holder h)

  balance_of-cons :
      (i h : Text) (row : BalanceRow) (rows : List BalanceRow)
      → balance_of i h (row ∷ rows)
        ≡ (if is_balance i h row then row.balance else balance_of i h rows)
  unfolding balance_of find_row
  balance_of-cons i h row rows = ground arith

  -- An update changes the balance that it names, if the row is there, and no other.
  balance_of-update :
      (i h : Text) (rows : List BalanceRow)
      → balance_of i h (update_rows (is_balance isin holder) set_balance rows) ≡ (
          if text_eq isin i && (text_eq holder h && has_row (is_balance isin holder) rows)
          then next
          else balance_of i h rows)
  unfolding has_row update_rows
  balance_of-update i h [] = grind arith
  balance_of-update i h (row ∷ rows) = grind (
    arith,
    balance_of-cons i h row rows,
    same_balance-other i h row,
    balance_of-update i h rows,
    same_row i h row,
    balance_of-cons i h (set_balance row) (update_rows (is_balance isin holder) set_balance rows),
    balance_of-cons i h row (update_rows (is_balance isin holder) set_balance rows),
  )

  balance_of-append :
      (i h : Text) (rows : List BalanceRow)
      → has_row (is_balance isin holder) rows ≡ false
      → balance_of i h (rows ++ new_balance ∷ [])
        ≡ (if text_eq isin i && text_eq holder h then next else balance_of i h rows)
  unfolding has_row
  balance_of-append i h [] e = grind (arith, balance_of-cons i h new_balance [])
  balance_of-append i h (row ∷ rows) e = grind (
    arith,
    balance_of-cons i h row rows,
    same_row i h row,
    balance_of-append i h rows,
    balance_of-cons i h row (rows ++ new_balance ∷ []),
  )

  balance_of-upsert :
      (i h : Text) (rows : List BalanceRow)
      → balance_of i h (upsert (is_balance isin holder) set_balance new_balance rows)
        ≡ (if text_eq isin i && text_eq holder h then next else balance_of i h rows)
  unfolding upsert
  balance_of-upsert i h rows = grind (
    arith,
    Bool-cases (has_row (is_balance isin holder) rows),
    balance_of-append i h rows,
    balance_of-update i h rows,
  )

-- Is the change of this holder by this log recorded?
abbrev pub is_recorded : Source → Text → ProjectionTables → Bool
is_recorded source holder db =
    has_row (is_balance_event source.tx_hash source.log_index holder) db.balance_events

has_row-append-true :
    {A : Type 0} (p : A → Bool) (rows more : List A)
    → has_row p rows ≡ true
    → has_row p (rows ++ more) ≡ true
unfolding has_row
has_row-append-true p [] more e = grind arith
has_row-append-true p (r ∷ rows) more e = grind (arith, has_row-append-true p rows more)

has_row-append-last :
    {A : Type 0} (p : A → Bool) (rows : List A) (r : A)
    → p r ≡ true
    → has_row p (rows ++ r ∷ []) ≡ true
unfolding has_row
has_row-append-last p [] r e = grind arith
has_row-append-last p (x ∷ rows) r e = grind (arith, has_row-append-last p rows r e)

module _ (isin holder : Text) (delta : ℤ) (source : Source) (kind : TransferKind)
    (db : ProjectionTables) where
  -- What a change does: nothing if its holder is the zero address or it is recorded, else both tables.
  abbrev next_balance : ℤ
  next_balance = balance_of isin holder db.balances +ℤ delta

  abbrev written : ProjectionTables
  written = record db {
    balance_events =
        db.balance_events ++ balance_event isin holder delta next_balance source kind ∷ [];
    balances =
        upsert (is_balance isin holder) (set_balance isin holder next_balance)
          (new_balance isin holder next_balance) db.balances;
  }

  pub apply_balance_delta-cases : apply_balance_delta isin holder delta source kind db ≡ (
      if text_eq (to_lower_case holder) zero_address || is_recorded source holder db
      then (db, false)
      else (written, true))
  unfolding apply_balance_delta insert_or_ignore
  apply_balance_delta-cases = grind (
    arith,
    Bool-cases (is_recorded source holder db),
    Bool-cases (text_eq (to_lower_case holder) zero_address),
  )

  written-IsReconciled : IsReconciled db → IsReconciled written
  written-IsReconciled agree i h = grind (
    arith,
    agree i h,
    agree isin holder,
    text_eq_iff isin i,
    text_eq_iff holder h,
    balance_of-upsert isin holder next_balance i h db.balances,
    +ℤ_zero,
    recorded-append i h db.balance_events
        (balance_event isin holder delta next_balance source kind),
  )

  -- The outcome of a call: nothing done, or the change written.
  abbrev outcome : Bool → ProjectionTables × Bool
  outcome skip = if skip then (db, false) else (written, true)

  outcome-IsReconciled : (skip : Bool) → IsReconciled db → IsReconciled (outcome skip).0
  outcome-IsReconciled true agree = agree
  outcome-IsReconciled false agree = written-IsReconciled agree

  -- Applying a change, new or recorded, keeps the balances equal to the sums of the changes.
  pub apply_balance_delta-IsReconciled :
      IsReconciled db → IsReconciled (apply_balance_delta isin holder delta source kind db).0
  apply_balance_delta-IsReconciled agree =
      rw apply_balance_delta-cases (outcome-IsReconciled _ agree)

  -- What settles a change: its holder is the zero address, or it is recorded.
  abbrev pub IsSettled : ProjectionTables → Type 0
  IsSettled tables =
      (text_eq (to_lower_case holder) zero_address || is_recorded source holder tables) ≡ true

  pub apply_balance_delta-settled :
      IsSettled db → apply_balance_delta isin holder delta source kind db ≡ (db, false)
  apply_balance_delta-settled settled = rw (apply_balance_delta-cases, settled) refl

  written_settles : IsSettled written
  written_settles = grind (
    arith,
    text_eq_refl source.tx_hash,
    ==_iff source.log_index source.log_index,
    text_eq_refl holder,
    has_row-append-last (is_balance_event source.tx_hash source.log_index holder) db.balance_events
        (balance_event isin holder delta next_balance source kind),
  )

  outcome_settles :
      (skip : Bool)
      → (text_eq (to_lower_case holder) zero_address || is_recorded source holder db) ≡ skip
      → IsSettled (outcome skip).0
  outcome_settles true e = e
  outcome_settles false e = written_settles

  pub apply_balance_delta_settles :
      IsSettled (apply_balance_delta isin holder delta source kind db).0
  apply_balance_delta_settles = rw apply_balance_delta-cases (outcome_settles _ refl)

  outcome_keeps :
      (skip : Bool) (log : Source) (h : Text)
      → is_recorded log h db ≡ true
      → is_recorded log h (outcome skip).0 ≡ true
  outcome_keeps true log h e = e
  outcome_keeps false log h e = has_row-append-true _ _ _ e

  -- A record of a change is never lost.
  pub apply_balance_delta_keeps :
      (log : Source) (h : Text)
      → is_recorded log h db ≡ true
      → is_recorded log h (apply_balance_delta isin holder delta source kind db).0 ≡ true
  apply_balance_delta_keeps log h e = rw apply_balance_delta-cases (outcome_keeps _ log h e)

  outcome-partitions : (skip : Bool) → (outcome skip).0.partitions ≡ db.partitions
  outcome-partitions true = refl
  outcome-partitions false = refl

  pub apply_balance_delta-partitions :
      (apply_balance_delta isin holder delta source kind db).0.partitions ≡ db.partitions
  apply_balance_delta-partitions = rw apply_balance_delta-cases (outcome-partitions _)
