-- ===== src/Database/Records.antt =====
-- ingestion-db.ts: the statements on the tables that hold what the chain does not: the bidders, the
-- banks and the attempts of operations. The order of texts is SQLite's: a parameter.
pub mod Laws
pub mod Order
use cbdc_tokenization_sandbo.Prelude.{
  Bool, List, Option, Result, Text, [], err, if◌then◌else◌, leb, length, ltb, ok, take, text_eq,
  to_lower_case, unique_violation, ℕ, ◌&&◌, ◌++◌, ◌+◌, ◌==◌, ◌||◌, ◌∷◌,
}
use cbdc_tokenization_sandbo.Database.Table.{delete_rows, find_row, has_row, select_rows}
use cbdc_tokenization_sandbo.Database.{BankRow, BidderRow, OperationAttemptRow, RecordTables}

abbrev pub bidder_address_is : Text → BidderRow → Bool
bidder_address_is address row = text_eq (to_lower_case row.address) (to_lower_case address)

abbrev pub bidder_name_is : Text → BidderRow → Bool
bidder_name_is name row = text_eq row.name name

-- The primary key and the unique column.
abbrev pub bidder_conflicts : BidderRow → BidderRow → Bool
bidder_conflicts new row = text_eq row.address new.address || text_eq row.name new.name

unfoldable pub get_bidder_row_by_address : Text → RecordTables → Option BidderRow
get_bidder_row_by_address address db = find_row (bidder_address_is address) db.bidders

unfoldable pub get_bidder_row_by_name : Text → RecordTables → Option BidderRow
get_bidder_row_by_name name db = find_row (bidder_name_is name) db.bidders

unfoldable pub insert_bidder_row : BidderRow → RecordTables → Result RecordTables
insert_bidder_row row db =
    if has_row (bidder_conflicts row) db.bidders
    then err unique_violation
    else ok (record db { bidders = db.bidders ++ row ∷ [] })

-- The tables, and how many rows were deleted.
unfoldable pub delete_bidder_row : Text → RecordTables → RecordTables × ℕ
delete_bidder_row address db = (
  record db { bidders = delete_rows (bidder_address_is address) db.bidders },
  length (select_rows (bidder_address_is address) db.bidders),
)

unfoldable pub count_bidder_rows : RecordTables → ℕ
count_bidder_rows db = length db.bidders

abbrev pub bank_address_is : Text → BankRow → Bool
bank_address_is address row = text_eq (to_lower_case row.address) (to_lower_case address)

-- Banks are found by name whatever the case, unlike bidders.
abbrev pub bank_name_is : Text → BankRow → Bool
bank_name_is name row = text_eq (to_lower_case row.name) (to_lower_case name)

abbrev pub bank_conflicts : BankRow → BankRow → Bool
bank_conflicts new row =
    (text_eq row.address new.address || text_eq row.name new.name)
    || (text_eq row.contract_name new.contract_name || text_eq row.tbd_address new.tbd_address)

unfoldable pub get_bank_row_by_address : Text → RecordTables → Option BankRow
get_bank_row_by_address address db = find_row (bank_address_is address) db.banks

unfoldable pub get_bank_row_by_name : Text → RecordTables → Option BankRow
get_bank_row_by_name name db = find_row (bank_name_is name) db.banks

unfoldable pub insert_bank_row : BankRow → RecordTables → Result RecordTables
insert_bank_row row db =
    if has_row (bank_conflicts row) db.banks
    then err unique_violation
    else ok (record db { banks = db.banks ++ row ∷ [] })

-- `ORDER BY`: stable, where `before a b` says that `a` may stand before `b`.
module _ {A : Type 0} (before : A → A → Bool) where
  unfoldable pub place : A → List A → List A
  place x [] = x ∷ []
  place x (y ∷ ys) = let rest = place x ys in if before x y then x ∷ y ∷ ys else y ∷ rest

  unfoldable pub order_by : List A → List A
  unfolding place
  order_by [] = []
  order_by (x ∷ xs) = place x (order_by xs)

-- Attempts get ids in the order of insertion; the largest is the number of attempts so far, since
-- none is deleted.
unfoldable pub insert_operation_attempt_row :
    Text → Text → Text → Option Text → Option Text → Option Text → ℕ → RecordTables → RecordTables
insert_operation_attempt_row op_type target status tx_hash error detail now db = record db {
  operation_attempts =
      db.operation_attempts
      ++ record {
        id = length db.operation_attempts + 1;
        op_type = op_type;
        target = target;
        status = status;
        tx_hash = tx_hash;
        error = error;
        detail = detail;
        created_at = now;
      }
        ∷ [];
}

-- The newest first.
abbrev pub newer : OperationAttemptRow → OperationAttemptRow → Bool
newer a b = ltb b.created_at a.created_at || (a.created_at == b.created_at && leb b.id a.id)

unfoldable pub list_operation_attempt_rows : ℕ → RecordTables → List OperationAttemptRow
list_operation_attempt_rows limit db = take limit (order_by newer db.operation_attempts)

module _ (text_leb : Text → Text → Bool) where
  unfoldable pub list_bidder_rows : RecordTables → List BidderRow
  list_bidder_rows db =
      order_by
        (λ (a : BidderRow) (b : BidderRow).
          ltb a.created_at b.created_at
          || (a.created_at == b.created_at && text_leb a.address b.address))
        db.bidders

  unfoldable pub list_bank_rows : RecordTables → List BankRow
  list_bank_rows db =
      order_by
        (λ (a : BankRow) (b : BankRow).
          ltb a.created_at b.created_at
          || (a.created_at == b.created_at && text_leb a.address b.address))
        db.banks
