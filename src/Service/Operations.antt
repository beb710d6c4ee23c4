-- ===== src/Service/Operations.antt =====
-- operations.ts: the audit trail of the operators' operations. An error is what the module reads of
-- it; the decoder of reverts is a parameter, and so is whether a write to the trail succeeds.
pub mod Laws
use cbdc_tokenization_sandbo.Prelude.{
  Bool, List, Option, Text, [], case_option, codes, failure, get_or, if◌then◌else◌, none, some,
  take, ℕ, ◌++◌, ◌∷◌,
}
use cbdc_tokenization_sandbo.Database.{OperationAttemptRow, RecordTables}
use cbdc_tokenization_sandbo.Database.Records.{
  insert_operation_attempt_row, list_operation_attempt_rows,
}
use cbdc_tokenization_sandbo.Service.LiveEvents.{LiveResourceKey, operations_key}
use cbdc_tokenization_sandbo.Allocation.{is_nil}

pub data OperationStatus : Type 0 where
  succeeded reverted failed partial : OperationStatus

abbrev pub status_text : OperationStatus → Text
status_text succeeded = codes "SUCCEEDED"
status_text reverted = codes "REVERTED"
status_text failed = codes "FAILED"
status_text partial = codes "PARTIAL"

-- `err.code === 'CALL_EXCEPTION'`, the message or the text of the error, the hash in its receipt.
pub record Thrown : Type 0 where
  pub is_call_exception : Bool
  pub message : Text
  pub mined_hash : Option Text

pub data Outcome (B : Type 0) : Type 0 where
  returned : B → Outcome B
  thrown : Thrown → Outcome B

pub record RecordedOperation : Type 0 where
  pub op_type : Text
  pub target : Text
  pub status : OperationStatus
  pub tx_hash : Option Text
  pub error : Option Text
  pub detail : Option Text

-- MAX_ERROR_LENGTH
unfoldable pub record_operation_attempt : ℕ → RecordedOperation → RecordTables → RecordTables
record_operation_attempt now op db =
    insert_operation_attempt_row op.op_type op.target (status_text op.status) op.tx_hash
      (case_option op.error none (λ text. some (take 500 text))) op.detail now db

-- The limit is 200 unless another is given.
unfoldable pub list_operation_attempts : Option ℕ → RecordTables → List OperationAttemptRow
list_operation_attempts limit db = list_operation_attempt_rows (get_or limit 200) db

pub record Failure : Type 0 where
  pub status : OperationStatus
  pub error : Text
  pub tx_hash : Option Text

-- The tables, and the changes that were published, each a list of resources.
pub record Trail : Type 0 where
  pub tables : RecordTables
  pub published : List (List LiveResourceKey)

pub record RecordingOptions (B : Type 0) : Type 0 where
  pub op_type : Text
  pub target : Text
  pub detail : Option Text
  -- are there contract interfaces to decode with?
  pub has_interfaces : Bool
  pub tx_hash_of : Option (B → Outcome (Option Text))
  pub changed_resources : Option (List LiveResourceKey)

abbrev pub publish : Option (List LiveResourceKey) → Trail → Trail
publish resources trail =
    case_option resources trail (λ keys. record trail { published = trail.published ++ keys ∷ [] })

abbrev pub operation_of :
    {B : Type 0}
    → RecordingOptions B
    → OperationStatus
    → Option Text
    → Option Text
    → RecordedOperation
operation_of opts status tx_hash error = record {
  op_type = opts.op_type;
  target = opts.target;
  status = status;
  tx_hash = tx_hash;
  error = error;
  detail = opts.detail;
}

abbrev pub hash_of_result : {B : Type 0} → RecordingOptions B → B → Outcome (Option Text)
hash_of_result opts value = case_option opts.tx_hash_of (returned none) (λ hash_of. hash_of value)

-- `if (decoded)`: an empty text is none.
abbrev pub non_empty : Option Text → Option Text
non_empty none = none
non_empty (some text) = if is_nil text then none else some text

unfoldable pub classify_failure : (Thrown → Option Text) → Bool → Thrown → Failure
classify_failure describe_revert has_interfaces error =
    let decoded = non_empty (if has_interfaces then describe_revert error else none) in
    case_option decoded
      (if error.is_call_exception
        then record { status = reverted; error = error.message; tx_hash = error.mined_hash }
        else record { status = failed; error = error.message; tx_hash = none })
      (λ text. record { status = reverted; error = text; tx_hash = error.mined_hash })

-- A write that fails is passed over, and then nothing is published.
unfoldable pub safe_record : (RecordTables → Bool) → ℕ → RecordedOperation → Trail → Trail
unfolding record_operation_attempt
safe_record writes now op trail =
    if writes trail.tables
    then record {
      tables = record_operation_attempt now op trail.tables;
      published = trail.published ++ (operations_key ∷ []) ∷ [];
    }
    else trail

module _ (describe_revert : Thrown → Option Text) (writes : RecordTables → Bool) (now : ℕ)
    {B : Type 0} (opts : RecordingOptions B) where
  -- The `catch`: the error is recorded and thrown again.
  unfoldable pub record_and_rethrow : Thrown → Trail → Outcome B × Trail
  unfolding classify_failure safe_record
  record_and_rethrow error trail =
      let failure = classify_failure describe_revert opts.has_interfaces error in
      (
        thrown error,
        safe_record writes now
            (operation_of opts failure.status failure.tx_hash (some failure.error)) trail,
      )

  unfoldable pub record_success : B → Outcome (Option Text) → Trail → Outcome B × Trail
  unfolding record_and_rethrow
  record_success value (returned tx_hash) trail = (
    returned value,
    publish opts.changed_resources
        (safe_record writes now (operation_of opts succeeded tx_hash none) trail),
  )
  record_success value (thrown error) trail = record_and_rethrow error trail

  -- What `fn` does is its outcome.
  unfoldable pub with_operation_recording : Outcome B → Trail → Outcome B × Trail
  unfolding record_success
  with_operation_recording (returned value) trail =
      record_success value (hash_of_result opts value) trail
  with_operation_recording (thrown error) trail = record_and_rethrow error trail
