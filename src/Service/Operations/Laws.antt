-- ===== src/Service/Operations/Laws.antt =====
-- operations.ts: what recording changes, and what it does not.
use cbdc_tokenization_sandbo.Prelude.{
  Bool, Bool-cases, List, Option, Text, [], arith, case_option-holds, false, if-holds,
  if◌then◌else◌, inl, inr, length, length-take-le, none, refl, some, ℕ, ◌++◌, ◌∷◌, ◌≡◌, ◌≢◌, ◌≤◌,
  ◌⊎◌,
}
use cbdc_tokenization_sandbo.Database.{OperationAttemptRow, RecordTables}
use cbdc_tokenization_sandbo.Database.Records.{insert_operation_attempt_row}
use cbdc_tokenization_sandbo.Service.Operations.{
  Failure, Outcome, RecordingOptions, Thrown, Trail, classify_failure, hash_of_result, non_empty,
  operation_of, publish, record_and_rethrow, record_operation_attempt, record_success, returned,
  safe_record, status_text, succeeded, thrown, with_operation_recording,
}
use cbdc_tokenization_sandbo.Service.LiveEvents.{LiveResourceKey}

-- A row says what became of the operation, in at most 500 units of text where it failed.
abbrev pub Tells : {B : Type 0} → RecordingOptions B → Outcome B → OperationAttemptRow → Type 0
Tells opts (returned value) row =
    (row.op_type ≡ opts.op_type)
    × (row.target ≡ opts.target)
    × (row.status ≡ status_text succeeded)
    × (row.error ≡ none)
Tells opts (thrown error) row =
    (row.op_type ≡ opts.op_type)
    × (row.target ≡ opts.target)
    × (row.status ≢ status_text succeeded)
    × ((text : Text) × (row.error ≡ some text) × (length text ≤ 500))

-- The attempts are as before if the trail cannot be written; else there is one more, of this outcome.
abbrev pub GrowsByOne :
    {B : Type 0} → RecordingOptions B → Outcome B → Bool → RecordTables → RecordTables → Type 0
GrowsByOne opts outcome can_write old new =
    ((can_write ≡ false) × (new ≡ old))
    ⊎ ((row : OperationAttemptRow) × (new.operation_attempts ≡ old.operation_attempts ++ row ∷ [])
        × Tells opts outcome row)

module _ (describe_revert : Thrown → Option Text) (writes : RecordTables → Bool) (now : ℕ)
    {B : Type 0} (opts : RecordingOptions B) where
  classify_failure-status :
      (error : Thrown)
      → status_text (classify_failure describe_revert opts.has_interfaces error).status
        ≢ status_text succeeded
  unfolding classify_failure
  classify_failure-status error =
      case_option-holds (λ (f : Failure). status_text f.status ≢ status_text succeeded)
        (non_empty (if opts.has_interfaces then describe_revert error else none))
        (if-holds (λ (f : Failure). status_text f.status ≢ status_text succeeded)
          error.is_call_exception (λ e. ground arith) (λ e. ground arith))
        (λ text e. ground arith)

  record_and_rethrow-grows :
      (error : Thrown) (trail : Trail)
      → GrowsByOne opts
          (thrown error)
          (writes trail.tables)
          trail.tables
          (record_and_rethrow describe_revert writes now opts error trail).1.tables
  unfolding record_and_rethrow safe_record record_operation_attempt insert_operation_attempt_row
  record_and_rethrow-grows error trail = elim (Bool-cases (writes trail.tables)) [
    | inl can ↦ rw (can) (
        inr (_, refl, (refl, refl, classify_failure-status error, (_, refl, length-take-le 500 _))))
    | inr cannot ↦ rw (cannot) (inl (refl, refl))
  ]

  publish-tables :
      (resources : Option (List LiveResourceKey)) (trail : Trail)
      → (publish resources trail).tables ≡ trail.tables
  publish-tables none trail = refl
  publish-tables (some keys) trail = refl

  record_success-grows :
      (value : B) (tx_hash : Option Text) (trail : Trail)
      → GrowsByOne opts
          (returned value)
          (writes trail.tables)
          trail.tables
          (record_success describe_revert writes now opts value (returned tx_hash) trail).1.tables
  unfolding record_success safe_record record_operation_attempt insert_operation_attempt_row
  record_success-grows value tx_hash trail =
      let op = operation_of opts succeeded tx_hash none in
      rw (publish-tables opts.changed_resources (safe_record writes now op trail))
        (elim (Bool-cases (writes trail.tables)) [
          | inl can ↦ rw (can) (inr (_, refl, (refl, refl, refl, refl)))
          | inr cannot ↦ rw (cannot) (inl (refl, refl))
        ])

  -- The caller sees what the operation does: if the hash of what it returns can be read, recording
  -- leaves the outcome as it is, whether or not the trail can be written; and the trail, where it can
  -- be written, has exactly one attempt more, of this operation, SUCCEEDED exactly if it returned.
  pub with_operation_recording-transparent :
      (outcome : Outcome B) (trail : Trail)
      → ((value : B)
          → outcome ≡ returned value
          → (tx_hash : Option Text) × (hash_of_result opts value ≡ returned tx_hash))
      → ((with_operation_recording describe_revert writes now opts outcome trail).0 ≡ outcome)
        × GrowsByOne opts outcome
            (writes trail.tables)
            trail.tables
            (with_operation_recording describe_revert writes now opts outcome trail).1.tables
  unfolding with_operation_recording record_success record_and_rethrow
  with_operation_recording-transparent (returned value) trail reads =
      let (tx_hash, read) = reads value refl in
      (rw (read) refl, rw (read) (record_success-grows value tx_hash trail))
  with_operation_recording-transparent (thrown error) trail reads =
      (refl, record_and_rethrow-grows error trail)
