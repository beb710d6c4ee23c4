-- ===== src/Database/Schema/Laws.antt =====
-- ingestion-db.ts: `openDatabase` and `bindChainIdentity` as a whole.
use cbdc_tokenization_sandbo.Prelude.{
  Bool, Bool-cases, List, Option-cases, [], all, arith, chain_identity_mismatch, err, false,
  if◌then◌else◌, inl, inr, invalid_chain_identity, leb, none, not, ok, refl, some, text_eq,
  text_eq_iff, to_lower_case, to_lower_case_idem, true, ◌&&◌, ◌<◌, ◌||◌, ◌∷◌, ◌≡◌, ◌≤◌, ◌⊎◌,
}
use cbdc_tokenization_sandbo.Database.{
  ChainIdentity, Checkpoint, Database, RecordTables, empty_projection, empty_records,
}
use cbdc_tokenization_sandbo.Parsing.{trim}
use cbdc_tokenization_sandbo.Database.Schema.{
  bind_chain_identity, expected_identity, is_empty_text, is_genesis_hash, open_database,
  schema_version,
}

-- The file after it was opened several times, each time for reading or for writing.
unfoldable pub open_all : List Bool → Database → Database
open_all [] db = db
open_all (readonly ∷ flags) db = open_all flags (open_database readonly db)

open_database-idempotent :
    (readonly : Bool) (db : Database)
    → open_database readonly (open_database false db) ≡ open_database false db
unfolding open_database
open_database-idempotent readonly db = ground arith

open_all-migrated :
    (flags : List Bool) (db : Database)
    → open_all flags (open_database false db) ≡ open_database false db
unfolding open_all
open_all-migrated [] db = refl
open_all-migrated (readonly ∷ flags) db =
    rw (open_database-idempotent readonly db) (open_all-migrated flags db)

-- However often the file is opened, it is as after one opening for writing, or untouched if all were
-- for reading.
open_all-once :
    (flags : List Bool) (db : Database)
    → open_all flags db
      ≡ (if all (λ (readonly : Bool). readonly) flags then db else open_database false db)
unfolding open_all open_database
open_all-once [] db = refl
open_all-once (true ∷ flags) db = open_all-once flags db
open_all-once (false ∷ flags) db = open_all-migrated flags db

-- However often a file is opened, for reading or for writing: its version never goes back; its records
-- are kept, or empty where it had none; its projection is kept, or empty where it had none or an older
-- version. Either the file is as it was; or its version is current, the projection of an older version
-- is empty, and a further opening changes nothing.
pub open_database-keeps_records :
    (flags : List Bool) (db : Database)
    → let after = open_all flags db in
      (db.user_version ≤ after.user_version)
      × ((after.records ≡ db.records)
          ⊎ ((db.records ≡ none) × (after.records ≡ some empty_records)))
      × ((after.projection ≡ db.projection)
          ⊎ (((db.user_version < schema_version) ⊎ (db.projection ≡ none))
              × (after.projection ≡ some empty_projection)))
      × ((after ≡ db)
          ⊎ ((schema_version ≤ after.user_version)
              × ((schema_version ≤ db.user_version) ⊎ (after.projection ≡ some empty_projection))
              × ((readonly : Bool) → open_database readonly after ≡ after)))
unfolding open_database
open_database-keeps_records flags db =
    rw (open_all-once flags db) (elim (Bool-cases (all (λ (readonly : Bool). readonly) flags)) [
      | inl reads ↦ rw (reads) (omega arith, inl refl, inl refl, inl refl)
      | inr writes ↦ rw (writes) (
        ground arith,
        elim (Option-cases db.records) [
          | inl missing ↦ inr (missing, ground arith)
          | inr (r, there) ↦ inl (ground arith)
        ],
        elim (Bool-cases (leb schema_version db.user_version)) [
          | inl current ↦ elim (Option-cases db.projection) [
            | inl missing ↦ inr (inr missing, ground arith)
            | inr (p, there) ↦ inl (ground arith)
          ]
          | inr older ↦ inr (inl (ground arith), ground arith)
        ],
        inr (
          ground arith,
          elim (Bool-cases (leb schema_version db.user_version)) [
            | inl current ↦ inl (ground arith)
            | inr older ↦ inr (ground arith)
          ],
          (λ readonly. open_database-idempotent readonly db),
        ),
      )
    ])

-- A database that was bound to one identity is bound again by the same identity with no change, and
-- by another genesis never.
pub bind_chain_identity-exclusive :
    (first second : ChainIdentity) (before : List Checkpoint) (checkpoints : List Checkpoint)
    (tables bound : RecordTables)
    → bind_chain_identity first before tables ≡ ok bound
    → bind_chain_identity second checkpoints bound ≡ (
        if is_empty_text (expected_identity second).chain_id
          || not (is_genesis_hash (expected_identity second).genesis_hash)
        then err invalid_chain_identity
        else if text_eq (expected_identity first).chain_id (expected_identity second).chain_id
            && text_eq
                (expected_identity first).genesis_hash
                (expected_identity second).genesis_hash
        then ok bound
        else err chain_identity_mismatch)
unfolding bind_chain_identity
bind_chain_identity-exclusive first second before checkpoints tables bound h =
    let a = expected_identity first in
    let b = expected_identity second in
    elim (Option-cases tables.chain_identity) [
      | inl unbound ↦ ground (
        arith,
        to_lower_case_idem (trim first.chain_id),
        to_lower_case_idem (trim first.genesis_hash),
      )
      | inr (current, e) ↦ ground (
        arith,
        text_eq_iff (to_lower_case current.chain_id) a.chain_id,
        text_eq_iff (to_lower_case current.genesis_hash) a.genesis_hash,
      )
    ]
