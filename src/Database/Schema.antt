-- ===== src/Database/Schema.antt =====
-- ingestion-db.ts: the schema version, the migration that drops the projection, `openDatabase`, and
-- the guard that binds a database to one chain genesis.
pub mod Laws
use cbdc_tokenization_sandbo.Prelude.{
  Bool, List, Result, Text, [], all, chain_identity_mismatch, err, false, if◌then◌else◌,
  invalid_chain_identity, leb, length, none, not, ok, some, text_eq, to_lower_case, true,
  unbound_legacy_checkpoint, ℕ, ◌&&◌, ◌==◌, ◌||◌, ◌∷◌,
}
use cbdc_tokenization_sandbo.Parsing.{trim}
use cbdc_tokenization_sandbo.Database.{
  ChainIdentity, Checkpoint, Database, RecordTables, create_tables,
}

abbrev pub schema_version : ℕ
schema_version = 6

-- `DROP TABLE IF EXISTS` for each of `PROJECTION_TABLE_NAMES`.
unfoldable pub drop_projection_tables : Database → Database
drop_projection_tables db = record db { projection = none }

pub record Migration : Type 0 where
  pub ran : Bool
  pub from : ℕ
  pub to : ℕ

unfoldable pub migrate_to_current_version : Database → Database × Migration
unfolding drop_projection_tables
migrate_to_current_version db =
    if leb schema_version db.user_version
    then (db, record { ran = false; from = db.user_version; to = db.user_version })
    else (
      record (drop_projection_tables db) { user_version = schema_version },
      record { ran = true; from = db.user_version; to = schema_version },
    )

-- What `openDatabase` leaves of the file that it opens. A file that does not exist is `fresh_file`.
unfoldable pub open_database : Bool → Database → Database
unfolding migrate_to_current_version create_tables
open_database readonly db = if readonly then db else create_tables (migrate_to_current_version db).0

abbrev pub fresh_file : Database
fresh_file = record { user_version = 0; projection = none; records = none }

-- `/^0x[0-9a-f]{64}$/`
abbrev is_hex_digit : ℕ → Bool
is_hex_digit c = (leb b'0' c && leb c b'9') || (leb b'a' c && leb c b'f')

unfoldable pub is_genesis_hash : Text → Bool
is_genesis_hash (c ∷ d ∷ digits) =
    (c == b'0' && d == b'x') && (length digits == 64 && all is_hex_digit digits)
is_genesis_hash _ = false

abbrev pub is_empty_text : Text → Bool
is_empty_text [] = true
is_empty_text (c ∷ s) = false

-- The identity, trimmed and in lower case.
unfoldable pub expected_identity : ChainIdentity → ChainIdentity
expected_identity identity = record {
  chain_id = to_lower_case (trim identity.chain_id);
  genesis_hash = to_lower_case (trim identity.genesis_hash);
}

abbrev pub same_identity : ChainIdentity → ChainIdentity → Bool
same_identity current expected =
    text_eq (to_lower_case current.chain_id) expected.chain_id
    && text_eq (to_lower_case current.genesis_hash) expected.genesis_hash

-- The two tables that the guard reads, and the one that it writes.
unfoldable pub bind_chain_identity :
    ChainIdentity → List Checkpoint → RecordTables → Result RecordTables
unfolding is_genesis_hash expected_identity
bind_chain_identity identity checkpoints tables =
    let expected = expected_identity identity in
    if is_empty_text expected.chain_id || not (is_genesis_hash expected.genesis_hash)
    then err invalid_chain_identity
    else elim tables.chain_identity [
      | none ↦ elim checkpoints [
        | [] ↦ ok (record tables { chain_identity = some expected })
        | checkpoint ∷ others ↦ err unbound_legacy_checkpoint
      ]
      | some current ↦
          if same_identity current expected then ok tables else err chain_identity_mismatch
    ]
