-- ===== src/Ingestion/Apply.antt =====
-- ingestion.ts, `processBlockRange`: the state of its transaction, and the arguments of events.
pub mod Manager
pub mod Auction
pub mod Token
use cbdc_tokenization_sandbo.Prelude.{
  Bool, List, Option, Result, Text, [], if◌then◌else◌, none, ok, some, text_eq, to_lower_case, true,
  ℕ, ◌==◌, ◌>>=◌, ◌>>◌, ◌∷◌,
}
use cbdc_tokenization_sandbo.Ingestion.Writes.{Source, coalesce, get_isin_for_partition}
use cbdc_tokenization_sandbo.Ingestion.{IsinArg, Log, absent, indexed, plain}
use cbdc_tokenization_sandbo.Database.{ProjectionTables}

-- `changedResources`, and the tables inside the transaction.
pub record Tx : Type 0 where
  pub tables : ProjectionTables
  pub auctions_changed : Bool
  pub bonds_changed : Bool

abbrev pub write : (ProjectionTables → ProjectionTables) → Tx → Tx
write f tx = record tx { tables = f tx.tables }

abbrev pub mark_bonds : Tx → Tx
mark_bonds tx = record tx { bonds_changed = true }

abbrev pub mark_both : Tx → Tx
mark_both tx = record tx { auctions_changed = true; bonds_changed = true }

-- A write that can throw.
abbrev pub write_or_throw : (ProjectionTables → Result ProjectionTables) → Tx → Result Tx
write_or_throw f tx = do tables ← f tx.tables; ok (record tx { tables = tables })

-- `if (value)`: the empty text counts as missing.
unfoldable pub truthy : Option Text → Option Text
truthy (some []) = none
truthy value = value

-- `blockTimestamps.get(block) ?? 0n`
unfoldable pub timestamp_of : ℕ → List (ℕ × ℕ) → ℕ
timestamp_of block [] = 0
timestamp_of block ((b, t) ∷ rest) = if b == block then t else timestamp_of block rest

-- `resolvedPartitions[partition]`, where a missing key and null are both `none`.
unfoldable pub resolved_isin : Text → List (Text × Option Text) → Option Text
resolved_isin partition [] = none
resolved_isin partition ((p, isin) ∷ rest) =
    if text_eq p partition then isin else resolved_isin partition rest

unfoldable pub extract_partition : IsinArg → Option Text
extract_partition (indexed (some hash)) = some (to_lower_case hash)
extract_partition _ = none

unfoldable pub resolve_isin : IsinArg → List (Text × Option Text) → ProjectionTables → Option Text
resolve_isin absent resolved db = none
resolve_isin (plain isin) resolved db = truthy (some isin)
resolve_isin (indexed none) resolved db = none
resolve_isin (indexed (some hash)) resolved db =
    let partition = to_lower_case hash in
    coalesce (resolved_isin partition resolved)
      (coalesce (get_isin_for_partition partition db) (some partition))

abbrev pub source_of : {E : Type 0} → Log E → Source
source_of log = record { block = log.block; log_index = log.log_index; tx_hash = log.tx_hash }
