-- ===== src/Ingestion/Writes.antt =====
-- ingestion.ts: the statements that write the projection, one function each.
pub mod Auctions
pub mod Balances
use cbdc_tokenization_sandbo.Prelude.{
  Bool, List, Option, Result, Text, false, get_or, if◌then◌else◌, none, not, ok, pos, some, text_eq,
  to_lower_case, true, ℕ, ℤ, ◌&&◌, ◌+ℤ◌, ◌==◌, ◌>>=◌, ◌>>◌, ◌||◌,
}
use cbdc_tokenization_sandbo.Projection.Balance.{TransferKind, zero_address}
use cbdc_tokenization_sandbo.Projection.BondState.{
  BondProjectionEvent, BondState, disabled, empty_bond_state, reduce_bond_state,
}
use cbdc_tokenization_sandbo.Database.{
  BalanceEventRow, BalanceRow, BondEventRow, Checkpoint, PartitionRow, Payload, ProjectionTables,
}
use cbdc_tokenization_sandbo.Database.Table.{find_row, insert_or_ignore, update_rows, upsert}

-- `COALESCE(a, b)`
abbrev pub coalesce {ℓ} : {A : Type ℓ} → Option A → Option A → Option A
coalesce (some a) b = some a
coalesce none b = b

-- Where an event stands on the chain: block, index of the log, transaction.
pub record Source : Type 0 where
  pub block : ℕ
  pub log_index : ℕ
  pub tx_hash : Text

unfoldable pub load_checkpoint : ℕ → Text → ProjectionTables → Checkpoint
load_checkpoint start_block contract db =
    get_or (find_row (λ (c : Checkpoint). text_eq c.contract contract) db.ingestion_state) (record {
      contract = contract;
      last_block = start_block;
      last_tx_index = 0;
      block_timestamp = none;
    })

unfoldable pub save_checkpoint : Checkpoint → ProjectionTables → ProjectionTables
save_checkpoint checkpoint db = record db {
  ingestion_state =
      upsert (λ (c : Checkpoint). text_eq c.contract checkpoint.contract)
        (λ c. record c {
          last_block = checkpoint.last_block;
          last_tx_index = checkpoint.last_tx_index;
          block_timestamp = checkpoint.block_timestamp;
        })
        checkpoint db.ingestion_state;
}

abbrev pub is_balance : Text → Text → BalanceRow → Bool
is_balance isin holder row = text_eq row.isin isin && text_eq row.holder holder

abbrev pub is_balance_event : Text → ℕ → Text → BalanceEventRow → Bool
is_balance_event tx_hash log_index holder row =
    text_eq row.tx_hash tx_hash && (row.log_index == log_index && text_eq row.holder holder)

abbrev pub balance_or_zero : Option BalanceRow → ℤ
balance_or_zero none = pos 0
balance_or_zero (some row) = row.balance

unfoldable pub balance_of : Text → Text → List BalanceRow → ℤ
balance_of isin holder rows = balance_or_zero (find_row (is_balance isin holder) rows)

abbrev pub balance_event : Text → Text → ℤ → ℤ → Source → TransferKind → BalanceEventRow
balance_event isin holder delta after source kind = record {
  isin = isin;
  holder = holder;
  delta = delta;
  balance_after = after;
  block = source.block;
  log_index = source.log_index;
  tx_hash = source.tx_hash;
  kind = kind;
}

-- The new tables, and whether the change was applied.
unfoldable pub apply_balance_delta :
    Text → Text → ℤ → Source → TransferKind → ProjectionTables → ProjectionTables × Bool
apply_balance_delta isin holder delta source kind db =
    let next = balance_of isin holder db.balances +ℤ delta in
    let (events, wrote) =
      insert_or_ignore (is_balance_event source.tx_hash source.log_index holder)
        (balance_event isin holder delta next source kind) db.balance_events in
    if text_eq (to_lower_case holder) zero_address || not wrote then (db, false) else (
      record db {
        balance_events = events;
        balances =
            upsert (is_balance isin holder) (λ row. record row { balance = next })
              (record { isin = isin; holder = holder; balance = next }) db.balances;
      },
      true,
    )

abbrev pub is_bond : Text → BondState → Bool
is_bond isin state = text_eq state.isin isin

unfoldable pub load_bond_state : Text → Text → ProjectionTables → BondState
load_bond_state isin partition db =
    get_or (find_row (is_bond isin) db.bond_states) (empty_bond_state isin partition)

unfoldable pub save_bond_state : BondState → ProjectionTables → ProjectionTables
save_bond_state state db = record db {
  bond_states = upsert (is_bond state.isin) (λ _. state) state db.bond_states;
}

abbrev pub is_partition : Text → PartitionRow → Bool
is_partition partition row = text_eq row.partition partition

unfoldable pub upsert_partition :
    Text → Text → Option Text → Option ℕ → ProjectionTables → ProjectionTables
upsert_partition partition isin bond block db = record db {
  partitions =
      upsert (is_partition (to_lower_case partition))
        (λ row. record row {
          isin = isin;
          bond = coalesce row.bond bond;
          created_block = coalesce row.created_block block;
        })
        (record {
          partition = to_lower_case partition;
          isin = isin;
          bond = bond;
          created_block = block;
          disabled = false;
        })
        db.partitions;
}

abbrev pub isin_of : Option PartitionRow → Option Text
isin_of none = none
isin_of (some row) = some row.isin

unfoldable pub get_isin_for_partition : Text → ProjectionTables → Option Text
get_isin_for_partition partition db =
    isin_of (find_row (is_partition (to_lower_case partition)) db.partitions)

unfoldable pub insert_bond_event :
    Text → Text → Source → Payload → ProjectionTables → ProjectionTables
insert_bond_event isin type source payload db = record db {
  bond_events =
      (insert_or_ignore
        (λ (e : BondEventRow). text_eq e.tx_hash source.tx_hash && e.log_index == source.log_index)
        (record {
          isin = isin;
          type = type;
          block = source.block;
          log_index = source.log_index;
          tx_hash = source.tx_hash;
          payload = payload;
        })
        db.bond_events).0;
}

-- What needs the hash of an ISIN, `keccak256(toUtf8Bytes(isin))`.
module _ (partition_hash : Text → Text) where
  unfoldable pub apply_bond_state_event :
      Text → BondProjectionEvent → ℕ → ℕ → ProjectionTables → Result ProjectionTables
  apply_bond_state_event isin event block log_index db = do
    next ←
        reduce_bond_state (load_bond_state isin (partition_hash isin) db) event
          (record { block = block; log_index = log_index })
    ok (save_bond_state next db)

  unfoldable pub set_partition_disabled : Text → Bool → ProjectionTables → ProjectionTables
  set_partition_disabled isin flag db = record db {
    partitions =
        update_rows (is_partition (to_lower_case (partition_hash isin)))
          (λ row. record row { disabled = flag }) db.partitions;
  }
