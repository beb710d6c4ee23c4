-- ===== src/Ingestion/Range.antt =====
-- ingestion.ts, `processBlockRange`: the one transaction that writes a range of blocks.
pub mod Frame
pub mod Balances
pub mod Replay
use cbdc_tokenization_sandbo.Prelude.{
  Bool, List, Option, Result, Text, [], case_option, false, if◌then◌else◌, ltb, map, none, ok, some,
  ℕ, ◌&&◌, ◌++◌, ◌==◌, ◌>>=◌, ◌>>◌, ◌||◌, ◌∷◌,
}
use cbdc_tokenization_sandbo.Ingestion.Writes.Auctions.{ChainAllocation}
use cbdc_tokenization_sandbo.Database.{Checkpoint, ProjectionTables}
use cbdc_tokenization_sandbo.Ingestion.Writes.{save_checkpoint, upsert_partition}
use cbdc_tokenization_sandbo.Ingestion.Apply.Auction.{apply_auction_event}
use cbdc_tokenization_sandbo.Ingestion.Apply.Token.{
  apply_token_event, apply_transfer, token_isin, transfer_action,
}
use cbdc_tokenization_sandbo.Ingestion.{AuctionEvent, Batch, Log, ManagerEvent, TokenEvent}
use cbdc_tokenization_sandbo.Ingestion.Apply.{Tx, source_of, truthy, write}
use cbdc_tokenization_sandbo.Ingestion.Apply.Manager.{apply_manager_event}
use cbdc_tokenization_sandbo.Ingestion.Read.{Chain, Facts, read_facts}

-- The newly resolved partitions.
unfoldable pub write_resolved : List (Text × Option Text) → ProjectionTables → ProjectionTables
write_resolved [] db = db
write_resolved ((partition, isin) ∷ rest) db =
    write_resolved rest
      (case_option (truthy isin) db (λ known. upsert_partition partition known none none db))

module _ (partition_hash : Text → Text) where
  -- The partitions that the logs of the token contract name.
  unfoldable pub write_token_partitions :
      List (Log TokenEvent) → ProjectionTables → ProjectionTables
  write_token_partitions [] db = db
  write_token_partitions (log ∷ logs) db = write_token_partitions logs (
      case_option (token_isin log.event) db
        (λ isin. upsert_partition (partition_hash isin) isin none (some log.block) db))

  unfoldable pub manager_loop :
      List (ℕ × ℕ) → List (Text × Option Text) → List (Log ManagerEvent) → Tx → Result Tx
  manager_loop times resolved [] tx = ok tx
  manager_loop times resolved (log ∷ logs) tx = do
    next ← apply_manager_event partition_hash times resolved log.event (source_of log) tx
    manager_loop times resolved logs next

  unfoldable pub token_loop : List (ℕ × ℕ) → List (Log TokenEvent) → Tx → Result Tx
  token_loop times [] tx = ok tx
  token_loop times (log ∷ logs) tx = do
    next ← apply_token_event partition_hash times log.event (source_of log) tx
    token_loop times logs next

  unfoldable pub transfer_loop : List (Log TokenEvent) → Tx → Result Tx
  transfer_loop [] tx = ok tx
  transfer_loop (log ∷ logs) tx = do
    next ←
        case_option (transfer_action log) (ok tx)
          (λ action. apply_transfer partition_hash action tx)
    transfer_loop logs next

unfoldable pub auction_loop : List (Text × List ChainAllocation) → List (Log AuctionEvent) → Tx → Tx
auction_loop final [] tx = tx
auction_loop final (log ∷ logs) tx =
    auction_loop final logs (apply_auction_event final log.event (source_of log) tx)

-- The body of the transaction.
unfoldable pub apply_facts : (Text → Text) → Facts → Checkpoint → ProjectionTables → Result Tx
apply_facts partition_hash facts checkpoint db = do
  let start : Tx = record {
    tables =
        write_token_partitions partition_hash facts.batch.token (write_resolved facts.resolved db);
    auctions_changed = false;
    bonds_changed = false;
  }
  managed ← manager_loop partition_hash facts.times facts.resolved facts.batch.manager start
  tokens ←
      token_loop partition_hash facts.times facts.batch.token
        (auction_loop facts.final facts.batch.auction managed)
  moved ← transfer_loop partition_hash facts.batch.token tokens
  ok (write (save_checkpoint checkpoint) moved)

-- The position of a log, and its transaction.
abbrev pub Located : Type 0
Located = ℕ × ℕ × Text

unfoldable pub later_of : Option Located → Located → Located
later_of none entry = entry
later_of (some (block, index, hash)) (b, i, h) =
    if ltb block b || (b == block && ltb index i) then (b, i, h) else (block, index, hash)

unfoldable pub latest_of : Option Located → List Located → Option Located
latest_of found [] = found
latest_of found (entry ∷ rest) = latest_of (some (later_of found entry)) rest

abbrev located : {E : Type 0} → Log E → Located
located log = (log.block, log.log_index, log.tx_hash)

unfoldable pub latest_log : Batch → Option Located
latest_log batch =
    latest_of none
      (map located batch.manager ++ (map located batch.token ++ map located batch.auction))

pub record RangeResult : Type 0 where
  pub tables : ProjectionTables
  pub latest : Option Located
  pub auctions_changed : Bool
  pub bonds_changed : Bool

-- The caller keeps the old tables where this throws: SQLite rolls the transaction back.
unfoldable pub process_block_range :
    Chain → ℕ → ℕ → Checkpoint → ProjectionTables → Result RangeResult
process_block_range chain from to checkpoint db = do
  facts ← read_facts chain from to db
  done ← apply_facts chain.partition_hash facts checkpoint db
  ok (record {
    tables = done.tables;
    latest = latest_log facts.batch;
    auctions_changed = done.auctions_changed;
    bonds_changed = done.bonds_changed;
  })
