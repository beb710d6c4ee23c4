-- ===== src/Ingestion/Range/Balances.antt =====
-- The transaction of a range of blocks and the projection of balances.
use cbdc_tokenization_sandbo.Prelude.{
  Holds, Holds-any, Holds-bind, Holds-map, List, Text, [], ap, case_option-holds, if-holds, inl,
  inr, not, ok, refl, text_eq, text_eq_iff, text_eq_refl, ℕ, ◌&&◌, ◌∷◌, ◌≡◌,
}
use cbdc_tokenization_sandbo.Database.{Checkpoint, ProjectionTables}
use cbdc_tokenization_sandbo.Ingestion.Writes.{
  Source, apply_balance_delta, apply_bond_state_event, get_isin_for_partition, load_checkpoint,
  save_checkpoint,
}
use cbdc_tokenization_sandbo.Ingestion.{Log, TokenEvent}
use cbdc_tokenization_sandbo.Ingestion.Writes.Balances.{
  IsReconciled, apply_balance_delta-IsReconciled,
}
use cbdc_tokenization_sandbo.Projection.BondState.{supply_delta}
use cbdc_tokenization_sandbo.Ingestion.Apply.{Tx, truthy}
use cbdc_tokenization_sandbo.Ingestion.Range.{
  RangeResult, apply_facts, manager_loop, process_block_range, token_loop, transfer_loop,
}
use cbdc_tokenization_sandbo.Ingestion.Apply.Token.{
  apply_delta, apply_deltas, apply_transfer, is_transfer, transfer_action,
}
use cbdc_tokenization_sandbo.Projection.Balance.{TransferBalanceDelta}
use cbdc_tokenization_sandbo.Ingestion.Read.{Chain, Facts, read_facts}
use cbdc_tokenization_sandbo.Database.Table.Laws.{find_row-upsert}
use cbdc_tokenization_sandbo.Ingestion.Range.Frame.{
  SameBalances, apply_bond_state_event-keeps, auction_loop-keeps, manager_loop-keeps,
  token_loop-keeps, write_resolved-keeps, write_token_partitions-keeps,
}

IsReconciled-same :
    (db db' : ProjectionTables) → SameBalances db db' → IsReconciled db → IsReconciled db'
IsReconciled-same db db' same agree i h = rw (same.0, same.1) (agree i h)

module _ (partition_hash : Text → Text) where
  abbrev Agrees : Tx → Type 0
  Agrees tx = IsReconciled tx.tables

  apply_delta-IsReconciled :
      (isin : Text) (source : Source) (d : TransferBalanceDelta) (db : ProjectionTables)
      → IsReconciled db
      → Holds IsReconciled (apply_delta partition_hash isin source d db)
  unfolding apply_delta
  apply_delta-IsReconciled isin source d db agree =
      let next = (apply_balance_delta isin d.holder d.delta source d.kind db).0 in
      let agree' = apply_balance_delta-IsReconciled isin d.holder d.delta source d.kind db agree in
      let change = supply_delta d.delta in
      if-holds (Holds IsReconciled)
        ((apply_balance_delta isin d.holder d.delta source d.kind db).1 && not (is_transfer d.kind))
        {y = ok next}
        (Holds-map _ IsReconciled
          (apply_bond_state_event partition_hash isin change source.block source.log_index next)
          (apply_bond_state_event-keeps partition_hash isin change source.block source.log_index
            next)
          (λ db' kept. IsReconciled-same next db' kept.0 agree'))
        agree'

  apply_deltas-IsReconciled :
      (isin : Text) (source : Source) (ds : List TransferBalanceDelta) (db : ProjectionTables)
      → IsReconciled db
      → Holds IsReconciled (apply_deltas partition_hash isin source ds db)
  unfolding apply_deltas
  apply_deltas-IsReconciled isin source [] db agree = agree
  apply_deltas-IsReconciled isin source (d ∷ ds) db agree =
      Holds-bind IsReconciled IsReconciled (apply_delta partition_hash isin source d db) _
        (apply_delta-IsReconciled isin source d db agree) (apply_deltas-IsReconciled isin source ds)

  transfer_loop-IsReconciled :
      (logs : List (Log TokenEvent)) (tx : Tx)
      → IsReconciled tx.tables
      → Holds Agrees (transfer_loop partition_hash logs tx)
  unfolding transfer_loop apply_transfer
  transfer_loop-IsReconciled [] tx agree = agree
  transfer_loop-IsReconciled (log ∷ logs) tx agree =
      Holds-bind Agrees Agrees _ _
        (case_option-holds (Holds Agrees) (transfer_action log) agree (λ action.
          case_option-holds (Holds Agrees)
            (truthy (get_isin_for_partition action.partition tx.tables)) agree
            (λ isin.
              Holds-bind IsReconciled Agrees _ _
                (apply_deltas-IsReconciled isin action.source _ tx.tables agree) (λ _ kept. kept))))
        (transfer_loop-IsReconciled logs)

  apply_facts-IsReconciled :
      (facts : Facts) (checkpoint : Checkpoint) (db : ProjectionTables)
      → IsReconciled db
      → Holds Agrees (apply_facts partition_hash facts checkpoint db)
  unfolding apply_facts save_checkpoint
  apply_facts-IsReconciled facts checkpoint db agree =
      Holds-bind (λ (tx : Tx). SameBalances db tx.tables) Agrees
        (manager_loop partition_hash facts.times facts.resolved facts.batch.manager _) _
        (manager_loop-keeps partition_hash db facts.times facts.resolved facts.batch.manager _ (
          write_token_partitions-keeps partition_hash db facts.batch.token _
            (write_resolved-keeps partition_hash db facts.resolved db (refl, refl))))
        (λ managed same.
          Holds-bind (λ (tx : Tx). SameBalances db tx.tables) Agrees _ _
            (token_loop-keeps partition_hash db facts.times facts.batch.token _
              (auction_loop-keeps partition_hash db facts.final facts.batch.auction managed same))
            (λ tokens same'.
              Holds-bind Agrees Agrees _ _
                (transfer_loop-IsReconciled facts.batch.token tokens
                  (IsReconciled-same db tokens.tables same' agree))
                (λ _ done. done)))

-- Whatever the chain reports, a range of blocks that is processed leaves every balance equal to the
-- sum of its recorded changes, if it was before.
pub process_block_range-IsReconciled :
    (chain : Chain) (from to : ℕ) (checkpoint : Checkpoint) (db : ProjectionTables)
    → IsReconciled db
    → Holds
        (λ (r : RangeResult). IsReconciled r.tables)
        (process_block_range chain from to checkpoint db)
unfolding process_block_range
process_block_range-IsReconciled chain from to checkpoint db agree =
    Holds-any _ (read_facts chain from to db) _ (λ facts.
      Holds-bind (λ (tx : Tx). IsReconciled tx.tables) _ _ _
        (apply_facts-IsReconciled chain.partition_hash facts checkpoint db agree) (λ _ done. done))

save_checkpoint-load :
    (start : ℕ) (checkpoint : Checkpoint) (db : ProjectionTables)
    → load_checkpoint start checkpoint.contract (save_checkpoint checkpoint db) ≡ checkpoint
unfolding load_checkpoint save_checkpoint
save_checkpoint-load start checkpoint db =
    elim (find_row-upsert (λ (c : Checkpoint). text_eq c.contract checkpoint.contract)
      (λ (c : Checkpoint). record checkpoint { contract = c.contract }) checkpoint
      db.ingestion_state (text_eq_refl checkpoint.contract) (λ c e. e)) [
        | inl found ↦ rw found refl
        | inr (c, same, found) ↦ rw found (
            ap (λ (t : Text). record checkpoint { contract = t })
              ((text_eq_iff c.contract checkpoint.contract).0 same))
      ]

-- A range of blocks that is processed stands at the checkpoint that it was given.
pub process_block_range-checkpoint :
    (chain : Chain) (from to start : ℕ) (checkpoint : Checkpoint) (db : ProjectionTables)
    → Holds
        (λ (r : RangeResult). load_checkpoint start checkpoint.contract r.tables ≡ checkpoint)
        (process_block_range chain from to checkpoint db)
unfolding process_block_range apply_facts
process_block_range-checkpoint chain from to start checkpoint db =
    Holds-any _ (read_facts chain from to db) _ (λ facts.
      Holds-bind (λ (tx : Tx). load_checkpoint start checkpoint.contract tx.tables ≡ checkpoint) _ _
        _
        (Holds-any _ (manager_loop _ _ _ _ _) _ (λ managed.
          Holds-any _ (token_loop _ _ _ _) _ (λ tokens.
            Holds-any _ (transfer_loop _ _ _) _
              (λ moved. save_checkpoint-load start checkpoint moved.tables))))
        (λ _ done. done))
