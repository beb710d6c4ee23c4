-- ===== src/Ingestion/Range/Frame.antt =====
-- ingestion.ts, `processBlockRange`: the loops before the transfers, and the tables of balances.
use cbdc_tokenization_sandbo.Prelude.{
  Holds, Holds-any, Holds-bind, List, Option, Text, [], case_option-holds, false, none, refl, some,
  true, ℕ, ◌∙◌, ◌∷◌, ◌≡◌,
}
use cbdc_tokenization_sandbo.Ingestion.Writes.Auctions.{
  ChainAllocation, cancel_auction_bid, replace_auction_allocations, set_auction_status,
  upsert_auction_bid, upsert_auction_event, upsert_auction_metadata,
}
use cbdc_tokenization_sandbo.Database.{Payload, ProjectionTables}
use cbdc_tokenization_sandbo.Ingestion.Writes.{
  Source, apply_bond_state_event, insert_bond_event, save_bond_state, set_partition_disabled,
  upsert_partition,
}
use cbdc_tokenization_sandbo.Ingestion.Apply.Manager.{
  apply_bond_event, apply_created, apply_disabled, apply_if_known, apply_initialised,
  apply_issuance_complete, apply_manager_event, apply_status_event,
}
use cbdc_tokenization_sandbo.Ingestion.{
  AuctionEvent, Log, ManagerEvent, TokenEvent, auction_cancelled, auction_closed, auction_created,
  auction_finalised, auction_finalized, auction_initialised, bid_cancelled, bid_submitted,
  bond_created, bond_disabled, bond_issuance_complete, bond_matured, bond_redeemed, holder_paid,
  other_auction_event, other_manager_event, period_paid,
}
use cbdc_tokenization_sandbo.Projection.BondState.{BondProjectionEvent, reduce_bond_state}
use cbdc_tokenization_sandbo.Ingestion.Apply.{
  Tx, mark_bonds, source_of, timestamp_of, truthy, write, write_or_throw,
}
use cbdc_tokenization_sandbo.Ingestion.Range.{
  auction_loop, manager_loop, token_loop, write_resolved, write_token_partitions,
}
use cbdc_tokenization_sandbo.Ingestion.Apply.Token.{apply_token_event, token_isin, token_projection}
use cbdc_tokenization_sandbo.Ingestion.Apply.Auction.{apply_auction_event}

abbrev pub SameBalances : ProjectionTables → ProjectionTables → Type 0
SameBalances db db' = (db'.balances ≡ db.balances) × (db'.balance_events ≡ db.balance_events)

module _ (partition_hash : Text → Text) where
  -- What the projection of a bond leaves as it is.
  pub apply_bond_state_event-keeps :
      (isin : Text) (event : BondProjectionEvent) (block log_index : ℕ) (db : ProjectionTables)
      → Holds
          (λ (db' : ProjectionTables). SameBalances db db' × (db'.partitions ≡ db.partitions))
          (apply_bond_state_event partition_hash isin event block log_index db)
  unfolding apply_bond_state_event save_bond_state
  apply_bond_state_event-keeps isin event block log_index db =
      Holds-any _ (reduce_bond_state _ event _) _ (λ _. ((refl, refl), refl))

  module _ (db : ProjectionTables) where
    abbrev pub Kept : Tx → Type 0
    Kept tx = SameBalances db tx.tables

    -- A write of a bond after writes that keep the balances.
    write_bond-keeps :
        (isin : Text) (event : BondProjectionEvent) (block log_index : ℕ) (tx : Tx)
        → Kept tx
        → Holds Kept
            (write_or_throw (apply_bond_state_event partition_hash isin event block log_index) tx)
    write_bond-keeps isin event block log_index tx same =
        Holds-bind _ Kept
          (apply_bond_state_event partition_hash isin event block log_index tx.tables) _
          (apply_bond_state_event-keeps isin event block log_index tx.tables)
          (λ db' kept. (kept.0.0 ∙ same.0, kept.0.1 ∙ same.1))

    apply_if_known-keeps :
        (isin : Option Text) (event : BondProjectionEvent) (source : Source) (tx : Tx)
        → Kept tx
        → Holds Kept (apply_if_known partition_hash isin event source tx)
    apply_if_known-keeps none event source tx same = same
    apply_if_known-keeps (some isin) event source tx same =
        write_bond-keeps isin event source.block source.log_index tx same

    apply_bond_event-keeps :
        (isin : Option Text) (type : Text) (payload : Payload) (event : Option BondProjectionEvent)
        (source : Source) (tx : Tx)
        → Kept tx
        → Holds Kept (apply_bond_event partition_hash isin type payload event source tx)
    unfolding apply_bond_event insert_bond_event
    apply_bond_event-keeps isin type payload none source tx same = same
    apply_bond_event-keeps isin type payload (some event) source tx same =
        apply_if_known-keeps (truthy isin) event source _ same

    -- An event of the manager never changes a balance.
    apply_manager_event-keeps :
        (times : List (ℕ × ℕ)) (resolved : List (Text × Option Text)) (event : ManagerEvent)
        (source : Source) (tx : Tx)
        → Kept tx
        → Holds Kept (apply_manager_event partition_hash times resolved event source tx)
    unfolding apply_manager_event apply_initialised apply_status_event apply_created apply_disabled
        apply_issuance_complete set_partition_disabled upsert_partition set_auction_status
        upsert_auction_event insert_bond_event
    apply_manager_event-keeps times resolved (auction_initialised _ _ _ _) source tx same = same
    apply_manager_event-keeps times resolved (auction_closed _ _) source tx same = same
    apply_manager_event-keeps times resolved (auction_finalised _ _) source tx same = same
    apply_manager_event-keeps times resolved (auction_cancelled _ _) source tx same = same
    apply_manager_event-keeps times resolved (holder_paid _ _ _ _) source tx same =
        search apply_bond_event-keeps
    apply_manager_event-keeps times resolved (period_paid _ _ _ _) source tx same =
        search apply_bond_event-keeps
    apply_manager_event-keeps times resolved (bond_matured _ _ _ _ _) source tx same =
        search apply_bond_event-keeps
    apply_manager_event-keeps times resolved (bond_issuance_complete _ _) source tx same =
        Holds-bind Kept Kept _ _ (write_bond-keeps _ _ _ _ (mark_bonds tx) same) (λ _ kept. kept)
    apply_manager_event-keeps times resolved (bond_redeemed _ _ _ _) source tx same = same
    apply_manager_event-keeps times resolved (bond_created isin bond _) source tx same =
        Holds-bind Kept Kept _ _
          (write_bond-keeps _ _ _ _
            (write
              (λ db'.
                set_partition_disabled partition_hash isin false
                  (upsert_partition (partition_hash isin) isin bond (some source.block) db'))
              (mark_bonds tx))
            same)
          (λ _ kept. kept)
    apply_manager_event-keeps times resolved (bond_disabled isin) source tx same =
        Holds-bind Kept Kept _ _
          (write_bond-keeps _ _ _ _
            (write (set_partition_disabled partition_hash isin true) (mark_bonds tx)) same)
          (λ _ kept. kept)
    apply_manager_event-keeps times resolved other_manager_event source tx same = same

    pub manager_loop-keeps :
        (times : List (ℕ × ℕ)) (resolved : List (Text × Option Text))
        (logs : List (Log ManagerEvent)) (tx : Tx)
        → Kept tx
        → Holds Kept (manager_loop partition_hash times resolved logs tx)
    unfolding manager_loop
    manager_loop-keeps times resolved [] tx same = same
    manager_loop-keeps times resolved (log ∷ logs) tx same =
        Holds-bind Kept Kept
          (apply_manager_event partition_hash times resolved log.event (source_of log) tx) _
          (apply_manager_event-keeps times resolved log.event (source_of log) tx same)
          (manager_loop-keeps times resolved logs)

    apply_token_event-keeps :
        (times : List (ℕ × ℕ)) (event : TokenEvent) (source : Source) (tx : Tx)
        → Kept tx
        → Holds Kept (apply_token_event partition_hash times event source tx)
    unfolding apply_token_event
    apply_token_event-keeps times event source tx same =
        case_option-holds (Holds Kept) (token_isin event) same (λ isin.
          case_option-holds (Holds Kept) (token_projection event (timestamp_of source.block times))
            same (λ change. write_bond-keeps isin change source.block source.log_index tx same))

    pub token_loop-keeps :
        (times : List (ℕ × ℕ)) (logs : List (Log TokenEvent)) (tx : Tx)
        → Kept tx
        → Holds Kept (token_loop partition_hash times logs tx)
    unfolding token_loop
    token_loop-keeps times [] tx same = same
    token_loop-keeps times (log ∷ logs) tx same =
        Holds-bind Kept Kept (apply_token_event partition_hash times log.event (source_of log) tx) _
          (apply_token_event-keeps times log.event (source_of log) tx same)
          (token_loop-keeps times logs)

    pub auction_loop-keeps :
        (final : List (Text × List ChainAllocation)) (logs : List (Log AuctionEvent)) (tx : Tx)
        → Kept tx
        → Kept (auction_loop final logs tx)
    unfolding auction_loop apply_auction_event upsert_auction_metadata upsert_auction_bid
        cancel_auction_bid replace_auction_allocations
    auction_loop-keeps final [] tx same = same
    auction_loop-keeps final (log ∷ logs) tx same =
        auction_loop-keeps final logs _ (event_keeps log.event)
      where
        event_keeps :
            (event : AuctionEvent) → Kept (apply_auction_event final event (source_of log) tx)
        event_keeps (auction_created _ _ _ _ _ _ _) = same
        event_keeps (bid_submitted _ _ _ _ _) = same
        event_keeps (bid_cancelled _ _ _) = same
        event_keeps (auction_finalized _) = same
        event_keeps other_auction_event = same

    pub write_token_partitions-keeps :
        (logs : List (Log TokenEvent)) (db' : ProjectionTables)
        → SameBalances db db'
        → SameBalances db (write_token_partitions partition_hash logs db')
    unfolding write_token_partitions upsert_partition
    write_token_partitions-keeps [] db' same = same
    write_token_partitions-keeps (log ∷ logs) db' same =
        write_token_partitions-keeps logs _
          (case_option-holds (SameBalances db) (token_isin log.event) same (λ _. same))

    pub write_resolved-keeps :
        (resolved : List (Text × Option Text)) (db' : ProjectionTables)
        → SameBalances db db'
        → SameBalances db (write_resolved resolved db')
    unfolding write_resolved upsert_partition
    write_resolved-keeps [] db' same = same
    write_resolved-keeps ((partition, isin) ∷ rest) db' same =
        write_resolved-keeps rest _
          (case_option-holds (SameBalances db) (truthy isin) same (λ _. same))
