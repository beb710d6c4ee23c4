-- ===== src/Ingestion/Apply/Manager.antt =====
-- ingestion.ts, `processBlockRange`: the logs of the BondManager contract.
use cbdc_tokenization_sandbo.Prelude.{
  List, Option, Result, Text, [], codes, false, get_or, none, ok, pos, some, true, ℕ, ℤ, ◌*◌, ◌>>=◌,
  ◌∷◌,
}
use cbdc_tokenization_sandbo.Ingestion.Writes.Auctions.{
  set_auction_status, type_name, upsert_auction_event,
}
use cbdc_tokenization_sandbo.Ingestion.{
  ManagerEvent, auction_cancelled, auction_closed, auction_finalised, auction_initialised,
  bond_created, bond_disabled, bond_issuance_complete, bond_matured, bond_redeemed, holder_paid,
  other_manager_event, period_paid,
}
use cbdc_tokenization_sandbo.Ingestion.Writes.{
  Source, apply_bond_state_event, insert_bond_event, set_partition_disabled, upsert_partition,
}
use cbdc_tokenization_sandbo.Parsing.{print_bigint}
use cbdc_tokenization_sandbo.Database.{
  AuctionStatus, Payload, cancelled_status, closed_status, finalised_status, open_status,
}
use cbdc_tokenization_sandbo.Allocation.{AuctionType}
use cbdc_tokenization_sandbo.Projection.BondState.{
  BondProjectionEvent, coupon_paid, created, disabled, issuance_complete, matured,
}
use cbdc_tokenization_sandbo.Ingestion.Apply.{
  Tx, mark_bonds, mark_both, resolve_isin, timestamp_of, truthy, write, write_or_throw,
}

abbrev pub milliseconds : ℕ → Option ℤ
milliseconds seconds = some (pos (seconds * 1000))

module _ (partition_hash : Text → Text) where
  -- `applyBondStateEvent` where an ISIN is known.
  abbrev pub apply_if_known : Option Text → BondProjectionEvent → Source → Tx → Result Tx
  apply_if_known none event source tx = ok tx
  apply_if_known (some isin) event source tx =
      write_or_throw
        (apply_bond_state_event partition_hash isin event source.block source.log_index) tx

  unfoldable pub apply_initialised : AuctionType → Text → Text → Option Text → Source → Tx → Tx
  apply_initialised type auction_id isin bond source tx =
      write
        (λ db. set_partition_disabled partition_hash isin false (
          upsert_partition (partition_hash isin) isin bond (some source.block) (
            set_auction_status auction_id open_status none
              (upsert_auction_event auction_id isin (type_name type) source [] bond db))))
        (mark_both tx)

  -- `BondAuctionClosed`, `BondAuctionFinalised` and `BondAuctionCancelled`.
  unfoldable pub apply_status_event :
      Text → AuctionStatus → Text → Text → Option ℤ → Source → Tx → Tx
  apply_status_event type status auction_id isin at source tx =
      write
        (λ db.
          set_auction_status auction_id status at
            (upsert_auction_event auction_id isin type source [] none db))
        (mark_both tx)

  -- An event that names its bond by an argument that may be a hash: the row of `bond_events`, then
  -- the projection of the event, if it has one.
  unfoldable pub apply_bond_event :
      Option Text → Text → Payload → Option BondProjectionEvent → Source → Tx → Result Tx
  apply_bond_event isin type payload none source tx =
      ok (write (insert_bond_event (get_or isin []) type source payload) (mark_bonds tx))
  apply_bond_event isin type payload (some event) source tx =
      apply_if_known (truthy isin) event source
        (write (insert_bond_event (get_or isin []) type source payload) (mark_bonds tx))

  unfoldable pub apply_created : Text → Option Text → ℤ → Source → Tx → Result Tx
  apply_created isin bond duration source tx = do
    next ←
        write_or_throw
          (λ db.
            apply_bond_state_event partition_hash isin (created (partition_hash isin) bond duration)
              source.block source.log_index
              (set_partition_disabled partition_hash isin false
                (upsert_partition (partition_hash isin) isin bond (some source.block) db)))
          (mark_bonds tx)
    ok (
        write
          (insert_bond_event isin (codes "BOND_CREATED") source (
            (codes "bondAddress", get_or bond (codes "null"))
            ∷ (codes "maturityDurationSeconds", print_bigint duration)
            ∷ []))
          next)

  unfoldable pub apply_disabled : Text → Source → Tx → Result Tx
  apply_disabled isin source tx = do
    next ←
        write_or_throw
          (λ db.
            apply_bond_state_event partition_hash isin (disabled true) source.block source.log_index
              (set_partition_disabled partition_hash isin true db))
          (mark_bonds tx)
    ok (write (insert_bond_event isin (codes "BOND_DISABLED") source []) next)

  unfoldable pub apply_issuance_complete : Text → ℤ → Source → Tx → Result Tx
  apply_issuance_complete isin total source tx = do
    next ←
        write_or_throw
          (apply_bond_state_event partition_hash isin issuance_complete source.block
            source.log_index)
          (mark_bonds tx)
    ok (
        write
          (insert_bond_event isin (codes "ISSUANCE_COMPLETE") source
            ((codes "total", print_bigint total) ∷ []))
          next)

  unfoldable pub apply_manager_event :
      List (ℕ × ℕ) → List (Text × Option Text) → ManagerEvent → Source → Tx → Result Tx
  unfolding apply_initialised apply_status_event apply_bond_event apply_created apply_disabled
      apply_issuance_complete
  apply_manager_event times resolved (auction_initialised type auction_id isin bond) source tx =
      ok (apply_initialised type auction_id isin bond source tx)
  apply_manager_event times resolved (auction_closed auction_id isin) source tx = ok (
      apply_status_event (codes "CLOSED") closed_status auction_id isin
        (milliseconds (timestamp_of source.block times)) source tx)
  apply_manager_event times resolved (auction_finalised auction_id isin) source tx = ok (
      apply_status_event (codes "FINALISED") finalised_status auction_id isin
        (milliseconds (timestamp_of source.block times)) source tx)
  apply_manager_event times resolved (auction_cancelled auction_id isin) source tx =
      ok (apply_status_event (codes "CANCELLED") cancelled_status auction_id isin none source tx)
  apply_manager_event times resolved (holder_paid isin holder amount number) source tx =
      apply_bond_event (resolve_isin isin resolved tx.tables) (codes "COUPON_PAID")
        ((codes "holder", holder)
          ∷ (codes "paymentAmount", print_bigint amount)
          ∷ (codes "paymentNumber", print_bigint number)
          ∷ [])
        (some (coupon_paid number (pos (timestamp_of source.block times)))) source tx
  apply_manager_event times resolved (period_paid isin number holders paid) source tx =
      apply_bond_event (resolve_isin isin resolved tx.tables) (codes "COUPON_PERIOD_PAID")
        ((codes "paymentNumber", print_bigint number)
          ∷ (codes "holdersPaid", print_bigint holders)
          ∷ (codes "couponPaid", print_bigint paid)
          ∷ [])
        (some (coupon_paid number (pos (timestamp_of source.block times)))) source tx
  apply_manager_event times resolved (bond_matured isin count principal paid burned) source tx =
      apply_bond_event (resolve_isin isin resolved tx.tables) (codes "MATURED")
        ((codes "paymentCount", print_bigint count)
          ∷ (codes "principalPaid", print_bigint principal)
          ∷ (codes "couponPaid", print_bigint paid)
          ∷ (codes "unsoldBurned", print_bigint burned)
          ∷ [])
        (some matured) source tx
  apply_manager_event times resolved (bond_issuance_complete isin total) source tx =
      apply_issuance_complete isin total source tx
  apply_manager_event times resolved (bond_redeemed isin holder value wnok) source tx =
      apply_bond_event (resolve_isin isin resolved tx.tables) (codes "REDEEMED")
        ((codes "holder", holder)
          ∷ (codes "value", print_bigint value)
          ∷ (codes "wnokAmount", print_bigint wnok)
          ∷ [])
        none source tx
  apply_manager_event times resolved (bond_created isin bond duration) source tx =
      apply_created isin bond duration source tx
  apply_manager_event times resolved (bond_disabled isin) source tx = apply_disabled isin source tx
  apply_manager_event times resolved other_manager_event source tx = ok tx
