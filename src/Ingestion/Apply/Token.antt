-- ===== src/Ingestion/Apply/Token.antt =====
-- ingestion.ts, `processBlockRange`: the logs of the BondToken contract, the lifecycle of its bonds
-- and the movements of units.
use cbdc_tokenization_sandbo.Prelude.{
  Bool, List, Option, Result, Text, [], case_option, false, if◌then◌else◌, none, not, ok, pos, some,
  to_lower_case, true, ℕ, ℤ, ◌&&◌, ◌>>=◌, ◌∷◌,
}
use cbdc_tokenization_sandbo.Ingestion.Writes.{
  Source, apply_balance_delta, apply_bond_state_event, get_isin_for_partition,
}
use cbdc_tokenization_sandbo.Ingestion.{
  Log, TokenEvent, isin_disabled, isin_enabled, isin_extended, isin_issued, isin_reduced,
  other_token_event, transfer_by_partition,
}
use cbdc_tokenization_sandbo.Projection.Balance.{
  TransferBalanceDelta, TransferKind, reduce_partition_transfer, transfer,
}
use cbdc_tokenization_sandbo.Database.{ProjectionTables}
use cbdc_tokenization_sandbo.Ingestion.Apply.{
  Tx, mark_bonds, source_of, timestamp_of, truthy, write_or_throw,
}
use cbdc_tokenization_sandbo.Projection.BondState.{
  BondProjectionEvent, disabled, enabled, issued, offering_changed, supply_delta,
}

-- `args.isin`, if it is a text that is not empty.
unfoldable pub token_isin : TokenEvent → Option Text
token_isin (transfer_by_partition _ _ _ _) = none
token_isin (isin_issued isin _) = truthy (some isin)
token_isin (isin_enabled isin _ _) = truthy (some isin)
token_isin (isin_extended isin _) = truthy (some isin)
token_isin (isin_reduced isin _) = truthy (some isin)
token_isin (isin_disabled isin) = truthy (some isin)
token_isin (other_token_event isin) = truthy isin

-- The event of the bond that a log of the token contract stands for.
unfoldable pub token_projection : TokenEvent → ℕ → Option BondProjectionEvent
token_projection (isin_issued _ offering) time = some (issued offering)
token_projection (isin_enabled _ duration yield) time = some (enabled duration yield (pos time))
token_projection (isin_extended _ offering) time = some (offering_changed offering)
token_projection (isin_reduced _ offering) time = some (offering_changed offering)
token_projection (isin_disabled _) time = some (disabled true)
token_projection _ time = none

pub record TransferAction : Type 0 where
  pub partition : Text
  pub from : Text
  pub to : Text
  pub value : ℤ
  pub source : Source

unfoldable pub transfer_action : Log TokenEvent → Option TransferAction
transfer_action log = action log.event
  where
    action : TokenEvent → Option TransferAction
    action (transfer_by_partition partition from to value) = some (record {
      partition = partition;
      from = to_lower_case from;
      to = to_lower_case to;
      value = value;
      source = source_of log;
    })
    action _ = none

abbrev pub is_transfer : TransferKind → Bool
is_transfer transfer = true
is_transfer _ = false

module _ (partition_hash : Text → Text) where
  unfoldable pub apply_token_event : List (ℕ × ℕ) → TokenEvent → Source → Tx → Result Tx
  apply_token_event times event source tx = case_option (token_isin event) (ok tx) (λ isin.
      case_option (token_projection event (timestamp_of source.block times)) (ok tx) (λ change.
        write_or_throw
          (apply_bond_state_event partition_hash isin change source.block source.log_index) tx))

  -- One change of a balance; a mint or a burn that was written changes the supply too.
  unfoldable pub apply_delta :
      Text → Source → TransferBalanceDelta → ProjectionTables → Result ProjectionTables
  apply_delta isin source d db =
      let (next, wrote) = apply_balance_delta isin d.holder d.delta source d.kind db in
      if wrote && not (is_transfer d.kind)
      then apply_bond_state_event partition_hash isin (supply_delta d.delta) source.block
          source.log_index next
      else ok next

  unfoldable pub apply_deltas :
      Text → Source → List TransferBalanceDelta → ProjectionTables → Result ProjectionTables
  apply_deltas isin source [] db = ok db
  apply_deltas isin source (d ∷ ds) db = do
    next ← apply_delta isin source d db
    apply_deltas isin source ds next

  -- A transfer of a partition that no ISIN is known for is skipped.
  unfoldable pub apply_transfer : TransferAction → Tx → Result Tx
  apply_transfer action tx =
      case_option (truthy (get_isin_for_partition action.partition tx.tables)) (ok tx) (λ isin.
        write_or_throw
          (apply_deltas isin action.source
            (reduce_partition_transfer action.from action.to action.value))
          (mark_bonds tx))
