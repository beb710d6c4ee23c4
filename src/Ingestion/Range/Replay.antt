-- ===== src/Ingestion/Range/Replay.antt =====
-- ingestion.ts, `processBlockRange`: transfers that are processed again.
use cbdc_tokenization_sandbo.Prelude.{
  All, Bool-cases, Holds, Holds-bind, Holds-map, Holds-ok, List, Option, Text, [], arith,
  case_option, if-holds, none, not, ok, refl, some, text_eq, to_lower_case, true, ◌&&◌, ◌||◌, ◌∙◌,
  ◌∷◌, ◌≡◌,
}
use cbdc_tokenization_sandbo.Ingestion.Range.Frame.{apply_bond_state_event-keeps}
use cbdc_tokenization_sandbo.Ingestion.{Log, TokenEvent}
use cbdc_tokenization_sandbo.Projection.BondState.{supply_delta}
use cbdc_tokenization_sandbo.Ingestion.Writes.Balances.{
  apply_balance_delta-partitions, apply_balance_delta-settled, apply_balance_delta_keeps,
  apply_balance_delta_settles, is_recorded,
}
use cbdc_tokenization_sandbo.Ingestion.Apply.Token.{
  TransferAction, apply_delta, apply_deltas, apply_transfer, is_transfer, transfer_action,
}
use cbdc_tokenization_sandbo.Projection.Balance.{
  TransferBalanceDelta, reduce_partition_transfer, zero_address,
}
use cbdc_tokenization_sandbo.Ingestion.Writes.{
  Source, apply_balance_delta, apply_bond_state_event, get_isin_for_partition,
}
use cbdc_tokenization_sandbo.Database.{ProjectionTables}
use cbdc_tokenization_sandbo.Ingestion.Apply.{Tx, mark_bonds, truthy, write_or_throw}
use cbdc_tokenization_sandbo.Ingestion.Range.{transfer_loop}

-- The change is recorded, or its holder is the zero address.
abbrev pub Settled : Source → ProjectionTables → TransferBalanceDelta → Type 0
Settled source db d =
    (text_eq (to_lower_case d.holder) zero_address || is_recorded source d.holder db) ≡ true

-- Nothing recorded is lost, and partitions stay as they are.
abbrev pub Grows : ProjectionTables → ProjectionTables → Type 0
Grows db db' =
    ((log : Source) (h : Text) → is_recorded log h db ≡ true → is_recorded log h db' ≡ true)
    × (db'.partitions ≡ db.partitions)

Grows-trans : (a b c : ProjectionTables) → Grows a b → Grows b c → Grows a c
Grows-trans a b c g h = ((λ log holder e. h.0 log holder (g.0 log holder e)), h.1 ∙ g.1)

Settled-mono :
    (source : Source) (db db' : ProjectionTables) (d : TransferBalanceDelta)
    → Grows db db'
    → Settled source db d
    → Settled source db' d
Settled-mono source db db' d g e =
    grind (arith, Bool-cases (text_eq (to_lower_case d.holder) zero_address), g.0 source d.holder)

All-Settled-mono :
    (source : Source) (db db' : ProjectionTables) (ds : List TransferBalanceDelta)
    → Grows db db'
    → All (Settled source db) ds
    → All (Settled source db') ds
All-Settled-mono source db db' [] g all_settled = tt
All-Settled-mono source db db' (d ∷ ds) g all_settled = (
  Settled-mono source db db' d g all_settled.0,
  All-Settled-mono source db db' ds g all_settled.1,
)

-- Every change that a transfer makes under the ISIN of its partition, if it has one, is settled.
abbrev ActionSettled : ProjectionTables → TransferAction → Option Text → Type 0
ActionSettled db action isin = case_option isin Unit (λ _.
    All (Settled action.source db) (reduce_partition_transfer action.from action.to action.value))

abbrev LogSettled : ProjectionTables → Option TransferAction → Type 0
LogSettled db log =
    case_option log Unit
      (λ action. ActionSettled db action (truthy (get_isin_for_partition action.partition db)))

abbrev LogsSettled : ProjectionTables → List (Log TokenEvent) → Type 0
LogsSettled db = All (λ log. LogSettled db (transfer_action log))

isin_for-same :
    (db db' : ProjectionTables) (partition : Text)
    → Grows db db'
    → truthy (get_isin_for_partition partition db') ≡ truthy (get_isin_for_partition partition db)
unfolding get_isin_for_partition
isin_for-same db db' partition g = rw (g.1) refl

ActionSettled-mono :
    (db db' : ProjectionTables) (action : TransferAction) (isin : Option Text)
    → Grows db db'
    → ActionSettled db action isin
    → ActionSettled db' action isin
ActionSettled-mono db db' action none g settled = tt
ActionSettled-mono db db' action (some _) g settled =
    All-Settled-mono action.source db db' _ g settled

LogSettled-mono :
    (db db' : ProjectionTables) (log : Option TransferAction)
    → Grows db db'
    → LogSettled db log
    → LogSettled db' log
LogSettled-mono db db' none g settled = tt
LogSettled-mono db db' (some action) g settled = rw (isin_for-same db db' action.partition g) (
    ActionSettled-mono db db' action (truthy (get_isin_for_partition action.partition db)) g
      settled)

Grows-refl : (db : ProjectionTables) → Grows db db
Grows-refl db = ((λ _ _ e. e), refl)

module _ (partition_hash : Text → Text) where
  apply_delta_replays :
      (isin : Text) (source : Source) (d : TransferBalanceDelta) (db : ProjectionTables)
      → Settled source db d
      → apply_delta partition_hash isin source d db ≡ ok db
  unfolding apply_delta
  apply_delta_replays isin source d db settled =
      rw (apply_balance_delta-settled isin d.holder d.delta source d.kind db settled) refl

  apply_delta_settles :
      (isin : Text) (source : Source) (d : TransferBalanceDelta) (db : ProjectionTables)
      → Holds
          (λ db'. Settled source db' d × Grows db db')
          (apply_delta partition_hash isin source d db)
  unfolding apply_delta
  apply_delta_settles isin source d db =
      let applied = apply_balance_delta isin d.holder d.delta source d.kind db in
      let change = supply_delta d.delta in
      let settled = apply_balance_delta_settles isin d.holder d.delta source d.kind db in
      let grows : Grows db applied.0 = (
        apply_balance_delta_keeps isin d.holder d.delta source d.kind db,
        apply_balance_delta-partitions isin d.holder d.delta source d.kind db,
      ) in
      if-holds (Holds (λ db'. Settled source db' d × Grows db db'))
        (applied.1 && not (is_transfer d.kind)) {y = ok applied.0}
        (Holds-map _ (λ db'. Settled source db' d × Grows db db')
          (apply_bond_state_event partition_hash isin change source.block source.log_index
            applied.0)
          (apply_bond_state_event-keeps partition_hash isin change source.block source.log_index
            applied.0)
          (λ db' kept.
            let same : Grows applied.0 db' = ((λ log h e. rw kept.0.1 e), kept.1) in
            (
              Settled-mono source applied.0 db' d same settled,
              Grows-trans db applied.0 db' grows same,
            )))
        (settled, grows)

  apply_deltas_replays :
      (isin : Text) (source : Source) (ds : List TransferBalanceDelta) (db : ProjectionTables)
      → All (Settled source db) ds
      → apply_deltas partition_hash isin source ds db ≡ ok db
  unfolding apply_deltas
  apply_deltas_replays isin source [] db settled = refl
  apply_deltas_replays isin source (d ∷ ds) db settled =
      rw (apply_delta_replays isin source d db settled.0)
        (apply_deltas_replays isin source ds db settled.1)

  apply_deltas_settle :
      (isin : Text) (source : Source) (ds : List TransferBalanceDelta) (db : ProjectionTables)
      → Holds
          (λ db'. All (Settled source db') ds × Grows db db')
          (apply_deltas partition_hash isin source ds db)
  unfolding apply_deltas
  apply_deltas_settle isin source [] db = (tt, Grows-refl db)
  apply_deltas_settle isin source (d ∷ ds) db =
      Holds-bind (λ db'. Settled source db' d × Grows db db')
        (λ db'. All (Settled source db') (d ∷ ds) × Grows db db')
        (apply_delta partition_hash isin source d db) _ (apply_delta_settles isin source d db)
        (λ next first.
          Holds-map _ _ (apply_deltas partition_hash isin source ds next)
            (apply_deltas_settle isin source ds next)
            (λ db' rest. (
              (Settled-mono source next db' d rest.1 first.0, rest.0),
              Grows-trans db next db' first.1 rest.1,
            )))

  transfer_settles :
      (log : Option TransferAction) (tx : Tx)
      → Holds
          (λ (next : Tx). LogSettled next.tables log × Grows tx.tables next.tables)
          (case_option log (ok tx) (λ action. apply_transfer partition_hash action tx))
  unfolding apply_transfer
  transfer_settles none tx = (tt, Grows-refl tx.tables)
  transfer_settles (some action) tx =
      with_isin (truthy (get_isin_for_partition action.partition tx.tables)) refl
    where
      deltas : List TransferBalanceDelta
      deltas = reduce_partition_transfer action.from action.to action.value

      with_isin :
          (isin : Option Text)
          → truthy (get_isin_for_partition action.partition tx.tables) ≡ isin
          → Holds
              (λ (next : Tx). LogSettled next.tables (some action) × Grows tx.tables next.tables)
              (case_option isin (ok tx) (λ known.
                write_or_throw
                  (apply_deltas partition_hash known action.source deltas)
                  (mark_bonds tx)))
      with_isin none e = (rw e tt, Grows-refl tx.tables)
      with_isin (some isin) e =
          Holds-bind _
            (λ (next : Tx). LogSettled next.tables (some action) × Grows tx.tables next.tables)
            (apply_deltas partition_hash isin action.source deltas tx.tables) _
            (apply_deltas_settle isin action.source deltas tx.tables)
            (λ db' done.
              (rw (isin_for-same tx.tables db' action.partition done.1, e) done.0, done.1))

  transfer_replays :
      (log : Option TransferAction) (tx : Tx)
      → LogSettled tx.tables log
      → (next : Tx) × (case_option log (ok tx) (λ action. apply_transfer partition_hash action tx)
          ≡ ok next)
        × (next.tables ≡ tx.tables)
  unfolding apply_transfer
  transfer_replays none tx settled = (tx, refl, refl)
  transfer_replays (some action) tx settled =
      with_isin (truthy (get_isin_for_partition action.partition tx.tables)) settled
    where
      with_isin :
          (isin : Option Text)
          → ActionSettled tx.tables action isin
          → (next : Tx) × (case_option isin (ok tx) (λ known.
                write_or_throw
                  (apply_deltas partition_hash known action.source
                    (reduce_partition_transfer action.from action.to action.value))
                  (mark_bonds tx))
              ≡ ok next)
            × (next.tables ≡ tx.tables)
      with_isin none all_settled = (tx, refl, refl)
      with_isin (some isin) all_settled = (
        mark_bonds tx,
        rw (apply_deltas_replays isin action.source _ tx.tables all_settled) refl,
        refl,
      )

  transfer_loop_settles :
      (logs : List (Log TokenEvent)) (tx : Tx)
      → Holds
          (λ (next : Tx). LogsSettled next.tables logs × Grows tx.tables next.tables)
          (transfer_loop partition_hash logs tx)
  unfolding transfer_loop
  transfer_loop_settles [] tx = (tt, Grows-refl tx.tables)
  transfer_loop_settles (log ∷ logs) tx =
      Holds-bind _
        (λ (next : Tx). LogsSettled next.tables (log ∷ logs) × Grows tx.tables next.tables) _ _
        (transfer_settles (transfer_action log) tx)
        (λ next first.
          Holds-map _ _ (transfer_loop partition_hash logs next) (transfer_loop_settles logs next)
            (λ last rest. (
              (
                LogSettled-mono next.tables last.tables (transfer_action log) rest.1 first.0,
                rest.0,
              ),
              Grows-trans tx.tables next.tables last.tables first.1 rest.1,
            )))

  transfer_loop_replays :
      (logs : List (Log TokenEvent)) (tx : Tx)
      → LogsSettled tx.tables logs
      → (next : Tx) × (transfer_loop partition_hash logs tx ≡ ok next) × (next.tables ≡ tx.tables)
  unfolding transfer_loop
  transfer_loop_replays [] tx settled = (tx, refl, refl)
  transfer_loop_replays (log ∷ logs) tx settled =
      let (first, applied, same) = transfer_replays (transfer_action log) tx settled.0 in
      let (last, applied', same') = transfer_loop_replays logs first (rw same settled.1) in
      (last, rw (applied, applied') refl, same' ∙ same)

  -- Processing the transfers of a range again, on the tables that the first time left, succeeds and
  -- changes no table: neither balances nor supplies count a transfer twice.
  pub transfer_loop-replay :
      (logs : List (Log TokenEvent)) (tx tx' : Tx)
      → transfer_loop partition_hash logs tx ≡ ok tx'
      → (again : Tx) × (transfer_loop partition_hash logs tx' ≡ ok again)
        × (again.tables ≡ tx'.tables)
  transfer_loop-replay logs tx tx' applied =
      transfer_loop_replays logs tx' (Holds-ok _ (transfer_loop_settles logs tx) applied).0
