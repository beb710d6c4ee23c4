-- ===== src/Examples/Ingest.antt =====
-- Theorems on the ingestion of blocks at one chain each: an idle one, and one that issues a bond and
-- mints five units of it in block 3.
use mathlib.Core.Bool.{false, true}
use cbdc_tokenization_sandbo.Prelude.{
  Holds, Result, Text, [], arith, codes, err, if◌then◌else◌, negsuc, none, ok, pos, refl, some,
  text_eq, to_lower_case, ℕ, ℤ, ◌+ℤ◌, ◌-ℤ◌, ◌<◌, ◌==◌, ◌∷◌, ◌≡◌, ◌≢◌, ◌≤◌, ◌⊎◌,
}
use cbdc_tokenization_sandbo.Database.Table.{
  find_row, has_row, insert_or_ignore, update_rows, upsert,
}
use cbdc_tokenization_sandbo.Projection.Balance.{mint, reduce_partition_transfer, zero_address}
use cbdc_tokenization_sandbo.Ingestion.Read.{
  Chain, RawLog, block_timestamps, blocks_needed, decode_events, final_allocations,
  needs_auction_time, needs_token_time, partitions_needing_resolution, read_facts,
  resolve_partitions, timestamp_blocks,
}
use cbdc_tokenization_sandbo.Ingestion.Apply.{Tx, timestamp_of, truthy}
use cbdc_tokenization_sandbo.Ingestion.Range.Replay.{transfer_loop-replay}
use cbdc_tokenization_sandbo.Ingestion.Window.Laws.{
  compute_ingestion_window-covers, process_windows-finishes,
}
use cbdc_tokenization_sandbo.Database.{Checkpoint, empty_projection}
use cbdc_tokenization_sandbo.Ingestion.Writes.{
  apply_balance_delta, apply_bond_state_event, balance_of, get_isin_for_partition, load_bond_state,
  load_checkpoint, save_bond_state, save_checkpoint, upsert_partition,
}
use cbdc_tokenization_sandbo.Ingestion.Window.{
  Loop, compute_ingestion_window, manager_contract, out_of_fuel, process_to, process_window,
  process_windows, settle,
}
use cbdc_tokenization_sandbo.Ingestion.Range.{
  RangeResult, apply_facts, auction_loop, later_of, latest_log, latest_of, manager_loop,
  process_block_range, token_loop, transfer_loop, write_resolved, write_token_partitions,
}
use cbdc_tokenization_sandbo.Ingestion.Range.Balances.{
  process_block_range-IsReconciled, process_block_range-checkpoint,
}
use cbdc_tokenization_sandbo.Ingestion.Window.Service.{
  IsSound, ReachesOrStops, process_to-IsSound, process_to-honest, process_to-reaches,
}
use cbdc_tokenization_sandbo.Ingestion.Writes.Balances.{
  IsReconciled, apply_balance_delta-IsReconciled,
}
use cbdc_tokenization_sandbo.Ingestion.{Log, TokenEvent, isin_issued, transfer_by_partition}
use cbdc_tokenization_sandbo.Ingestion.Apply.Token.{
  apply_delta, apply_deltas, apply_token_event, apply_transfer, token_isin, token_projection,
  transfer_action,
}
use cbdc_tokenization_sandbo.Projection.BondState.{
  advance_position, apply_event, empty_bond_state, reduce_bond_state,
}

abbrev holder_a : Text
holder_a = codes "0xaa"

abbrev isin_a : Text
isin_a = codes "NO001"

abbrev idle : Chain
idle = record {
  manager_address = codes "0x01";
  token_address = codes "0x02";
  auction_address = codes "0x03";
  get_logs = λ _ _ _. ok [];
  parse_manager = λ _. none;
  parse_token = λ _. none;
  parse_auction = λ _. none;
  get_block = λ _. ok (some 1000);
  partition_to_isin = λ _. none;
  get_allocations = λ _ _. ok [];
  partition_hash = λ isin. isin;
}

abbrev raw : ℕ → RawLog
raw n = record { block_number = 3; index = n; transaction_hash = codes "0xt"; contents = [] }

abbrev minting : Chain
minting = record idle {
  get_logs = λ address _ _. ok (if text_eq address (codes "0x02") then raw 0 ∷ raw 1 ∷ [] else []);
  parse_token = λ log. some (
      if log.index == 0
      then isin_issued isin_a (pos 9)
      else transfer_by_partition isin_a zero_address holder_a (pos 5));
}

empty-IsReconciled : IsReconciled empty_projection
unfolding balance_of find_row
empty-IsReconciled isin holder = refl

abbrev at_genesis : Loop
at_genesis = record {
  tables = empty_projection;
  next_block = 0;
  last_tick_at = none;
  last_block_processed = some (negsuc 0);
  last_event_tx_hash = none;
  consecutive_failures = 0;
  recent_errors = [];
  published = [];
}

at_genesis-IsSound : IsSound 0 at_genesis
unfolding load_checkpoint find_row ◌-ℤ◌
at_genesis-IsSound = ((refl, refl), empty-IsReconciled)

abbrev checkpoint_five : Checkpoint
checkpoint_five = record {
  contract = manager_contract;
  last_block = 5;
  last_tx_index = 0;
  block_timestamp = some 1000;
}

process_to-IsSound_example : IsSound 0 (process_to minting (ok 4) 7 none at_genesis).0
process_to-IsSound_example =
    process_to-IsSound minting 0 (ok 4) 7 none at_genesis at_genesis-IsSound

process_block_range-IsReconciled_example :
    Holds
      (λ (r : RangeResult). IsReconciled r.tables)
      (process_block_range minting 0 4 checkpoint_five empty_projection)
process_block_range-IsReconciled_example =
    process_block_range-IsReconciled minting 0 4 checkpoint_five empty_projection empty-IsReconciled

-- The range is processed: the holder has five units afterwards.
abbrev balance_after : Result RangeResult → ℤ
balance_after (ok r) = balance_of isin_a holder_a r.tables.balances
balance_after (err _) = pos 0

process_block_range-mints :
    balance_after (process_block_range minting 0 4 checkpoint_five empty_projection) ≡ pos 5
unfolding process_block_range read_facts partitions_needing_resolution final_allocations
    decode_events block_timestamps timestamp_blocks blocks_needed apply_facts manager_loop
    token_loop needs_token_time needs_auction_time auction_loop write_resolved
    write_token_partitions apply_token_event token_isin token_projection upsert_partition
    timestamp_of save_checkpoint apply_event resolve_partitions latest_log latest_of later_of
    transfer_loop transfer_action apply_transfer get_isin_for_partition truthy apply_deltas
    apply_delta apply_balance_delta insert_or_ignore upsert update_rows has_row find_row balance_of
    reduce_partition_transfer zero_address to_lower_case text_eq apply_bond_state_event
    load_bond_state save_bond_state reduce_bond_state advance_position empty_bond_state ◌+ℤ◌
process_block_range-mints = refl

process_block_range-checkpoint_example :
    Holds
      (λ (r : RangeResult). load_checkpoint 0 manager_contract r.tables ≡ checkpoint_five)
      (process_block_range minting 0 4 checkpoint_five empty_projection)
process_block_range-checkpoint_example =
    process_block_range-checkpoint minting 0 4 0 checkpoint_five empty_projection

apply_balance_delta-IsReconciled_run :
    IsReconciled
      (apply_balance_delta isin_a holder_a
        (pos 5)
        (record { block = 3; log_index = 1; tx_hash = codes "0xt" })
        mint
        empty_projection).0
apply_balance_delta-IsReconciled_run =
    apply_balance_delta-IsReconciled isin_a holder_a (pos 5)
      (record { block = 3; log_index = 1; tx_hash = codes "0xt" }) mint empty_projection
      empty-IsReconciled

process_to-reaches_example :
    ReachesOrStops minting 0 7 4 at_genesis (process_to minting (ok 4) 7 (some 4) at_genesis)
process_to-reaches_example = process_to-reaches minting 0 (ok 4) 7 4 at_genesis at_genesis-IsSound

reached_true : (process_to idle (ok 3) 7 (some 3) at_genesis).1 ≡ true
unfolding process_to process_windows compute_ingestion_window process_window process_block_range
    read_facts partitions_needing_resolution final_allocations decode_events block_timestamps
    timestamp_blocks blocks_needed apply_facts manager_loop token_loop transfer_loop settle
reached_true = refl

process_to-honest_example :
    3
    < (load_checkpoint 0 manager_contract
        (process_to idle (ok 3) 7 (some 3) at_genesis).0.tables).last_block
process_to-honest_example =
    process_to-honest idle 0 (ok 3) 7 3 at_genesis at_genesis-IsSound reached_true

process_windows-finishes_example : (process_windows 3 idle 1 at_genesis).1 ≢ out_of_fuel
process_windows-finishes_example =
    process_windows-finishes idle 3 1 at_genesis (omega arith) (omega arith)

compute_ingestion_window-covers_example :
    ((compute_ingestion_window 3 3 500 ≡ none) × (3 < 3))
    ⊎ ((to : ℕ) × (compute_ingestion_window 3 3 500 ≡ some (3, to))
        × (3 ≤ to)
        × (to ≤ 3)
        × (to ≤ 503)
        × ((to ≡ 3) ⊎ (to ≡ 503)))
compute_ingestion_window-covers_example = compute_ingestion_window-covers 3 3 500

abbrev mint_log : Log TokenEvent
mint_log = record {
  block = 3;
  log_index = 1;
  tx_hash = codes "0xt";
  event = transfer_by_partition isin_a zero_address holder_a (pos 5);
}

abbrev mapped : Tx
mapped = record {
  tables = record empty_projection {
    partitions =
        record {
          partition = codes "no001";
          isin = isin_a;
          bond = none;
          created_block = none;
          disabled = false;
        }
        ∷ [];
  };
  auctions_changed = false;
  bonds_changed = false;
}

abbrev value_or : {A : Type 0} → A → Result A → A
value_or a (ok b) = b
value_or a (err _) = a

abbrev moved : Tx
moved = value_or mapped (transfer_loop (λ isin. isin) (mint_log ∷ []) mapped)

moved_ok : transfer_loop (λ isin. isin) (mint_log ∷ []) mapped ≡ ok moved
unfolding transfer_loop transfer_action apply_transfer get_isin_for_partition truthy apply_deltas
    apply_delta apply_balance_delta insert_or_ignore upsert update_rows has_row find_row balance_of
    reduce_partition_transfer zero_address to_lower_case text_eq apply_bond_state_event
    load_bond_state save_bond_state reduce_bond_state advance_position empty_bond_state ◌+ℤ◌
    apply_event
moved_ok = refl

transfer_loop-replay_example :
    (again : Tx) × (transfer_loop (λ isin. isin) (mint_log ∷ []) moved ≡ ok again)
    × (again.tables ≡ moved.tables)
transfer_loop-replay_example =
    transfer_loop-replay (λ isin. isin) (mint_log ∷ []) mapped moved moved_ok
