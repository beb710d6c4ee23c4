-- ===== src/Ingestion/Window/Service.antt =====
-- ingestion.ts, `processTo`: a call of the loop as its callers see it.
use cbdc_tokenization_sandbo.Prelude.{
  Bool, Error, Holds, Holds-any, Holds-bind, Holds-both, Holds-ok, Option, Result, ap, arith,
  case_option, case_result-holds, err, false, inl, inr, int_laws, ltb, ltb→lt, max, minus_parts, ok,
  pos, refl, some, suc, sym, true, zero, ℕ, ◌+◌, ◌-ℤ◌, ◌<◌, ◌∙◌, ◌≡◌, ◌≤◌, ◌⊎◌,
}
use cbdc_tokenization_sandbo.Ingestion.Window.{
  Loop, Outcome, failed, finished, manager_contract, out_of_fuel, process_to, process_window,
  process_windows, push_error, reached, settle, ticked,
}
use cbdc_tokenization_sandbo.Ingestion.Window.Laws.{
  process_window-next, process_windows-keeps, turn-holds, window_end,
}
use cbdc_tokenization_sandbo.Ingestion.Read.{Chain}
use cbdc_tokenization_sandbo.Ingestion.Range.{RangeResult, process_block_range}
use cbdc_tokenization_sandbo.Ingestion.Range.Balances.{
  process_block_range-IsReconciled, process_block_range-checkpoint,
}
use cbdc_tokenization_sandbo.Ingestion.Writes.{load_checkpoint}
use cbdc_tokenization_sandbo.Database.{Checkpoint}
use cbdc_tokenization_sandbo.Ingestion.Writes.Balances.{IsReconciled}

-- The checkpoint of the database is the next block, and the block before it is the last processed.
abbrev pub IsInStep : ℕ → Loop → Type 0
IsInStep start st =
    ((load_checkpoint start manager_contract st.tables).last_block ≡ st.next_block)
    × (st.last_block_processed ≡ some (pos st.next_block -ℤ pos 1))

abbrev pub IsSound : ℕ → Loop → Type 0
IsSound start st = IsInStep start st × IsReconciled st.tables

last_of_next : (to : ℕ) → pos (to + 1) -ℤ pos 1 ≡ pos to
last_of_next to = omega int_laws

module _ (chain : Chain) (start : ℕ) where
  process_window-IsSound :
      (from to : ℕ) (st : Loop)
      → IsReconciled st.tables
      → Holds (IsSound start) (process_window chain from to st)
  unfolding process_window
  process_window-IsSound from to st agree = Holds-any _ (chain.get_block to) _ (λ block.
      Holds-any _ (case_option block _ ok) _ (λ time.
        let checkpoint : Checkpoint = record {
          contract = manager_contract;
          last_block = to + 1;
          last_tx_index = 0;
          block_timestamp = some time;
        } in
        Holds-bind
          (λ (r : RangeResult).
            (load_checkpoint start manager_contract r.tables ≡ checkpoint) × IsReconciled r.tables)
          (IsSound start) (process_block_range chain from to checkpoint st.tables) _
          (Holds-both _ _ _
            (process_block_range-checkpoint chain from to start checkpoint st.tables)
            (process_block_range-IsReconciled chain from to checkpoint st.tables agree))
          (λ done facts. (
            (ap (λ (c : Checkpoint). c.last_block) facts.0, ap some (sym (last_of_next to))),
            facts.1,
          ))))

  process_windows-IsSound :
      (fuel latest : ℕ) (st : Loop)
      → IsSound start st
      → IsSound start (process_windows fuel chain latest st).0
  process_windows-IsSound fuel latest st sound =
      process_windows-keeps chain (IsSound start) fuel latest st
        (λ st' sound' _. process_window-IsSound st'.next_block (window_end latest st') st' sound'.1)
        sound

  settle-IsSound :
      (now : ℕ) (target : Option ℕ) (r : Loop × Outcome)
      → IsSound start r.0
      → IsSound start (settle now target r).0
  unfolding settle
  settle-IsSound now target (st, finished) sound = sound
  settle-IsSound now target (st, failed e) sound = sound
  settle-IsSound now target (st, out_of_fuel) sound = sound

  -- A call of the loop, whether it returns true or fails at any window, leaves the checkpoint in the
  -- database equal to the next block in memory, the last processed block just before it, and every
  -- balance equal to the sum of its recorded changes, if they were so before.
  pub process_to-IsSound :
      (head : Result ℕ) (now : ℕ) (target : Option ℕ) (st : Loop)
      → IsSound start st
      → IsSound start (process_to chain head now target st).0
  unfolding process_to
  process_to-IsSound head now target st sound = settle-IsSound now target _ (
      case_result-holds (λ (r : Loop × Outcome). IsSound start r.0) (case_option target head ok)
        (λ e _. sound)
        (λ latest _. process_windows-IsSound (latest + 2) latest (ticked now st) sound))

  -- A state that is in step reports a block as reached exactly if the next block is later.
  reached-InStep :
      (st : Loop) (block : ℕ)
      → IsInStep start st
      → reached st.last_block_processed block ≡ ltb block st.next_block
  reached-InStep st block step =
      rw (step.1) (ground (arith, minus_parts (pos st.next_block) (pos 1)))

  settle-honest :
      (now target : ℕ) (r : Loop × Outcome)
      → IsInStep start r.0
      → (settle now (some target) r).1 ≡ true
      → target < (settle now (some target) r).0.next_block
  unfolding settle
  settle-honest now target (st, finished) step e =
      ltb→lt target st.next_block (sym (reached-InStep st target step) ∙ e)
  settle-honest now target (st, failed _) step e = ground arith
  settle-honest now target (st, out_of_fuel) step e = ground arith

  settle-finished :
      (now target : ℕ) (r : Loop × Outcome)
      → IsInStep start r.0
      → r.1 ≡ finished
      → target < r.0.next_block
      → ((settle now (some target) r).1 ≡ true)
        × ((settle now (some target) r).0.next_block ≡ r.0.next_block)
  unfolding settle
  settle-finished now target (st, finished) step e later =
      (reached-InStep st target step ∙ ground arith, refl)
  settle-finished now target (st, failed _) step e later = ground arith
  settle-finished now target (st, out_of_fuel) step e later = ground arith

  -- `true` is only returned when the block that was asked for is processed and in the database.
  pub process_to-honest :
      (head : Result ℕ) (now target : ℕ) (st : Loop)
      → IsSound start st
      → (process_to chain head now (some target) st).1 ≡ true
      → target
        < (load_checkpoint start manager_contract
            (process_to chain head now (some target) st).0.tables).last_block
  unfolding process_to
  process_to-honest head now target st sound e =
      rw (process_to-IsSound head now (some target) st sound).0.0 (
        settle-honest now target _
          (process_windows-IsSound (target + 2) target (ticked now st) sound).0 e)

  -- How the windows end: past the head, or before a window that throws.
  abbrev EndsAt : ℕ → Loop → Loop × Outcome → Type 0
  EndsAt latest st r =
      ((r.1 ≡ finished) × (r.0.next_block ≡ max st.next_block (latest + 1)))
      ⊎ ((e : Error) × (r.1 ≡ failed e)
          × (process_window chain r.0.next_block (window_end latest r.0) r.0 ≡ err e)
          × (st.next_block ≤ r.0.next_block)
          × (r.0.next_block ≤ latest))

  EndsAt-later :
      (latest : ℕ) (st next : Loop) (r : Loop × Outcome)
      → st.next_block ≤ latest
      → next.next_block ≡ window_end latest st + 1
      → EndsAt latest next r
      → EndsAt latest st r
  EndsAt-later latest st next r more moved (inl (all_done, there)) =
      inl (all_done, there ∙ ground (arith, moved))
  EndsAt-later latest st next r more moved (inr (e, stopped, throws, below, above)) =
      inr (e, stopped, throws, ground arith, above)

  -- The windows finish past the head, or stop at the window that throws.
  process_windows-ends :
      (fuel latest : ℕ) (st : Loop)
      → latest + 1 < fuel + st.next_block
      → 0 < fuel
      → EndsAt latest st (process_windows fuel chain latest st)
  unfolding process_windows
  process_windows-ends zero latest st enough some_fuel = grind arith
  process_windows-ends (suc fuel) latest st enough some_fuel =
      turn-holds (EndsAt latest st) latest st _ (λ ended. inl (refl, omega arith))
        (λ more.
          case_result-holds (EndsAt latest st)
            (process_window chain st.next_block (window_end latest st) st)
            (λ e failing. inr (e, refl, failing, omega arith, more))
            (λ next done.
              let moved =
                Holds-ok _ (process_window-next chain st.next_block (window_end latest st) st)
                  done in
              EndsAt-later latest st next (process_windows fuel chain latest next) more moved.0
                (process_windows-ends fuel latest next (ground arith) (ground arith))))

  -- What a call for a block returns: true, with the chain processed up to that block; or false, since
  -- a window throws in the state that the windows before it left, which stays but for the failure.
  abbrev pub ReachesOrStops : ℕ → ℕ → Loop → Loop × Bool → Type 0
  ReachesOrStops now target st call =
      ((call.1 ≡ true) × (call.0.next_block ≡ max st.next_block (target + 1)))
      ⊎ ((call.1 ≡ false)
          × ((stopped : Loop) × (e : Error) × (process_window chain stopped.next_block
                  (window_end target stopped) stopped
                ≡ err e)
              × (st.next_block ≤ stopped.next_block)
              × (stopped.next_block ≤ target)
              × (call.0 ≡ record stopped {
                consecutive_failures = stopped.consecutive_failures + 1;
                recent_errors = push_error now e stopped.recent_errors;
              })))

  settle-failed :
      (now target : ℕ) (r : Loop × Outcome) (e : Error)
      → r.1 ≡ failed e
      → settle now (some target) r ≡ (
        record r.0 {
          consecutive_failures = r.0.consecutive_failures + 1;
          recent_errors = push_error now e r.0.recent_errors;
        },
        false,
      )
  unfolding settle
  settle-failed now target (st, outcome) e failing = rw (failing) refl

  -- A call for a block from a sound state returns true and has processed the chain up to that block,
  -- or returns false because one window throws in the state that the windows before it left; that
  -- window starts at a block that is asked for and not processed yet, and its failure is recorded.
  pub process_to-reaches :
      (head : Result ℕ) (now target : ℕ) (st : Loop)
      → IsSound start st
      → ReachesOrStops now target st (process_to chain head now (some target) st)
  unfolding process_to
  process_to-reaches head now target st sound =
      let r = process_windows (target + 2) chain target (ticked now st) in
      let step = (process_windows-IsSound (target + 2) target (ticked now st) sound).0 in
      elim (process_windows-ends (target + 2) target (ticked now st) (ground arith)
        (ground arith)) [
          | inl (all_done, there) ↦
              let told = settle-finished now target r step all_done (omega (arith, there)) in
              inl (told.0, told.1 ∙ there)
          | inr (e, stopped, throws, below, above) ↦
              rw (settle-failed now target r e stopped)
                (inr (refl, (r.0, e, throws, below, above, refl)))
        ]
