-- ===== src/Ingestion/Window.antt =====
-- ingestion.ts: the windows of blocks that the loop processes, and the loop.
pub mod Laws
pub mod Service
use cbdc_tokenization_sandbo.Prelude.{
  Bool, Error, List, Option, Result, Text, case_option, case_result, codes, err, false,
  if◌then◌else◌, leb_ℤ, ltb, max, min, missing_checkpoint_block, none, ok, pos, some, suc, take,
  true, zero, ℕ, ℤ, ◌+◌, ◌-ℤ◌, ◌>>=◌, ◌>>◌, ◌∷◌,
}
use cbdc_tokenization_sandbo.Ingestion.Range.{Located, process_block_range}
use cbdc_tokenization_sandbo.Database.{ProjectionContext, ProjectionTables}
use cbdc_tokenization_sandbo.Ingestion.Read.{Chain}
use cbdc_tokenization_sandbo.Ingestion.Apply.{truthy}
use cbdc_tokenization_sandbo.Ingestion.Writes.{coalesce, load_checkpoint}

unfoldable pub compute_ingestion_window : ℕ → ℕ → ℕ → Option (ℕ × ℕ)
compute_ingestion_window next_block latest batch_size =
    if ltb latest next_block then none else some (next_block, min latest (next_block + batch_size))

abbrev pub batch_size : ℕ
batch_size = 500

abbrev pub manager_contract : Text
manager_contract = codes "bond-manager"

-- The state of the module, and the projection that it writes.
pub record Loop : Type 0 where
  pub tables : ProjectionTables
  pub next_block : ℕ
  pub last_tick_at : Option ℕ
  pub last_block_processed : Option ℤ
  pub last_event_tx_hash : Option Text
  pub consecutive_failures : ℕ
  -- newest first
  pub recent_errors : List (ℕ × Error)
  -- what `publishLiveChange` was called with: auctions, bonds; newest first
  pub published : List (Bool × Bool)

abbrev pub recent_errors_max : ℕ
recent_errors_max = 10

unfoldable pub push_error : ℕ → Error → List (ℕ × Error) → List (ℕ × Error)
push_error now error errors = take recent_errors_max ((now, error) ∷ errors)

abbrev transaction_of : Located → Text
transaction_of located_log = located_log.2

-- One window: the body of the `while`.
unfoldable pub process_window : Chain → ℕ → ℕ → Loop → Result Loop
process_window chain from to st = do
  block ← chain.get_block to
  time ← case_option block (err (missing_checkpoint_block to)) ok
  done ←
      process_block_range chain from to
        (record {
          contract = manager_contract;
          last_block = to + 1;
          last_tx_index = 0;
          block_timestamp = some time;
        })
        st.tables
  ok (record st {
    tables = done.tables;
    next_block = to + 1;
    last_block_processed = some (pos to);
    last_event_tx_hash =
        coalesce (truthy (case_option done.latest none (λ l. some (transaction_of l))))
          st.last_event_tx_hash;
    published = (done.auctions_changed, done.bonds_changed) ∷ st.published;
  })

-- How the `while` ends: the head is reached, a window throws, or the fuel is spent.
pub data Outcome : Type 0 where
  finished : Outcome
  failed : Error → Outcome
  out_of_fuel : Outcome

-- A window that throws leaves the state as the windows before it left it.
unfoldable pub process_windows : ℕ → Chain → ℕ → Loop → Loop × Outcome
process_windows zero chain latest st = (st, out_of_fuel)
process_windows (suc fuel) chain latest st =
    case_option (compute_ingestion_window st.next_block latest batch_size) (st, finished)
      (λ window.
        case_result (process_window chain window.0 window.1 st) (λ e. (st, failed e))
          (process_windows fuel chain latest))

abbrev reached : Option ℤ → ℕ → Bool
reached none block = false
reached (some processed) block = leb_ℤ (pos block) processed

-- What the call returns, and the counters that it leaves.
unfoldable pub settle : ℕ → Option ℕ → Loop × Outcome → Loop × Bool
settle now target (st, finished) = (
  record st { consecutive_failures = 0 },
  case_option target true (reached st.last_block_processed),
)
settle now target (st, failed e) = (
  record st {
    consecutive_failures = st.consecutive_failures + 1;
    recent_errors = push_error now e st.recent_errors;
  },
  false,
)
settle now target (st, out_of_fuel) = (st, false)

-- `lastTickAt = Date.now()`
abbrev pub ticked : ℕ → Loop → Loop
ticked now st = record st { last_tick_at = some now }

-- The fuel is one more than the windows that can be left: each takes one block at least.
unfoldable pub process_to : Chain → Result ℕ → ℕ → Option ℕ → Loop → Loop × Bool
process_to chain head now target st = settle now target (
    case_result (case_option target head ok) (λ e. (ticked now st, failed e))
      (λ latest. process_windows (latest + 2) chain latest (ticked now st)))

-- The start of the loop on an open database: the context of the projection is written, and the loop
-- goes on where the checkpoint stands.
unfoldable pub start_loop : ℕ → ProjectionContext → ProjectionTables → Loop → Loop
start_loop start_block context db st =
    let tables : ProjectionTables = record db { projection_context = some context } in
    let next : ℕ = (load_checkpoint start_block manager_contract tables).last_block in
    record st {
      tables = tables;
      next_block = next;
      last_block_processed = some (pos (max start_block next) -ℤ pos 1);
    }
