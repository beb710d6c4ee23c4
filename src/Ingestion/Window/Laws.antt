-- ===== src/Ingestion/Window/Laws.antt =====
-- ingestion.ts: `computeIngestionWindow` and the turns of the loop.
use cbdc_tokenization_sandbo.Prelude.{
  Bool-cases, Holds, Holds-any, Holds-ok, arith, case_option, case_result-holds, inl, inr, ltb,
  ltb→lt, min, none, ok, pos, refl, some, suc, zero, ℕ, ◌+◌, ◌<◌, ◌≡◌, ◌≢◌, ◌≤◌, ◌⊎◌,
}
use cbdc_tokenization_sandbo.Ingestion.Window.{
  Loop, Outcome, batch_size, compute_ingestion_window, out_of_fuel, process_window, process_windows,
}
use cbdc_tokenization_sandbo.Ingestion.Read.{Chain}
use cbdc_tokenization_sandbo.Ingestion.Range.{process_block_range}

-- There is a window exactly when the chain has a block that is not processed; it starts at the first
-- such block, is not empty, and stays within the chain and the batch.
pub compute_ingestion_window-covers :
    (next latest size : ℕ)
    → ((compute_ingestion_window next latest size ≡ none) × (latest < next))
      ⊎ ((to : ℕ) × (compute_ingestion_window next latest size ≡ some (next, to))
          × (next ≤ to)
          × (to ≤ latest)
          × (to ≤ next + size)
          × ((to ≡ latest) ⊎ (to ≡ next + size)))
unfolding compute_ingestion_window
compute_ingestion_window-covers next latest size = elim (Bool-cases (ltb latest next)) [
  | inl e ↦ inl (rw e refl, ltb→lt latest next e)
  | inr e ↦
      inr (
        min latest (next + size),
        rw e refl,
        ground arith,
        ground arith,
        ground arith,
        ground arith,
      )
]

abbrev pub window_end : ℕ → Loop → ℕ
window_end latest st = min latest (st.next_block + batch_size)

-- The case of one turn of the loop.
pub turn-holds :
    {B : Type 0} (P : B → Type 0) (latest : ℕ) (st : Loop) {b : B} (f : ℕ × ℕ → B)
    → (latest < st.next_block → P b)
    → (st.next_block ≤ latest → P (f (st.next_block, window_end latest st)))
    → P (case_option (compute_ingestion_window st.next_block latest batch_size) b f)
unfolding compute_ingestion_window
turn-holds P latest st f pb pf = elim (Bool-cases (ltb latest st.next_block)) [
  | inl e ↦ rw e (pb (ltb→lt latest st.next_block e))
  | inr e ↦ rw e (pf (ground arith))
]

module _ (chain : Chain) where
  pub process_window-next :
      (from to : ℕ) (st : Loop)
      → Holds
          (λ (next : Loop).
            (next.next_block ≡ to + 1) × (next.last_block_processed ≡ some (pos to)))
          (process_window chain from to st)
  unfolding process_window
  process_window-next from to st = Holds-any _ (chain.get_block to) _ (λ block.
      Holds-any _ (case_option block _ ok) _ (λ time.
        Holds-any _ (process_block_range chain from to _ st.tables) _ (λ done. (refl, refl))))

  -- With fuel for the blocks that are left and one turn more, the loop ends by itself.
  pub process_windows-finishes :
      (fuel latest : ℕ) (st : Loop)
      → latest + 1 < fuel + st.next_block
      → 0 < fuel
      → (process_windows fuel chain latest st).1 ≢ out_of_fuel
  unfolding process_windows
  process_windows-finishes zero latest st enough some_fuel = omega arith
  process_windows-finishes (suc fuel) latest st enough some_fuel =
      turn-holds (λ (r : Loop × Outcome). r.1 ≢ out_of_fuel) latest st _ (λ _. ground arith)
        (λ more.
          case_result-holds (λ (r : Loop × Outcome). r.1 ≢ out_of_fuel)
            (process_window chain st.next_block (window_end latest st) st) (λ e _. ground arith)
            (λ next done.
              let moved =
                Holds-ok _ (process_window-next st.next_block (window_end latest st) st) done in
              process_windows-finishes fuel latest next (ground arith) (ground arith)))

  -- What every window keeps, the loop keeps.
  pub process_windows-keeps :
      (P : Loop → Type 0) (fuel latest : ℕ) (st : Loop)
      → ((st : Loop)
          → P st
          → st.next_block ≤ latest
          → Holds P (process_window chain st.next_block (window_end latest st) st))
      → P st
      → P (process_windows fuel chain latest st).0
  unfolding process_windows
  process_windows-keeps P zero latest st keeps p = p
  process_windows-keeps P (suc fuel) latest st keeps p =
      turn-holds (λ (r : Loop × Outcome). P r.0) latest st _ (λ _. p)
        (λ more.
          case_result-holds (λ (r : Loop × Outcome). P r.0)
            (process_window chain st.next_block (window_end latest st) st) (λ _ _. p)
            (λ next done.
              process_windows-keeps P fuel latest next keeps (Holds-ok P (keeps st p more) done)))
