-- ===== src/Executor/Ends.antt =====
-- `while pending` of `_iter_session_files`, as the source writes it, without the model's fuel.
use code_executor_api.Prelude.{
  ℕ, zero, suc, ◌+◌, ◌≤◌, Text, ◌≡◌, refl, ap, List, [], ◌∷◌, ◌++◌, arith, length,
}
use code_executor_api.Executor.{
  Stat, Entries, scan_files, scan_pending, iter_pending, count_directories, iter_session_files,
}
use code_executor_api.Executor.Walk.{cost, cost-scan_pending}

-- The loop, from what is pending to what it yields.
pub data Yields (prefix_length : ℕ) : List (Text × Entries) → List (Text × Stat) → Type 0 where
  done : Yields prefix_length [] []
  turn :
      (directory : Text) (entries : Entries) (pending : List (Text × Entries))
      (files : List (Text × Stat))
      → Yields prefix_length (scan_pending directory entries pending) files
      → Yields prefix_length
          ((directory, entries) ∷ pending)
          (scan_files prefix_length directory entries ++ files)

iter_pending-Yields :
    (n fuel : ℕ) (pending : List (Text × Entries))
    → cost pending ≤ fuel
    → Yields n pending (iter_pending fuel n pending)
unfolding iter_pending
iter_pending-Yields n zero [] h = done
iter_pending-Yields n (suc fuel) [] h = done
iter_pending-Yields n zero ((directory, entries) ∷ pending) h = absurd (omega arith)
iter_pending-Yields n (suc fuel) ((directory, entries) ∷ pending) h =
    turn directory entries pending (iter_pending fuel n (scan_pending directory entries pending)) (
      iter_pending-Yields n fuel (scan_pending directory entries pending)
        (omega (arith, cost-scan_pending directory entries pending)))

iter_pending_unique :
    (n fuel : ℕ) (pending : List (Text × Entries)) (files : List (Text × Stat))
    → cost pending ≤ fuel
    → Yields n pending files
    → files ≡ iter_pending fuel n pending
unfolding iter_pending
iter_pending_unique n zero _ _ h done = refl
iter_pending_unique n (suc fuel) _ _ h done = refl
iter_pending_unique n zero _ _ h (turn directory entries pending files y) = absurd (omega arith)
iter_pending_unique n (suc fuel) _ _ h (turn directory entries pending files y) =
    ap (λ fs. scan_files n directory entries ++ fs)
      (iter_pending_unique n fuel (scan_pending directory entries pending) files
        (omega (arith, cost-scan_pending directory entries pending)) y)

-- The loop over the pending directories ends on every tree, however deep and however its scans fail,
-- with the files of `iter_session_files`; it has no other outcome, and any amount of fuel from one for
-- each directory and one more gives it.
pub iter_session_files-ends :
    (work_directory : Text) (entries : Entries)
    → Yields
        (length work_directory + 1)
        ((work_directory, entries) ∷ [])
        (iter_session_files work_directory entries)
      × ((files : List (Text × Stat))
          → Yields (length work_directory + 1) ((work_directory, entries) ∷ []) files
          → files ≡ iter_session_files work_directory entries)
      × ((fuel : ℕ)
          → suc (count_directories entries) ≤ fuel
          → iter_pending fuel (length work_directory + 1) ((work_directory, entries) ∷ [])
            ≡ iter_session_files work_directory entries)
unfolding iter_session_files
iter_session_files-ends work_directory entries =
    let n = length work_directory + 1 in
    let start : List (Text × Entries) = (work_directory, entries) ∷ [] in
    let least = suc (count_directories entries) in
    (
      iter_pending-Yields n least start (omega arith),
      λ files y. iter_pending_unique n least start files (omega arith) y,
      λ fuel h.
          iter_pending_unique n least start (iter_pending fuel n start) (omega arith)
            (iter_pending-Yields n fuel start (omega (arith, h))),
    )
