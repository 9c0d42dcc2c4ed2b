-- ===== src/Tests/ExecutorRuns.antt =====
-- Runs of the walk over a session's files and of `collect_changes`.
use code_executor_api.Prelude.{
  ℕ, suc, ◌≤◌, List, ◌≡◌, refl, Text, codes, Bool, not, ◌&&◌, none, some, [], ◌∷◌, length, ◌+◌, any,
  text_eq, starts_with,
}
use code_executor_api.Prelude.Order.{has, sorted, IsSorted, place, text_leb}
use code_executor_api.Executor.{
  Stat, Entries, end, fails, file, other, subdirectory, Files, stamp, iter_session_files,
  collect_changes, paths, scan_files, scan_pending, changed_in, missing_from, get,
  count_directories, iter_pending,
}
use code_executor_api.Executor.Walk.{visible_files, count, iter_session_files-visible}
use code_executor_api.Executor.Ends.{Yields, iter_session_files-ends}
use code_executor_api.Executor.Changes.{is_change, collect_changes_exact}

abbrev pub old : Stat
old = record { st_ino = 3; st_size = 10; st_mtime_ns = 7; st_ctime_ns = 7 }

abbrev pub new : Stat
new = record { st_ino = 3; st_size = 10; st_mtime_ns = 7; st_ctime_ns = 9 }

abbrev cache : Entries
cache = file (codes "junk") (some old) end

abbrev tree : Entries
tree = subdirectory (codes ".cache") cache (
    subdirectory (codes "out") (file (codes "b") (some new) (other (codes "link") fails))
      (file (codes ".a") (some old) (file (codes "gone") none end)))

abbrev before : Files
before = stamp [] ((codes "out/b", old) ∷ (codes "c", old) ∷ [])

walk_of_tree : iter_session_files (codes "/s") tree ≡ (codes ".a", old) ∷ (codes "out/b", new) ∷ []
unfolding iter_session_files scan_files scan_pending starts_with
walk_of_tree = refl

changes_of_tree :
    collect_changes before (iter_session_files (codes "/s") tree)
    ≡ (codes ".a" ∷ codes "out/b" ∷ [], codes "c" ∷ [])
unfolding collect_changes iter_session_files scan_files scan_pending changed_in missing_from stamp
    get sorted has text_eq place starts_with text_leb
changes_of_tree = refl

is_out : Text × Stat → Bool
is_out (p, st) = text_eq p (codes "out/b")

iter_session_files-visible_example :
    count is_out (iter_session_files (codes "/s") tree)
    ≡ count is_out (visible_files (length (codes "/s") + 1) (codes "/s") tree)
iter_session_files-visible_example = iter_session_files-visible is_out (codes "/s") tree

iter_session_files-ends_example :
    Yields
      (length (codes "/s") + 1)
      ((codes "/s", tree) ∷ [])
      (iter_session_files (codes "/s") tree)
    × ((files : List (Text × Stat))
        → Yields (length (codes "/s") + 1) ((codes "/s", tree) ∷ []) files
        → files ≡ iter_session_files (codes "/s") tree)
    × ((fuel : ℕ)
        → suc (count_directories tree) ≤ fuel
        → iter_pending fuel (length (codes "/s") + 1) ((codes "/s", tree) ∷ [])
          ≡ iter_session_files (codes "/s") tree)
iter_session_files-ends_example = iter_session_files-ends (codes "/s") tree

collect_changes_exact_example :
    (has (codes "c") (collect_changes before ((codes "out/b", new) ∷ [])).0
      ≡ any (is_change before (codes "c")) ((codes "out/b", new) ∷ []))
    × (has (codes "c") (collect_changes before ((codes "out/b", new) ∷ [])).1 ≡ (
        has (codes "c") (paths before)
        && not (has (codes "c") (paths ((codes "out/b", new) ∷ [])))))
    × IsSorted (collect_changes before ((codes "out/b", new) ∷ [])).0
    × IsSorted (collect_changes before ((codes "out/b", new) ∷ [])).1
collect_changes_exact_example = collect_changes_exact (codes "c") before ((codes "out/b", new) ∷ [])
