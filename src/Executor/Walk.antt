-- ===== src/Executor/Walk.antt =====
-- The walk of `_iter_session_files` against a recursive reading of the tree.
use code_executor_api.Prelude.{
  ℕ, zero, suc, ◌+◌, ◌≤◌, Text, ◌≡◌, refl, Bool, List, [], ◌∷◌, ◌++◌, arith, if◌then◌else◌, length,
  Bool-cases, inl, inr,
}
use code_executor_api.Executor.{
  Stat, Entries, end, fails, file, other, subdirectory, is_hidden, entry_path, yielded, scan_files,
  scan_pending, iter_pending, count_directories, iter_session_files,
}

-- The regular files under a directory whose `stat` succeeds, hidden directories left out at any
-- depth.
unfoldable pub visible_files : ℕ → Text → Entries → List (Text × Stat)
visible_files prefix_length directory end = []
visible_files prefix_length directory fails = []
visible_files prefix_length directory (file name st rest) =
    yielded prefix_length (entry_path directory name) st
    ++ visible_files prefix_length directory rest
visible_files prefix_length directory (other name rest) = visible_files prefix_length directory rest
visible_files prefix_length directory (subdirectory name inner rest) =
    let below = visible_files prefix_length (entry_path directory name) inner in
    (if is_hidden name then [] else below) ++ visible_files prefix_length directory rest

-- How many elements pass a test.
unfoldable pub count {ℓ} : {A : Type ℓ} → (A → Bool) → List A → ℕ
count q [] = 0
count q (x ∷ xs) = (if q x then 1 else 0) + count q xs

count-append {ℓ} :
    {A : Type ℓ} (q : A → Bool) (xs ys : List A) → count q (xs ++ ys) ≡ count q xs + count q ys
unfolding count
count-append q [] ys = omega arith
count-append q (x ∷ xs) ys = omega (arith, count-append q xs ys)

abbrev visible_pending : ℕ → List (Text × Entries) → List (Text × Stat)
visible_pending n [] = []
visible_pending n ((directory, entries) ∷ pending) =
    visible_files n directory entries ++ visible_pending n pending

abbrev pub cost : List (Text × Entries) → ℕ
cost [] = 0
cost ((directory, entries) ∷ pending) = suc (count_directories entries) + cost pending

module _ (q : Text × Stat → Bool) (n : ℕ) where
  -- A scan yields or leaves pending what stands under the directory.
  scan-visible_files :
      (directory : Text) (entries : Entries) (pending : List (Text × Entries))
      → count q (scan_files n directory entries)
          + count q (visible_pending n (scan_pending directory entries pending))
        ≡ count q (visible_files n directory entries) + count q (visible_pending n pending)
  unfolding scan_files scan_pending visible_files count
  scan-visible_files directory end pending = refl
  scan-visible_files directory fails pending = refl
  scan-visible_files directory (file name st rest) pending = omega (
    arith,
    scan-visible_files directory rest pending,
    count-append q (yielded n (entry_path directory name) st) (scan_files n directory rest),
    count-append q (yielded n (entry_path directory name) st) (visible_files n directory rest),
  )
  scan-visible_files directory (other name rest) pending = scan-visible_files directory rest pending
  scan-visible_files directory (subdirectory name inner rest) pending =
      elim (Bool-cases (is_hidden name)) [
        | inl e ↦ rw e (scan-visible_files directory rest pending)
        | inr e ↦ rw e omega (
          arith,
          scan-visible_files directory rest ((entry_path directory name, inner) ∷ pending),
          count-append q (visible_files n (entry_path directory name) inner)
              (visible_pending n pending),
          count-append q (visible_files n (entry_path directory name) inner)
              (visible_files n directory rest),
        )
      ]

pub cost-scan_pending :
    (directory : Text) (entries : Entries) (pending : List (Text × Entries))
    → cost (scan_pending directory entries pending) ≤ count_directories entries + cost pending
unfolding scan_pending count_directories
cost-scan_pending directory end pending = omega arith
cost-scan_pending directory fails pending = omega arith
cost-scan_pending directory (file name st rest) pending = cost-scan_pending directory rest pending
cost-scan_pending directory (other name rest) pending = cost-scan_pending directory rest pending
cost-scan_pending directory (subdirectory name inner rest) pending =
    elim (Bool-cases (is_hidden name)) [
      | inl e ↦ rw e omega (arith, cost-scan_pending directory rest pending)
      | inr e ↦
          rw e omega
            (arith, cost-scan_pending directory rest ((entry_path directory name, inner) ∷ pending))
    ]

iter_pending-visible :
    (q : Text × Stat → Bool) (n fuel : ℕ) (pending : List (Text × Entries))
    → cost pending ≤ fuel
    → count q (iter_pending fuel n pending) ≡ count q (visible_pending n pending)
unfolding iter_pending
iter_pending-visible q n zero [] h = refl
iter_pending-visible q n (suc fuel) [] h = refl
iter_pending-visible q n zero ((directory, entries) ∷ pending) h = omega arith
iter_pending-visible q n (suc fuel) ((directory, entries) ∷ pending) h = omega (
  arith,
  iter_pending-visible q n fuel (scan_pending directory entries pending)
      (omega (arith, cost-scan_pending directory entries pending)),
  scan-visible_files q n directory entries pending,
  count-append q (scan_files n directory entries)
      (iter_pending fuel n (scan_pending directory entries pending)),
  count-append q (visible_files n directory entries) (visible_pending n pending),
)

-- The walk ends, and yields every regular file of the tree whose stat succeeds as often as a recursive
-- reading does, with its path below the session directory; nothing under a hidden directory.
pub iter_session_files-visible :
    (q : Text × Stat → Bool) (work_directory : Text) (entries : Entries)
    → count q (iter_session_files work_directory entries)
      ≡ count q (visible_files (length work_directory + 1) work_directory entries)
unfolding iter_session_files count
iter_session_files-visible q work_directory entries = omega (
  arith,
  iter_pending-visible q (length work_directory + 1) (suc (count_directories entries))
      ((work_directory, entries) ∷ []) (omega arith),
  count-append q (visible_files (length work_directory + 1) work_directory entries) [],
)
