-- ===== src/Executor.antt =====
-- code_executor_api/executor/podman_executor.py: the walk over a session's files, and what a run
-- changed in them.
pub mod Walk
pub mod Ends
pub mod Changes
pub mod Command
pub mod Run
pub mod Drain
pub mod Released
pub mod Code
use code_executor_api.Prelude.{
  ℕ, zero, suc, ◌+◌, Text, codes, text_eq, starts_with, Bool, true, false, not, ◌&&◌, ◌||◌, Option,
  none, some, List, [], ◌∷◌, ◌++◌, map, ◌==◌, if◌then◌else◌, length, drop,
}
use code_executor_api.Prelude.Order.{has, sorted}
use code_executor_api.Path.{slash}

-- The fields of `os.stat_result` that the program reads.
pub record Stat : Type 0 where
  pub st_ino : ℕ
  pub st_size : ℕ
  pub st_mtime_ns : ℕ
  pub st_ctime_ns : ℕ

-- What `os.scandir` yields for a directory, in its order. The scan ends, or an `OSError` ends it; a
-- file's `stat` may fail; a subdirectory carries what its own scan will yield.
pub data Entries : Type 0 where
  end fails : Entries
  file : Text → Option Stat → Entries → Entries
  other : Text → Entries → Entries
  subdirectory : Text → Entries → Entries → Entries

-- `entry.name.startswith(".")`
abbrev pub is_hidden : Text → Bool
is_hidden name = starts_with name (b'.' ∷ [])

-- `entry.path`
abbrev pub entry_path : Text → Text → Text
entry_path directory name = directory ++ (slash ∷ name)

abbrev pub yielded : ℕ → Text → Option Stat → List (Text × Stat)
yielded prefix_length path none = []
yielded prefix_length path (some st) = (drop prefix_length path, st) ∷ []

-- The files that the scan of one directory yields, the `for` of `_iter_session_files`.
unfoldable pub scan_files : ℕ → Text → Entries → List (Text × Stat)
scan_files prefix_length directory end = []
scan_files prefix_length directory fails = []
scan_files prefix_length directory (file name st rest) =
    yielded prefix_length (entry_path directory name) st ++ scan_files prefix_length directory rest
scan_files prefix_length directory (other name rest) = scan_files prefix_length directory rest
scan_files prefix_length directory (subdirectory name inner rest) =
    scan_files prefix_length directory rest

-- `pending` with its last element first, after the scan's appends.
unfoldable pub scan_pending : Text → Entries → List (Text × Entries) → List (Text × Entries)
scan_pending directory end pending = pending
scan_pending directory fails pending = pending
scan_pending directory (file name st rest) pending = scan_pending directory rest pending
scan_pending directory (other name rest) pending = scan_pending directory rest pending
scan_pending directory (subdirectory name inner rest) pending =
    scan_pending directory rest
      (if is_hidden name then pending else (entry_path directory name, inner) ∷ pending)

-- `while pending`, with fuel for the directories.
unfoldable pub iter_pending : ℕ → ℕ → List (Text × Entries) → List (Text × Stat)
iter_pending zero prefix_length pending = []
iter_pending (suc fuel) prefix_length [] = []
iter_pending (suc fuel) prefix_length ((directory, entries) ∷ pending) =
    scan_files prefix_length directory entries
    ++ iter_pending fuel prefix_length (scan_pending directory entries pending)

-- The directories below that the walk enters.
unfoldable pub count_directories : Entries → ℕ
count_directories end = 0
count_directories fails = 0
count_directories (file name st rest) = count_directories rest
count_directories (other name rest) = count_directories rest
count_directories (subdirectory name inner rest) =
    suc (count_directories inner) + count_directories rest

-- `_iter_session_files`
unfoldable pub iter_session_files : Text → Entries → List (Text × Stat)
unfolding iter_pending count_directories
iter_session_files work_directory entries =
    iter_pending (suc (count_directories entries)) (length work_directory + 1)
      ((work_directory, entries) ∷ [])

abbrev pub Signature : Type 0
Signature = ℕ × ℕ × ℕ × ℕ

-- `_signature`
abbrev pub signature : Stat → Signature
signature st = (st.st_ino, st.st_size, st.st_mtime_ns, st.st_ctime_ns)

abbrev pub signature_eq : Signature → Signature → Bool
signature_eq (a, b, c, d) (e, f, g, h) = (a == e) && (b == f) && (c == g) && (d == h)

-- A dict, the last assignment to a key first.
abbrev pub Files : Type 0
Files = List (Text × Signature)

-- `input_files.get(sub_path)`
unfoldable pub get : Text → Files → Option Signature
get p [] = none
get p ((q, s) ∷ files) = if text_eq q p then some s else get p files

-- `ExecutionEnvironment.input_files`, from the walk before the run
unfoldable pub stamp : Files → List (Text × Stat) → Files
stamp files [] = files
stamp files ((p, st) ∷ walk) = stamp ((p, signature st) ∷ files) walk

-- `self.input_files.get(sub_path) != _signature(entry_stat)`
abbrev pub differs : Option Signature → Signature → Bool
differs none s = true
differs (some t) s = not (signature_eq t s)

-- The loop of `collect_changes`
unfoldable pub changed_in : Files → List (Text × Stat) → List Text
changed_in input_files [] = []
changed_in input_files ((p, st) ∷ walk) =
    let rest = changed_in input_files walk in
    if differs (get p input_files) (signature st) then p ∷ rest else rest

abbrev pub paths {ℓ} : {A : Type ℓ} → List (Text × A) → List Text
paths [] = []
paths ((p, a) ∷ rest) = p ∷ paths rest

-- `self.input_files.keys() - current_files`
unfoldable pub missing_from : List Text → List Text → List Text
missing_from current [] = []
missing_from current (p ∷ keys) =
    let rest = missing_from current keys in if has p current || has p keys then rest else p ∷ rest

-- `collect_changes`, from the walk after the run
unfoldable pub collect_changes : Files → List (Text × Stat) → List Text × List Text
collect_changes input_files walk =
    (sorted (changed_in input_files walk), sorted (missing_from (paths walk) (paths input_files)))
