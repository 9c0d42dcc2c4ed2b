-- ===== src/Quota.antt =====
-- code_executor_api/sessions.py, the quota of a session's XFS project: `_apply_quota`, and how it reads
-- the reports of `xfs_quota`. The commands themselves are run by the environment.
use code_executor_api.Prelude.{
  ℕ, ℤ, pos, Option, none, some, ◌+◌, ◌-◌, ◌*◌, ◌/◌, ◌≤◌, ◌<◌, Text, codes, text_eq, ◌≡◌, Bool,
  true, false, not, ◌&&◌, List, [], ◌∷◌, ◌++◌, ◌==◌, if◌then◌else◌, arith, any, refl,
}

-- `-(-size // 1024)`, Python's division rounding down
abbrev pub ceil_div : ℕ → ℕ → ℕ
ceil_div size unit = (size + (unit - 1)) / unit

-- `bhard_kib`
abbrev pub bhard_kib : ℕ → ℕ
bhard_kib max_session_size = ceil_div max_session_size 1024

-- What becomes of a process: it cannot be started, PODMAN_CHECK_TIMEOUT_SECONDS pass and it is killed,
-- or it exits, with its code and the lines of its stdout, each split into its fields.
pub data Process : Type 0 where
  cannot_start hangs : Process
  exits : ℤ → List (List Text) → Process

-- What a call of `_run_xfs_quota` gives: whether the return code is 0 and the lines of stdout, or
-- `QuotaSetupFailed`.
pub data Quota : Type 0 where
  completed : Bool → List (List Text) → Quota
  not_run : Quota

abbrev is_zero : ℤ → Bool
is_zero (pos n) = n == 0
is_zero _ = false

-- `_run_xfs_quota`
unfoldable pub run_xfs_quota : Process → Quota
run_xfs_quota cannot_start = not_run
run_xfs_quota hangs = not_run
run_xfs_quota (exits code lines) = completed (is_zero code) lines

-- `int(text)` for a text of ASCII digits, and whether it is one. `str.isdigit` is true of other
-- digits too, which `xfs_quota` does not print.
pub record Numbers : Type 0 where
  pub is_digit : Text → Bool
  pub value : Text → ℕ
  pub text : ℕ → Text

-- `len(fields) < 4 or not fields[3].isdigit() or int(fields[3]) <= 0`
abbrev pub has_limit : Numbers → List Text → Bool
has_limit n (a ∷ b ∷ c ∷ d ∷ rest) = n.is_digit d && not (n.value d == 0)
has_limit n _ = false

-- `fields and fields[0] == f"#{project_id}"`
abbrev pub is_project : Numbers → ℕ → List Text → Bool
is_project n project_id [] = false
is_project n project_id (f ∷ fields) = text_eq f (codes "#" ++ n.text project_id)

-- The loop of `_verify_quota_hard_limit`: the first line of the project decides.
unfoldable pub find_limit : Numbers → ℕ → List (List Text) → Bool
find_limit n project_id [] = false
find_limit n project_id (fields ∷ lines) =
    let rest = find_limit n project_id lines in
    if is_project n project_id fields then has_limit n fields else rest

-- `_verify_quota_hard_limit`: whether it returns, and does not raise.
unfoldable pub verify_quota_hard_limit : Numbers → ℕ → Quota → Bool
unfolding find_limit
verify_quota_hard_limit n project_id not_run = false
verify_quota_hard_limit n project_id (completed false lines) = false
verify_quota_hard_limit n project_id (completed true lines) = find_limit n project_id lines

abbrev pub is_done : Quota → Bool
is_done (completed zero_code lines) = zero_code
is_done not_run = false

-- The settings that `_apply_quota` reads.
pub record QuotaSettings : Type 0 where
  pub quota_command : List Text
  pub mountpoint : Option Text
  pub max_session_size : ℕ
  pub max_session_entries : ℕ

-- The command that makes the directory a project and sets both of its limits.
abbrev pub setup_command : Numbers → QuotaSettings → Text → Text → ℕ → List Text
setup_command n s mountpoint work_directory project_id =
    s.quota_command
    ++ (codes "-x"
        ∷ codes "-c"
        ∷ (codes "project -s -p " ++ (work_directory ++ (codes " " ++ n.text project_id)))
        ∷ codes "-c"
        ∷ (codes "limit -p bhard="
            ++ (n.text (bhard_kib s.max_session_size)
                ++ (codes "k ihard="
                    ++ (n.text s.max_session_entries ++ (codes " " ++ n.text project_id)))))
        ∷ mountpoint
        ∷ [])

-- The command that reports the projects, with the flag for blocks or for inodes.
abbrev pub report_command : QuotaSettings → Text → Text → List Text
report_command s mountpoint report_flag =
    s.quota_command
    ++ (codes "-x" ∷ codes "-c" ∷ (codes "report -p -N -n " ++ report_flag) ∷ mountpoint ∷ [])

-- `_apply_quota`, by what becomes of each command: whether it returns, and does not raise, and the
-- commands that were run. Without SESSION_QUOTA_MOUNTPOINT it does nothing.
unfoldable pub apply_quota :
    Numbers → QuotaSettings → (List Text → Process) → Text → ℕ → Bool × List (List Text)
unfolding verify_quota_hard_limit run_xfs_quota
apply_quota n s call work_directory project_id = elim s.mountpoint [
  | none ↦ (true, [])
  | some m ↦
      let setup = setup_command n s m work_directory project_id in
      let blocks = report_command s m (codes "-b") in
      let inodes = report_command s m (codes "-i") in
      if not (is_done (run_xfs_quota (call setup)))
      then (false, setup ∷ [])
      else if not (verify_quota_hard_limit n project_id (run_xfs_quota (call blocks)))
      then (false, setup ∷ blocks ∷ [])
      else (
        verify_quota_hard_limit n project_id (run_xfs_quota (call inodes)),
        setup ∷ blocks ∷ inodes ∷ [],
      )
]

-- The limit that is set is at least MAX_SESSION_SIZE and less than one KiB above it.
pub bhard_kib-bounds :
    (size : ℕ) → (size ≤ 1024 * bhard_kib size) × (1024 * bhard_kib size < size + 1024)
bhard_kib-bounds size = (omega arith, omega arith)

find_limit_lem :
    (n : Numbers) (project_id : ℕ) (lines : List (List Text))
    → find_limit n project_id lines ≡ true
    → any (λ fields. is_project n project_id fields && has_limit n fields) lines ≡ true
unfolding find_limit
find_limit_lem n project_id [] h = cc
find_limit_lem n project_id (fields ∷ lines) h = ground (arith, find_limit_lem n project_id lines)

-- The report came, and a line of it gives the project a limit above zero.
abbrev pub reports_limit : Numbers → ℕ → Quota → Bool
reports_limit n project_id not_run = false
reports_limit n project_id (completed done lines) =
    done && any (λ fields. is_project n project_id fields && has_limit n fields) lines

verify_quota_hard_limit_lem :
    (n : Numbers) (project_id : ℕ) (q : Quota)
    → verify_quota_hard_limit n project_id q ≡ true
    → reports_limit n project_id q ≡ true
unfolding verify_quota_hard_limit
verify_quota_hard_limit_lem n project_id not_run h = cc
verify_quota_hard_limit_lem n project_id (completed false lines) h = cc
verify_quota_hard_limit_lem n project_id (completed true lines) h =
    find_limit_lem n project_id lines h

-- Three commands, each only if those before it have done their part.
abbrev in_turn : Bool → Bool → Bool → (x y z : List (List Text)) → Bool × List (List Text)
in_turn a b c x y z = if not a then (false, x) else if not b then (false, y) else (c, z)

in_turn_lem :
    (a b c : Bool) (x y z : List (List Text))
    → (in_turn a b c x y z).0 ≡ true
    → ((in_turn a b c x y z).1 ≡ z) × (a ≡ true) × (b ≡ true) × (c ≡ true)
in_turn_lem true true c x y z h = (refl, refl, refl, h)
in_turn_lem true false c x y z h = cc
in_turn_lem false b c x y z h = cc

-- With a quota mountpoint, a session is set up only if three commands have been run, in this order: the
-- one that sets its project's block limit and its inode limit exited with 0, and the two reports each
-- gave the project a hard limit above zero.
pub apply_quota-reports_limit :
    (n : Numbers) (s : QuotaSettings) (call : List Text → Process) (m work_directory : Text)
    (project_id : ℕ)
    → s.mountpoint ≡ some m
    → (apply_quota n s call work_directory project_id).0 ≡ true
    → ((apply_quota n s call work_directory project_id).1
        ≡ setup_command n s m work_directory project_id
          ∷ report_command s m (codes "-b")
          ∷ report_command s m (codes "-i")
          ∷ [])
      × (is_done (run_xfs_quota (call (setup_command n s m work_directory project_id))) ≡ true)
      × (reports_limit n project_id (run_xfs_quota (call (report_command s m (codes "-b")))) ≡ true)
      × (reports_limit n project_id (run_xfs_quota (call (report_command s m (codes "-i")))) ≡ true)
unfolding apply_quota
apply_quota-reports_limit n s call m work_directory project_id e h =
    let setup = setup_command n s m work_directory project_id in
    let blocks = report_command s m (codes "-b") in
    let inodes = report_command s m (codes "-i") in
    let (commands, done, first, second) =
      in_turn_lem (is_done (run_xfs_quota (call setup)))
        (verify_quota_hard_limit n project_id (run_xfs_quota (call blocks)))
        (verify_quota_hard_limit n project_id (run_xfs_quota (call inodes))) (setup ∷ [])
        (setup ∷ blocks ∷ []) (setup ∷ blocks ∷ inodes ∷ []) (rw e at h) in
    rw e (
      commands,
      done,
      verify_quota_hard_limit_lem n project_id (run_xfs_quota (call blocks)) first,
      verify_quota_hard_limit_lem n project_id (run_xfs_quota (call inodes)) second,
    )
