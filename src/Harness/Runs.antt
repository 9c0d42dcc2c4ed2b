-- ===== src/Harness/Runs.antt =====
-- harness.py, `run`, `_run_one`, `owned_sessions` and `main`.
use code_executor_api.Prelude.{
  ℕ, zero, suc, Text, codes, Bool, true, false, not, ◌&&◌, ◌||◌, Option, none, some, List, [], ◌∷◌,
  ◌++◌, if◌then◌else◌, any, reverse, Result, ok, err,
}
use code_executor_api.Prelude.Order.{has}
use code_executor_api.Harness.{Group, Check, is_empty, select_checks, unknown_names}

-- `Result.status`
pub data Status : Type 0 where
  pass_status fail_status error_status skip_status : Status

-- `Result`, without its time and traceback
pub record CheckResult : Type 0 where
  pub name : Text
  pub status : Status
  pub detail : Text

-- What the body of a check gives: it returns, an assertion fails with a message, its time is over, or
-- it raises, with the type and the message of the exception as one text.
pub data Body : Type 0 where
  returns times_out : Body
  asserts raises : Text → Body

-- The answers of the server to `DELETE /sessions/{session_id}`: a status,
-- an `aiohttp.ClientError`, or something else that is raised.
pub data Deletion : Type 0 where
  answers : ℕ → Deletion
  client_error : Deletion
  interrupted : Text → Deletion

-- The loop that creates the sessions, by the replies, an id or what `_new_session` raises: those that
-- were created, and what was raised. Where there is no reply, the client's time is over.
unfoldable pub create_all : ℕ → List (Result Body Text) → List Text × Body
create_all zero replies = ([], returns)
create_all (suc count) [] = ([], times_out)
create_all (suc count) (err e ∷ replies) = ([], e)
create_all (suc count) (ok id ∷ replies) =
    let (ids, raised) = create_all count replies in (id ∷ ids, raised)

-- The `finally`: the sessions whose deletion is requested, and what is raised.
unfoldable pub delete_each : (Text → Deletion) → List Text → List Text × Option Text
delete_each delete [] = ([], none)
delete_each delete (id ∷ ids) =
    let (deleted, raised) = delete_each delete ids in
    elim (delete id) [
      | answers status ↦ (id ∷ deleted, raised)
      | client_error ↦ (id ∷ deleted, raised)
      | interrupted e ↦ (id ∷ [], some e)
    ]

abbrev message_or : Text → Text → Text
message_or default [] = default
message_or default (c ∷ s) = c ∷ s

-- The `except` clauses of `_run_one`, with the format `:g` of a timeout given
abbrev pub status_of : (ℕ → Text) → ℕ → Body → Status × Text
status_of general timeout returns = (pass_status, [])
status_of general timeout (asserts message) =
    (fail_status, message_or (codes "assertion failed") message)
status_of general timeout times_out =
    (error_status, codes "exceeded the check's " ++ (general timeout ++ codes "s budget"))
status_of general timeout (raises message) = (error_status, message)

-- What the block raises, the creation, the body or the cleanup.
abbrev pub block : Body → Option Text → Body → Body
block created (some e) body = raises e
block returns none body = body
block created none body = created

abbrev pub result_of : Text → Status × Text → CheckResult
result_of name (status, detail) = record { name = name; status = status; detail = detail }

-- `_run_one` around `owned_sessions`: the result, and the deletions that are requested.
unfoldable pub run_one :
    (ℕ → Text)
    → Check
    → List (Result Body Text)
    → (Text → Deletion)
    → (List Text → Body)
    → CheckResult × List Text
unfolding create_all delete_each
run_one general c replies delete body =
    let (ids, created) = create_all c.sessions replies in
    let (deleted, raised) = delete_each delete (reverse ids) in
    (result_of c.name (status_of general c.timeout (block created raised (body ids))), deleted)

abbrev pub is_failure : Status → Bool
is_failure fail_status = true
is_failure error_status = true
is_failure _ = false

-- The loop of `run` over the checks, by the result of each.
unfoldable pub run_checks : Bool → (Check → CheckResult) → List Check → List CheckResult
run_checks fail_fast result [] = []
run_checks fail_fast result (c ∷ checks) =
    let rest = run_checks fail_fast result checks in
    result c ∷ (if fail_fast && is_failure (result c).status then [] else rest)

abbrev pub skip_results : List (Check × Text) → List CheckResult
skip_results [] = []
skip_results ((c, reason) ∷ skipped) =
    record { name = c.name; status = skip_status; detail = reason } ∷ skip_results skipped

abbrev pub failed : CheckResult → Bool
failed r = is_failure r.status

-- `run`: its results and its exit code
unfoldable pub run :
    Bool → (Check → CheckResult) → List Check → List (Check × Text) → List CheckResult × ℕ
unfolding run_checks
run fail_fast result to_run skipped =
    let results = run_checks fail_fast result to_run ++ skip_results skipped in
    (results, if any failed results then 1 else 0)

-- How `main` ends: an error of the command line, the listing, or an exit code.
pub data Exit : Type 0 where
  usage_error : List Text → Exit
  exits : ℕ → Exit

-- `enabled_groups` of `main`, by the flags given
unfoldable pub enabled_groups : Bool → List Text → List Group → List Text
enabled_groups check_all flags [] = []
enabled_groups check_all flags (g ∷ groups) =
    let rest = enabled_groups check_all flags groups in
    if g.opt_in && (check_all || has g.name flags) then g.name ∷ rest else rest

abbrev pub run_selected : Bool → (Check → CheckResult) → List Check × List (Check × Text) → Exit
run_selected fail_fast result ([], skipped) = exits 0
run_selected fail_fast result (c ∷ to_run, skipped) =
    exits (run fail_fast result (c ∷ to_run) skipped).1

-- The parsed command line.
pub record Arguments : Type 0 where
  pub list : Bool
  pub only : List Text
  pub skip : List Text
  pub skip_heavy : Bool
  pub fail_fast : Bool
  pub check_all : Bool
  pub flags : List Text

-- `main`, by `__debug__` and the command line, once that is parsed. Under -O it raises `SystemExit` with
-- a message, which is the exit code 1.
unfoldable pub main : Bool → List Group → List Check → Arguments → (Check → CheckResult) → Exit
unfolding unknown_names select_checks enabled_groups
main debug groups checks args result =
    if not debug
    then exits 1
    else if args.list
    then exits 0
    else if not (is_empty (unknown_names groups checks (args.only ++ args.skip)))
    then usage_error (unknown_names groups checks (args.only ++ args.skip))
    else run_selected args.fail_fast result (
        select_checks groups checks (record {
          only = args.only;
          skip = args.skip;
          enabled_groups = enabled_groups args.check_all args.flags groups;
          skip_heavy = args.skip_heavy;
        }))
