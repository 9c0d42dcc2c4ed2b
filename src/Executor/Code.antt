-- ===== src/Executor/Code.antt =====
-- code_executor_api/executor/podman_executor.py, `run_code_async` and `_remove_container`.
use code_executor_api.Prelude.{
  ◌≡◌, refl, ap, sym, ◌∙◌, ok_inj, any, ltb, length, ◌+◌, arith, ℤ, pos, Text, Bool, true, false,
  Option, none, some, List, [], ◌∷◌, Result, ok, err, ◌==◌,
}
use code_executor_api.Languages.{LanguageRuntime, runtime_of}
use code_executor_api.Executor.{Stat, Entries, Files, stamp, iter_session_files, collect_changes}
use code_executor_api.Prelude.Order.{has}
use code_executor_api.Executor.Walk.{visible_files, count, iter_session_files-visible}
use code_executor_api.Executor.Changes.{is_change, collect_changes_exact}
use code_executor_api.Executor.Command.{ContainerSettings, podman_run}
use code_executor_api.Executor.Run.{
  ExecutionResult, CodeExecutionResult, Answers, Effect, run_container,
}

-- What becomes of `podman rm`: it cannot be started, it exits, or PODMAN_CHECK_TIMEOUT_SECONDS pass.
pub data Removal : Type 0 where
  cannot_start hangs : Removal
  exits : ℤ → Removal

abbrev is_zero : ℤ → Bool
is_zero (pos n) = n == 0
is_zero _ = false

-- `_remove_container`: its result, and whether the command is killed.
unfoldable pub remove_container : Removal → Bool × Bool
remove_container cannot_start = (false, false)
remove_container hangs = (false, true)
remove_container (exits code) = (is_zero code, false)

-- What a run meets: the session's directory as the two walks see it, and the answers of podman.
pub record Meeting : Type 0 where
  pub before : Entries
  pub after : Entries
  pub answers : Answers
  pub container_name : Text

abbrev with_changes :
    Text → Meeting → Result (Unit {0}) ExecutionResult → Result (Unit {0}) CodeExecutionResult
with_changes work_directory m (err e) = err e
with_changes work_directory m (ok r) =
    let (changed, deleted) =
      collect_changes (stamp [] (iter_session_files work_directory m.before))
        (iter_session_files work_directory m.after) in
    ok (record { execution_result = r; changed_files = changed; deleted_files = deleted })

abbrev run_language :
    ContainerSettings
    → Text
    → Text
    → Meeting
    → Option LanguageRuntime
    → Result (Unit {0}) CodeExecutionResult × List Effect
run_language settings work_directory code m none = (err tt, [])
run_language settings work_directory code m (some runtime) =
    let (r, effects) =
      run_container m.answers m.container_name
        (podman_run settings work_directory m.container_name runtime code) in
    (with_changes work_directory m r, effects)

-- `run_code_async`: an unknown language is a `ValueError` of `ExecutionEnvironment`.
unfoldable pub run_code_async :
    ContainerSettings
    → Text
    → Text
    → Text
    → Meeting
    → Result (Unit {0}) CodeExecutionResult × List Effect
run_code_async settings work_directory language code m =
    run_language settings work_directory code m (runtime_of language)

any-count {ℓ} : {A : Type ℓ} (q : A → Bool) (xs : List A) → any q xs ≡ ltb 0 (count q xs)
unfolding count
any-count q [] = ground arith
any-count q (x ∷ xs) = ground (arith, any-count q xs)

any-visible_files :
    (q : Text × Stat → Bool) (work_directory : Text) (entries : Entries)
    → any q (iter_session_files work_directory entries)
      ≡ any q (visible_files (length work_directory + 1) work_directory entries)
any-visible_files q work_directory entries =
    any-count q (iter_session_files work_directory entries)
    ∙ ap (ltb 0) (iter_session_files-visible q work_directory entries)
    ∙ rw (any-count q (visible_files (length work_directory + 1) work_directory entries)) refl

-- The stamps taken before the run.
abbrev pub input_files : Text → Entries → Files
input_files work_directory before = stamp [] (iter_session_files work_directory before)

changes-visible :
    (p work_directory : Text) (before after : Entries)
    → has p
        (collect_changes
          (input_files work_directory before)
          (iter_session_files work_directory after)).0
      ≡ any
          (is_change (input_files work_directory before) p)
          (visible_files (length work_directory + 1) work_directory after)
changes-visible p work_directory before after =
    (collect_changes_exact p (input_files work_directory before)
      (iter_session_files work_directory after)).0
    ∙ any-visible_files (is_change (input_files work_directory before) p) work_directory after

-- When a run returns, the changed files that it reports are exactly the files outside hidden directories
-- that it left with another stamp than they had, or without any before.
pub run_code_async-changes :
    (settings : ContainerSettings) (work_directory language code p : Text) (m : Meeting)
    (r : CodeExecutionResult)
    → (run_code_async settings work_directory language code m).0 ≡ ok r
    → has p r.changed_files
      ≡ any
          (is_change (input_files work_directory m.before) p)
          (visible_files (length work_directory + 1) work_directory m.after)
unfolding run_code_async
run_code_async-changes settings work_directory language code p m r h =
    by_runtime (runtime_of language) h
  where
    by_outcome :
        (x : Result (Unit {0}) ExecutionResult)
        → with_changes work_directory m x ≡ ok r
        → has p r.changed_files
          ≡ any
              (is_change (input_files work_directory m.before) p)
              (visible_files (length work_directory + 1) work_directory m.after)
    by_outcome (ok x) g =
        ap (λ (y : CodeExecutionResult). has p y.changed_files) (sym (ok_inj g))
        ∙ changes-visible p work_directory m.before m.after
    by_outcome (err e) g = cc

    by_runtime :
        (x : Option LanguageRuntime)
        → (run_language settings work_directory code m x).0 ≡ ok r
        → has p r.changed_files
          ≡ any
              (is_change (input_files work_directory m.before) p)
              (visible_files (length work_directory + 1) work_directory m.after)
    by_runtime none g = cc
    by_runtime (some x) g =
        by_outcome
          (run_container m.answers m.container_name
            (podman_run settings work_directory m.container_name x code)).0
          g
