-- ===== src/Tests/RouteRuns.antt =====
-- Runs of the files API, of session creation, and of a container.
use code_executor_api.Prelude.{
  length, ◌≡◌, ◌≢◌, refl, codes, some, List, [], ◌∷◌, Result, ok, err, true, false,
}
use code_executor_api.FileSystem.{aborted, cancelled}
use code_executor_api.Executor.Run.{
  completes, Round, idle, reads, drain, Answers, expires, run_container,
}
use code_executor_api.Executor.Drain.{read_all, first_bytes, drain-first_bytes}
use code_executor_api.Executor.Released.{left_open, no_reader, surviving, run_container-left_open}
use code_executor_api.Routes.{Failure, of_files, creates}
use code_executor_api.Routes.Resources.{held}
use code_executor_api.FileSystem
use code_executor_api.Session.Listing.{Attributes}
use code_executor_api.Routes.Uploads.{Part}
use code_executor_api.Routes.Files.{seed_all, handle_create_session}
use code_executor_api.Routes.FileResources.{is_kept, handle_create_session-held}
use code_executor_api.Tests.ExecuteRuns.{limits, at_start}

abbrev pub attributes : Attributes
attributes name (FileSystem.regular content) = (length content, 5)
attributes name n = (0, 5)

abbrev broken : List (Result Failure Part)
broken = err (of_files aborted) ∷ []

not_cancelled :
    (seed_all limits 0 broken (record at_start { calls = creates ∷ [] })).0
    ≢ err (of_files cancelled)
unfolding seed_all
not_cancelled = λ h. cc

handle_create_session-held_example :
    held (handle_create_session limits true 0 broken (ok tt) (ok tt) at_start).1.calls
    ≡ some (
      is_kept (handle_create_session limits true 0 broken (ok tt) (ok tt) at_start).0,
      false,
      false,
    )
handle_create_session-held_example =
    handle_create_session-held limits true 0 broken (ok tt) at_start refl not_cancelled

abbrev rounds : List Round
rounds = reads (1 ∷ 2 ∷ []) ∷ idle false ∷ reads (3 ∷ []) ∷ reads (4 ∷ []) ∷ idle true ∷ []

drain_run : drain 3 [] rounds ≡ some (ok (1 ∷ 2 ∷ 3 ∷ []))
unfolding drain
drain_run = refl

drain-first_bytes_example : drain 3 [] rounds ≡ first_bytes 3 (read_all [] rounds)
drain-first_bytes_example = drain-first_bytes 3 rounds

abbrev timed_out_run : Answers
timed_out_run = record {
  pty_opens = true;
  podman_starts = true;
  waited = expires;
  cleanup = completes;
  removed = false;
  reaped = true;
  output = ok [];
  elapsed = 20;
  decode = λ b. b;
  is_space = λ c. false;
}

-- The run runs into its timeout, and its container cannot be removed.
run_container-left_open_example :
    left_open (run_container timed_out_run (codes "ce_1") (codes "podman" ∷ [])).1
    ≡ some (false, no_reader, surviving)
run_container-left_open_example =
    run_container-left_open timed_out_run (codes "ce_1") (codes "podman" ∷ [])
