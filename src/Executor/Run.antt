-- ===== src/Executor/Run.antt =====
-- code_executor_api/executor/podman_executor.py, `run_container` and the drain of the pty. What the
-- kernel, the event loop and podman answer is given; the effects are recorded.
use code_executor_api.Prelude.{
  ℕ, ◌-◌, Text, Bool, true, false, Option, none, some, List, [], ◌∷◌, ◌++◌, Result, ok, err, ltb,
  if◌then◌else◌, length, take, ℤ, negsuc, rstrip,
}
use code_executor_api.FileSystem.{Bytes}

-- `ExecutionResult`
pub record ExecutionResult : Type 0 where
  pub output : Text
  pub return_code : ℤ
  pub execution_time : ℕ
  pub timed_out : Bool

-- `CodeExecutionResult`
pub record CodeExecutionResult : Type 0 where
  pub execution_result : ExecutionResult
  pub changed_files : List Text
  pub deleted_files : List Text

-- One round of the drain: `select` times out, with the stop event set or not, or the master is
-- readable, and `os.read` gives a chunk, the end, `EIO` or another `OSError`.
pub data Round : Type 0 where
  idle : Bool → Round
  reads : Bytes → Round
  eio read_fails : Round

-- `output.write(chunk[:remaining_size])`
abbrev pub written : ℕ → Bytes → Bytes → Bytes
written max_size output chunk =
    let remaining_size = max_size - length output in
    if ltb 0 remaining_size then output ++ take remaining_size chunk else output

-- The loop of `read_max_and_close`, over the rounds that happen: none if they run out first.
unfoldable pub drain : ℕ → Bytes → List Round → Option (Result (Unit {0}) Bytes)
drain max_size output [] = none
drain max_size output (idle true ∷ rounds) = some (ok output)
drain max_size output (idle false ∷ rounds) = drain max_size output rounds
drain max_size output (eio ∷ rounds) = some (ok output)
drain max_size output (read_fails ∷ rounds) = some (err tt)
drain max_size output (reads [] ∷ rounds) = some (ok output)
drain max_size output (reads (b ∷ bs) ∷ rounds) =
    drain max_size (written max_size output (b ∷ bs)) rounds

-- What `run_container` does, in order. The reader closes both descriptors on its way out.
pub data Effect : Type 0 where
  opens_pty starts_reader : Effect
  starts_podman : List Text → Effect
  podman_exits : Effect
  -- `_remove_container`, with what it returns, `process.kill`, and the second wait, which ends with the
  -- process or runs into its two seconds
  removes_container : Text → Bool → Effect
  kills_podman : Effect
  waits_again : Bool → Effect
  sets_stop_event joins_reader closes_pty : Effect

-- `process.wait()` returns a code, or runs into EXECUTION_TIMEOUT, or the coroutine is cancelled.
pub data Waited : Type 0 where
  exits : ℤ → Waited
  expires interrupted : Waited

-- Whether a cancellation arrives while the `finally` block awaits, and where: in `_remove_container`, in
-- the second `process.wait()`, or in the await of the reader.
pub data Cleanup : Type 0 where
  completes cut_in_removal cut_in_second_wait cut_in_join : Cleanup

-- What the kernel, the event loop and podman answer.
pub record Answers : Type 0 where
  pub pty_opens : Bool
  pub podman_starts : Bool
  pub waited : Waited
  pub cleanup : Cleanup
  -- what `_remove_container` returns, and whether the second wait sees the process exit in time
  pub removed : Bool
  pub reaped : Bool
  pub output : Result (Unit {0}) Bytes
  pub elapsed : ℕ
  pub decode : Bytes → Text
  pub is_space : ℕ → Bool

-- The locals of `run_container`, and the effects so far, the last one first. `process` has the
-- process's return code.
pub record Locals : Type 0 where
  pub return_code : ℤ
  pub timed_out : Bool
  pub has_fds : Bool
  pub has_reader : Bool
  pub process : Option (Option ℤ)
  pub effects : List Effect

abbrev at_first : Locals
at_first = record {
  return_code = negsuc 0;
  timed_out = false;
  has_fds = false;
  has_reader = false;
  process = none;
  effects = [];
}

-- A step of the coroutine, which goes on or raises.
abbrev Step : Type 0
Step = Locals → Result (Unit {0}) (Unit {0}) × Locals

abbrev after : Result (Unit {0}) (Unit {0}) × Locals → Step → Result (Unit {0}) (Unit {0}) × Locals
after (ok u, s) f = f s
after (err e, s) f = (err e, s)

abbrev open_pty : Answers → Step
open_pty p s =
    if p.pty_opens
    then (ok tt, record s { has_fds = true; effects = opens_pty ∷ s.effects })
    else (err tt, s)

abbrev start_reader : Step
start_reader s = (ok tt, record s { has_reader = true; effects = starts_reader ∷ s.effects })

abbrev start_podman : Answers → List Text → Step
start_podman p argv s =
    if p.podman_starts
    then (ok tt, record s { process = some none; effects = starts_podman argv ∷ s.effects })
    else (err tt, s)

abbrev wait : Waited → Step
wait (exits n) s = (
  ok tt,
  record s { return_code = n; process = some (some n); effects = podman_exits ∷ s.effects },
)
wait expires s = (ok tt, record s { timed_out = true })
wait interrupted s = (err tt, s)

-- `if process is not None and process.returncode is None`: a cancellation leaves the `finally` block. What
-- a removal that is cut off has done by then is not known. A removal that fails is only logged, and a
-- second wait that runs out is suppressed.
abbrev reap :
    Answers
    → Cleanup
    → Text
    → Option (Option ℤ)
    → List Effect
    → Result (Unit {0}) (Unit {0}) × List Effect
reap p c name none effects = (ok tt, effects)
reap p c name (some (some n)) effects = (ok tt, effects)
reap p cut_in_removal name (some none) effects = (err tt, effects)
reap p cut_in_second_wait name (some none) effects =
    (err tt, kills_podman ∷ removes_container name p.removed ∷ effects)
reap p _ name (some none) effects =
    (ok tt, waits_again p.reaped ∷ kills_podman ∷ removes_container name p.removed ∷ effects)

-- `output = await read_task`: a cancellation cannot stop the reader's thread, which has its stop event.
abbrev join_reader : Cleanup → Answers → List Effect → Result (Unit {0}) Bytes × List Effect
join_reader cut_in_join p effects = (err tt, closes_pty ∷ effects)
join_reader _ p effects = (p.output, joins_reader ∷ closes_pty ∷ effects)

-- `if read_task is not None`, and else the descriptors are closed here.
abbrev collected : Answers → Locals → List Effect → Result (Unit {0}) Bytes × List Effect
collected p s effects =
    if s.has_reader
    then join_reader p.cleanup p effects
    else if s.has_fds
    then (ok [], closes_pty ∷ effects)
    else (ok [], effects)

-- The rest of the `finally` block.
abbrev stopped :
    Answers
    → Locals
    → Result (Unit {0}) (Unit {0}) × List Effect
    → Result (Unit {0}) Bytes × List Effect
stopped p s (ok u, effects) = collected p s (sets_stop_event ∷ effects)
stopped p s (err e, effects) = (err e, effects)

abbrev result_of :
    Answers
    → Locals
    → Result (Unit {0}) (Unit {0})
    → Result (Unit {0}) Bytes
    → Result (Unit {0}) ExecutionResult
result_of p s r (err e) = err e
result_of p s (err e) (ok output) = err e
result_of p s (ok u) (ok output) = ok (record {
  output = rstrip p.is_space (p.decode output);
  return_code = s.return_code;
  execution_time = p.elapsed;
  timed_out = s.timed_out;
})

-- `run_container`, with the container's name and its command line
unfoldable pub run_container :
    Answers → Text → List Text → Result (Unit {0}) ExecutionResult × List Effect
run_container p name argv =
    let (r, s) =
      after (after (after (open_pty p at_first) start_reader) (start_podman p argv))
        (wait p.waited) in
    let (q, effects) = stopped p s (reap p p.cleanup name s.process s.effects) in
    (result_of p s r q, effects)
