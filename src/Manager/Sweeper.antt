-- ===== src/Manager/Sweeper.antt =====
-- code_executor_api/sessions.py, the sweep's task: `_sweep_loop`, `_sweep_once` and
-- `_try_acquire_lock` at their awaits, and the cancellation by `stop_sweep`, beside the other coroutines
-- of the manager.
use code_executor_api.Prelude.{
  ℕ, ◌-◌, Bool, true, false, ◌&&◌, Option, none, some, List, [], ◌∷◌, if◌then◌else◌,
}
use code_executor_api.Config.{Settings}
use code_executor_api.Manager.{Session, Manager, sweep_deletes}
use code_executor_api.Manager.System.{
  System, Event, start, step, find, is_free, swept, reserves, created, create_fails, arrives,
  gives_up, enters, leaves, deletes, sweeps, removes, takes_slot, drops_slot,
}
pub mod Rounds

-- Where the task is suspended.
pub data Sweeper : Type 0 where
  -- in `asyncio.sleep`
  asleep : Sweeper
  -- in `_try_acquire_lock` of the first session: the round's clock, and what is left of its snapshot
  trying : ℕ → List Session → Sweeper
  -- in `asyncio.shield(deletion)`, cancelled or not; what is left after the session
  awaiting : ℕ → Session → List Session → Bool → Sweeper
  -- cancelled, and no longer awaiting a deletion
  ended : Sweeper

pub record Task : Type 0 where
  pub system : System
  pub sweeper : Sweeper

abbrev pub start_task : Settings → Task
start_task settings = record { system = start settings; sweeper = asleep }

pub data TaskEvent : Type 0 where
  -- another coroutine goes on
  others : Event → TaskEvent
  -- the sleep is over; the clock
  wakes : ℕ → TaskEvent
  -- `_try_acquire_lock` returns: whether it has had the time to take a lock that is free
  tries : Bool → TaskEvent
  -- the await of the deletion is over
  resumes : TaskEvent
  -- `stop_sweep` cancels the task
  cancels : TaskEvent

-- What follows in the round: the next session, or the next sleep.
abbrev pub next : ℕ → List Session → Sweeper
next now [] = asleep
next now (s ∷ rest) = trying now (s ∷ rest)

-- The sweep is the task's own.
abbrev pub is_sweep : Event → Bool
is_sweep (sweeps s now) = true
is_sweep _ = false

-- With the lock, and after the tests: `_delete` is begun as a task of its own, which keeps the lock.
abbrev pub tested : Task → ℕ → List Session → Option Session → Task
tested t now rest none = record t { sweeper = next now rest }
tested t now rest (some s) = record {
  system = swept t.system (some s);
  sweeper = awaiting now s rest false;
}

-- `_try_acquire_lock`, when it returns: a lock that is free is taken, unless the timeout has come first;
-- for one that is held there is no wait.
unfoldable pub try_acquire_lock : Bool → System → ℕ → Bool
unfolding is_free
try_acquire_lock in_time y r = in_time && is_free y r

-- `_sweep_once`, from the return of `_try_acquire_lock` to its next await
unfoldable pub try_next : Settings → Bool → Sweeper → Task → Task
unfolding try_acquire_lock sweep_deletes
try_next settings taken (trying now (s ∷ rest)) t =
    if try_acquire_lock taken t.system s.ref
    then tested t now rest (sweep_deletes settings now s t.system.manager)
    else record t { sweeper = next now rest }
try_next settings taken _ t = t

-- The cancelled task raises once the deletion is over; else the round goes on.
abbrev pub after_deletion : ℕ → List Session → Bool → Sweeper
after_deletion now rest true = ended
after_deletion now rest false = next now rest

-- The deletion is over once its frame is gone.
abbrev pub if_over : Option Session → Sweeper → Sweeper → Sweeper
if_over none after before = after
if_over (some s) after before = before

unfoldable pub resume : Sweeper → Task → Task
unfolding find
resume (awaiting now s rest cancelled) t = record t {
  sweeper =
      if_over (find s.ref t.system.deleting) (after_deletion now rest cancelled)
        (awaiting now s rest cancelled);
}
resume _ t = t

-- `stop_sweep`: the deletion that is awaited goes on, with the lock held.
abbrev pub cancel : Sweeper → Sweeper
cancel (awaiting now s rest cancelled) = awaiting now s rest true
cancel _ = ended

abbrev pub wake : ℕ → Sweeper → Task → Task
wake now asleep t = record t { sweeper = next now t.system.sessions }
wake now _ t = t

unfoldable pub task_step : Settings → Task → TaskEvent → Task
unfolding try_next resume step
task_step settings t (others e) =
    if is_sweep e then t else record t { system = step settings t.system e }
task_step settings t (wakes now) = wake now t.sweeper t
task_step settings t (tries taken) = try_next settings taken t.sweeper t
task_step settings t resumes = resume t.sweeper t
task_step settings t cancels = record t { sweeper = cancel t.sweeper }

unfoldable pub run_task : Settings → Task → List TaskEvent → Task
run_task settings t [] = t
run_task settings t (e ∷ es) = run_task settings (task_step settings t e) es
