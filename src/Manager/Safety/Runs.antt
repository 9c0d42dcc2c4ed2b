-- ===== src/Manager/Safety/Runs.antt =====
-- Every orderly event keeps the invariant, so every orderly run does.
use code_executor_api.Prelude.{refl, List, [], ◌∷◌, arith}
use code_executor_api.Config.{Settings}
use code_executor_api.Manager.Registry.{count_refs}
use code_executor_api.Manager.Invariant.{init-Inv}
use code_executor_api.Manager.System.{
  System, Event, start, step, run, reserves, created, create_fails, arrives, gives_up, enters,
  leaves, deletes, sweeps, removes, takes_slot, drops_slot,
}
use code_executor_api.Manager.Safety.{IsSafe, IsOrderly, AreOrderly}
use code_executor_api.Manager.Safety.Creates.{reserves-IsSafe, created-IsSafe, create_fails-IsSafe}
use code_executor_api.Manager.Safety.Waits.{
  arrives-IsSafe, gives_up-IsSafe, leaves-IsSafe, takes_slot-IsSafe, drops_slot-IsSafe,
}
use code_executor_api.Manager.Safety.Deletes.{deletes-IsSafe, removes-IsSafe}
use code_executor_api.Manager.Safety.Locks.{enters-IsSafe, sweeps-IsSafe}

-- Every event that is orderly keeps the invariant.
pub step-IsSafe :
    (settings : Settings) (y : System) (e : Event)
    → IsSafe settings y
    → IsOrderly y e
    → IsSafe settings (step settings y e)
step-IsSafe settings y (reserves token mkdtemp now) v o = reserves-IsSafe v token mkdtemp now o
step-IsSafe settings y (created r) v o = created-IsSafe v r
step-IsSafe settings y (create_fails r) v o = create_fails-IsSafe v r
step-IsSafe settings y (arrives k) v o = arrives-IsSafe v k
step-IsSafe settings y (gives_up r) v o = gives_up-IsSafe v r
step-IsSafe settings y (enters r now) v o = enters-IsSafe v r now o
step-IsSafe settings y (leaves r) v o = leaves-IsSafe v r
step-IsSafe settings y (deletes r) v o = deletes-IsSafe v r
step-IsSafe settings y (sweeps s now) v o = sweeps-IsSafe v s now o
step-IsSafe settings y (removes r done) v o = removes-IsSafe v r done
step-IsSafe settings y takes_slot v o = takes_slot-IsSafe v
step-IsSafe settings y drops_slot v o = drops_slot-IsSafe v

pub start-IsSafe : (settings : Settings) → IsSafe settings (start settings)
unfolding count_refs
start-IsSafe settings = record {
  inv = init-Inv settings;
  slots = omega arith;
  creating_in = tt;
  running_in = tt;
  deleting_in = tt;
  exclusive = λ q. omega arith;
  unused = λ q h. refl;
}

pub run-IsSafe :
    (settings : Settings) (y : System) (es : List Event)
    → IsSafe settings y
    → AreOrderly settings y es
    → IsSafe settings (run settings y es)
unfolding run
run-IsSafe settings y [] v o = v
run-IsSafe settings y (e ∷ es) v o =
    run-IsSafe settings (step settings y e) es (step-IsSafe settings y e v o.0) o.1

-- The invariant of the manager and its suspended coroutines, `IsSafe`, holds of a fresh manager and
-- after any orderly sequence of events.
pub run-start-IsSafe :
    (settings : Settings) (es : List Event)
    → AreOrderly settings (start settings) es
    → IsSafe settings (run settings (start settings) es)
run-start-IsSafe settings es = run-IsSafe settings (start settings) es (start-IsSafe settings)
