-- ===== src/Tests/ManagerRuns.antt =====
-- Runs of the coroutines over one manager.
use code_executor_api.Prelude.{
  ◌+◌, inl, ℕ, ◌≤◌, ◌≡◌, ◌≢◌, refl, codes, text_eq, true, some, List, [], ◌∷◌, ok, arith, length,
}
use code_executor_api.Config.{Settings}
use code_executor_api.Manager.{Session, Manager, acquire_slot, lookup, get, allocate_project_id}
use code_executor_api.Manager.Registry.{count_refs}
use code_executor_api.Manager.System.{
  System, Event, reserves, created, arrives, enters, sweeps, removes, takes_slot, start, step, run,
  find, is_free,
}
use code_executor_api.Manager.Safety.{IsSafe, AreOrderly}
use code_executor_api.Manager.Pool.{Implements}
use code_executor_api.Manager.Refines.{run-Implements}
use code_executor_api.Manager.Safety.Runs.{run-start-IsSafe}
use code_executor_api.Manager.Consequences.{capacity_bounds, project_ids_distinct, lock_excludes}
use code_executor_api.Manager.Reuse.{race, race_shares_project_id}

abbrev pub settings : Settings
settings = record {
  max_sessions = 2;
  max_concurrent_executions = 1;
  session_inactivity_timeout_seconds = 10;
  quota_enabled = true;
}

abbrev pub first : Session
first = record { ref = 0; id = codes "a"; work_directory = codes "/s/a"; project_id = some 1000 }

abbrev second : Session
second = record { ref = 1; id = codes "b"; work_directory = codes "/s/b"; project_id = some 1001 }

-- Two sessions; the first is locked for an execution, the second is being swept.
abbrev events : List Event
events =
    reserves (codes "a") (some (codes "/s/a")) 0
    ∷ created 0
    ∷ reserves (codes "b") (some (codes "/s/b")) 1
    ∷ created 1
    ∷ arrives (codes "a")
    ∷ enters 0 5
    ∷ takes_slot
    ∷ sweeps first 20
    ∷ sweeps second 20
    ∷ []

events_orderly : AreOrderly settings (start settings) events
unfolding step count_refs acquire_slot text_eq
events_orderly = (refl, (tt, (refl, (tt, (tt, (refl, (tt, (refl, (refl, tt)))))))))

run-start-IsSafe_example : IsSafe settings (run settings (start settings) events)
run-start-IsSafe_example = run-start-IsSafe settings events events_orderly

capacity_bounds_example :
    (length (run settings (start settings) events).sessions ≤ 2)
    × ((run settings (start settings) events).executing ≤ 1)
capacity_bounds_example = capacity_bounds settings events events_orderly

first_registered : lookup (codes "a") (run settings (start settings) events).sessions ≡ some first
unfolding run step acquire_slot text_eq
first_registered = refl

second_registered : lookup (codes "b") (run settings (start settings) events).sessions ≡ some second
unfolding run step acquire_slot text_eq
second_registered = refl

a_not_b : codes "a" ≢ codes "b"
a_not_b e = ground arith

project_ids_distinct_example : second.project_id ≢ some 1000
project_ids_distinct_example =
    project_ids_distinct settings events events_orderly (codes "a") (codes "b") first second 1000
      a_not_b first_registered second_registered refl

first_running : find 0 (run settings (start settings) events).running ≡ some first
unfolding run step acquire_slot text_eq
first_running = refl

lock_excludes_example :
    (count_refs 0 (run settings (start settings) events).running
        + count_refs 0 (run settings (start settings) events).deleting
      ≡ 1)
    × (get (run settings (start settings) events).manager (codes "a") ≡ ok first)
lock_excludes_example = lock_excludes settings events events_orderly 0 first (inl first_running)

second_deleting : find 1 (run settings (start settings) events).deleting ≡ some second
unfolding run step acquire_slot text_eq
second_deleting = refl

-- The quota of the first session is still being applied.
abbrev creating : System
creating = run settings (start settings) (reserves (codes "a") (some (codes "/s/a")) 0 ∷ [])

creating_first : find 0 creating.creating ≡ some first
unfolding run step acquire_slot text_eq
creating_first = refl

creating_registered : lookup (codes "a") creating.sessions ≡ some first
unfolding run step acquire_slot text_eq
creating_registered = refl

creating_free : is_free creating 0 ≡ true
unfolding run step acquire_slot text_eq
creating_free = refl

creating_idle : ◌≡◌ {A = ℕ} (creating.last_used 0) 0
unfolding run step acquire_slot text_eq
creating_idle = refl

race_shares_project_id_example :
    (m1 : Manager) × (m2 : Manager) × (allocate_project_id
        (run settings creating (race first 20)).manager
      ≡ ok (1000, m1))
    × (allocate_project_id m1 ≡ ok (1000, m2))
race_shares_project_id_example =
    race_shares_project_id settings creating first 1000 20 creating_first creating_registered refl
      creating_free (omega (arith, creating_idle))

-- The deletion of the second session ends.
run-Implements_example : Implements settings (run settings (start settings) events) (removes 1 true)
run-Implements_example = run-Implements settings events (removes 1 true) events_orderly tt
