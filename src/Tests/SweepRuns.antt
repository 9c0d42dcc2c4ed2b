-- ===== src/Tests/SweepRuns.antt =====
-- Runs of the sweep's task.
use code_executor_api.Prelude.{
  ◌==◌, if◌then◌else◌, filter, not, ◌≡◌, refl, codes, text_eq, true, false, some, none, List, [],
  ◌∷◌, Bool,
}
use code_executor_api.Manager.{Session, Manager, lookup, pop, finish_delete, sweep_deletes}
use code_executor_api.Manager.Registry.{Unique, count_refs}
use code_executor_api.Manager.System.{System, start, step, find, remove, is_free, removes, arrives}
use code_executor_api.Manager.Expiry.{sweep_once, is_expired}
use code_executor_api.Manager.Sweeper.{
  asleep, ended, TaskEvent, others, wakes, tries, resumes, cancels, task_step, run_task, try_next,
  try_acquire_lock, resume,
}
use code_executor_api.Manager.Sweeper.Rounds.{round, round-filter}
use code_executor_api.Tests.ManagerRuns.{settings, first}

abbrev recent : Session
recent = record { ref = 1; id = codes "b"; work_directory = codes "/s/b"; project_id = some 1001 }

abbrev busy : Session
busy = record { ref = 2; id = codes "c"; work_directory = codes "/s/c"; project_id = none }

abbrev three : Manager
three = record {
  sessions = first ∷ recent ∷ busy ∷ [];
  next_project_id = 1002;
  free_project_ids = [];
  slots = 1;
  last_used = λ r. if r == 1 then 20 else 3;
}

three-Unique : Unique three.sessions
unfolding lookup text_eq
three-Unique = (refl, (refl, (refl, tt)))

-- The third session's lock is held.
abbrev system : System
system = record (start settings) { manager = three; running = busy ∷ [] }

abbrev outcomes : List (Session × Bool)
outcomes = (first, false) ∷ (recent, true) ∷ (busy, true) ∷ []

-- The first session is swept, the second has been used and the third is locked.
sweep_run : (sweep_once settings 25 (is_free system) outcomes three).sessions ≡ recent ∷ busy ∷ []
unfolding sweep_once sweep_deletes finish_delete pop lookup text_eq is_free count_refs
sweep_run = refl

round-filter_example :
    (round settings outcomes
        (task_step settings (record { system = system; sweeper = asleep }) (wakes 25))
      ≡ record {
        system = record system { manager = sweep_once settings 25 (is_free system) outcomes three };
        sweeper = asleep;
      })
    × ((sweep_once settings 25 (is_free system) outcomes three).sessions
        ≡ filter (λ s. not (is_expired settings 25 (is_free system) three s)) three.sessions)
round-filter_example = round-filter settings system 25 outcomes three-Unique refl

-- The shutdown comes while the first session is deleted: its directory is removed all the same, and
-- only then has the task ended.
abbrev shutdown : List TaskEvent
shutdown =
    wakes 25
    ∷ tries true
    ∷ cancels
    ∷ resumes
    ∷ others (arrives (codes "a"))
    ∷ others (removes 0 true)
    ∷ resumes
    ∷ tries true
    ∷ []

shutdown_run :
    (run_task settings (record { system = system; sweeper = asleep }) shutdown).sweeper ≡ ended
unfolding run_task task_step step try_next try_acquire_lock resume sweep_deletes finish_delete pop
    lookup text_eq is_free count_refs find remove
shutdown_run = refl
