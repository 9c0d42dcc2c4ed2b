-- ===== src/Manager/Reuse.antt =====
-- A session that the sweep takes while its `create` still applies the quota: what the two coroutines
-- do to the free project ids.
use code_executor_api.Prelude.{ℕ, ◌-◌, ◌<◌, ◌≡◌, refl, true, some, List, [], ◌∷◌, arith, ok}
use code_executor_api.Config.{Settings}
use code_executor_api.Manager.{
  Session, Manager, lookup, create_abort, finish_delete, sweep_deletes, allocate_project_id,
}
use code_executor_api.Manager.System.{
  System, Event, step, run, sweeps, removes, create_fails, find, is_free,
}

-- The sweep that meets an idle session in creation, its directory removed, and then the failure of
-- the quota commands.
abbrev pub race : Session → ℕ → List Event
race s now = sweeps s now ∷ removes s.ref true ∷ create_fails s.ref ∷ []

sweep_takes :
    (settings : Settings) (y : System) (s : Session) (now : ℕ)
    → lookup s.id y.sessions ≡ some s
    → settings.session_inactivity_timeout_seconds < now - y.last_used s.ref
    → sweep_deletes settings now s y.manager ≡ some s
unfolding sweep_deletes
sweep_takes settings y s now h idle = ground arith

find-head : (s : Session) (l : List Session) → find s.ref (s ∷ l) ≡ some s
unfolding find
find-head s l = ground arith

freed_twice :
    (s : Session) (n : ℕ) (m : Manager)
    → s.project_id ≡ some n
    → (create_abort s (finish_delete true s m)).free_project_ids ≡ n ∷ n ∷ m.free_project_ids
unfolding create_abort finish_delete
freed_twice s n m h = ground arith

-- If a session is idle for longer than the timeout before the quota commands for it fail, its project
-- id is released twice: it is twice at the head of the free list.
released_twice :
    (settings : Settings) (y : System) (s : Session) (n now : ℕ)
    → find s.ref y.creating ≡ some s
    → lookup s.id y.sessions ≡ some s
    → s.project_id ≡ some n
    → is_free y s.ref ≡ true
    → settings.session_inactivity_timeout_seconds < now - y.last_used s.ref
    → (run settings y (race s now)).free_project_ids ≡ n ∷ n ∷ y.free_project_ids
unfolding run step
released_twice settings y s n now c h p f idle =
    rw (f, sweep_takes settings y s now h idle, find-head s y.deleting, c)
      (freed_twice s n y.manager p)

-- The next two sessions are then given one project id.
allocated_twice :
    (m : Manager) (n : ℕ) (rest : List ℕ)
    → m.free_project_ids ≡ n ∷ n ∷ rest
    → (m1 : Manager) × (m2 : Manager) × (allocate_project_id m ≡ ok (n, m1))
      × (allocate_project_id m1 ≡ ok (n, m2))
unfolding allocate_project_id
allocated_twice m n rest h = (
  record m { free_project_ids = n ∷ rest },
  record m { free_project_ids = rest },
  ground arith,
  refl,
)

-- A session that the sweep finds idle for longer than the timeout while its quota commands still
-- run, and whose quota commands then fail, has its project id released twice: the next two sessions
-- to be created are given one project id.
pub race_shares_project_id :
    (settings : Settings) (y : System) (s : Session) (n now : ℕ)
    → find s.ref y.creating ≡ some s
    → lookup s.id y.sessions ≡ some s
    → s.project_id ≡ some n
    → is_free y s.ref ≡ true
    → settings.session_inactivity_timeout_seconds < now - y.last_used s.ref
    → (m1 : Manager) × (m2 : Manager) × (allocate_project_id (run settings y (race s now)).manager
        ≡ ok (n, m1))
      × (allocate_project_id m1 ≡ ok (n, m2))
race_shares_project_id settings y s n now c h p f idle =
    allocated_twice (run settings y (race s now)).manager n y.free_project_ids
      (released_twice settings y s n now c h p f idle)
