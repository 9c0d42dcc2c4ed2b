-- ===== src/Manager/Consequences.antt =====
-- What the invariant means for the program: capacity, project ids, locks and execution slots, after
-- any orderly run of the coroutines.
use code_executor_api.Prelude.{
  ℕ, ◌-◌, ◌+◌, ◌≤◌, Text, ◌≡◌, ◌≢◌, refl, ◌∙◌, ap, Bool, false, none, some, List, ok, err, arith,
  length, ◌⊎◌, inl, inr,
}
use code_executor_api.Config.{Settings}
use code_executor_api.Manager.{
  Session, Manager, session_not_found, lookup, get, finish_delete, sweep_deletes, project_id_base,
  project_id_max,
}
use code_executor_api.Manager.Registry.{
  count, count_refs, count_ids-two, count_ids-found, lookup-pop_self, has_id_self,
}
use code_executor_api.Manager.Invariant.{sessions-finish_delete}
use code_executor_api.Manager.Frames.{Registered, All-find, ref-find, count_refs-remove_found}
use code_executor_api.Manager.System.{
  System, Event, start, step, run, removes, sweeps, find, is_free,
}
use code_executor_api.Manager.Safety.{IsSafe, AreOrderly}
use code_executor_api.Manager.Safety.Runs.{run-start-IsSafe}

abbrev after : Settings → List Event → System
after settings es = run settings (start settings) es

pub get-absent :
    (m : Manager) (k : Text) → lookup k m.sessions ≡ none → get m k ≡ err session_not_found
unfolding get
get-absent m k h = rw (h, get)

module _ (settings : Settings) (es : List Event) (o : AreOrderly settings (start settings) es) where
  safe : IsSafe settings (after settings es)
  safe = run-start-IsSafe settings es o

  -- After any orderly events, no more sessions than MAX_SESSIONS are registered and no more executions are
  -- under way than MAX_CONCURRENT_EXECUTIONS. Orderly events give a creation an id that is not in use, and
  -- neither lock nor sweep a session that is still being created.
  pub capacity_bounds :
      (length (after settings es).sessions ≤ settings.max_sessions)
      × ((after settings es).executing ≤ settings.max_concurrent_executions)
  capacity_bounds = let v = safe in (v.inv.capacity, omega (arith, v.slots))

  -- After any orderly events, in which no session is swept or locked while it is being created, no two
  -- sessions that are registered under different keys have one project id.
  pub project_ids_distinct :
      (j k : Text) (s t : Session) (n : ℕ)
      → j ≢ k
      → lookup j (after settings es).sessions ≡ some s
      → lookup k (after settings es).sessions ≡ some t
      → s.project_id ≡ some n
      → t.project_id ≢ some n
  project_ids_distinct j k s t n ne hs ht ps pt = omega (
    arith,
    safe.inv.once n,
    count_ids-two n j k (after settings es).sessions s t ne hs ht,
    has_id_self n s.project_id ps,
    has_id_self n t.project_id pt,
  )

  -- The project id of a registered session lies in the reserved range and is not in the free list.
  project_id_range :
      (k : Text) (s : Session) (n : ℕ)
      → lookup k (after settings es).sessions ≡ some s
      → s.project_id ≡ some n
      → (project_id_base ≤ n)
        × (n ≤ project_id_max)
        × (count n (after settings es).free_project_ids ≡ 0)
  project_id_range k s n h p =
      let used = count_ids-found n k (after settings es).sessions s h in
      let one = has_id_self n s.project_id p in
      let i = safe.inv in
      (grind (arith, i.based n), grind (arith, i.fresh n, i.to), omega (arith, i.once n))

  -- After any orderly events, a session whose lock is held, by a running body or by a deletion that is
  -- under way, is held by that one coroutine alone, and is the session that the manager has under its id.
  pub lock_excludes :
      (r : ℕ) (s : Session)
      → (find r (after settings es).running ≡ some s)
        ⊎ (find r (after settings es).deleting ≡ some s)
      → (count_refs r (after settings es).running + count_refs r (after settings es).deleting ≡ 1)
        × (get (after settings es).manager s.id ≡ ok s)
  unfolding get
  lock_excludes r s (inl h) =
      let v = safe in
      let y : System = after settings es in
      let here : Registered y.sessions s =
        All-find (Registered y.sessions) r y.running s v.running_in h in
      let one = count_refs-remove_found r y.running s h in
      let e = ref-find r y.running s h in
      (rw (← e) (omega (arith, v.exclusive s.ref)), rw (get, here) refl)
  lock_excludes r s (inr h) =
      let v = safe in
      let y : System = after settings es in
      let here : Registered y.sessions s =
        All-find (Registered y.sessions) r y.deleting s v.deleting_in h in
      let one = count_refs-remove_found r y.deleting s h in
      let e = ref-find r y.deleting s h in
      (rw (← e) (omega (arith, v.exclusive s.ref)), rw (get, here) refl)

  -- Once the deletion of a session has finished, its directory removed or not, its id is unknown.
  deleted_not_found :
      (r : ℕ) (s : Session) (done : Bool)
      → find r (after settings es).deleting ≡ some s
      → get (step settings (after settings es) (removes r done)).manager s.id
        ≡ err session_not_found
  unfolding step
  deleted_not_found r s done h =
      let v = safe in
      let here : Registered (after settings es).sessions s =
        All-find (Registered (after settings es).sessions) r (after settings es).deleting s
          v.deleting_in h in
      rw h (
        get-absent (finish_delete done s (after settings es).manager) s.id (
          ap (lookup s.id) (sessions-finish_delete s v.inv here done)
          ∙ lookup-pop_self s.id (after settings es).sessions v.inv.keys))

-- The sweep leaves a session alone while another coroutine holds its lock, and while it has been
-- used within SESSION_INACTIVITY_TIMEOUT_SECONDS.
sweep_spares :
    (settings : Settings) (y : System) (s : Session) (now : ℕ)
    → (is_free y s.ref ≡ false)
      ⊎ (now - y.last_used s.ref ≤ settings.session_inactivity_timeout_seconds)
    → step settings y (sweeps s now) ≡ y
unfolding step sweep_deletes
sweep_spares settings y s now h = ground arith
