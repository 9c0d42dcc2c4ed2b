-- ===== src/Manager/Safety.antt =====
-- The invariant of the interleaved coroutines, and what is assumed of the events.
pub mod Creates
pub mod Waits
pub mod Deletes
pub mod Locks
pub mod Runs
use code_executor_api.Prelude.{
  ℕ, suc, ◌+◌, ◌-◌, ◌≤◌, ◌<◌, Text, ◌≡◌, refl, sym, ◌∙◌, subst, ap, inl, inr, Bool, true, false,
  ◌&&◌, Option, none, some, List, [], ◌∷◌, All, ok, err, Result, arith, Bool-cases, Option-cases,
  Result-cases, ◌==◌, if◌then◌else◌, text_eq_refl,
}
use code_executor_api.Config.{Settings}
use code_executor_api.Manager.{
  Session, Manager, SessionError, init, lookup, get, create_reserve, create_abort, finish_delete,
  recheck, sweep_deletes, acquire_slot, release_slot,
}
use code_executor_api.Manager.Registry.{
  count_refs, lookup-insert, count_refs-insert, count_refs-pop, count_refs-lookup,
}
use code_executor_api.Manager.Reserve.{create_reserve-Reserves}
use code_executor_api.Manager.Invariant.{
  Inv, reserve-Inv, finish_delete-Inv, create_abort-Inv, sessions-create_abort,
  sessions-finish_delete, slots-create_abort, slots-finish_delete, same-Inv, init-Inv,
}
use code_executor_api.Manager.Frames.{
  Registered, same-Registered, lookup-Registered, id-lookup, ref-find, count_refs-remove,
  count_refs-remove_found, count_refs-remove_le, All-remove, find-found, All-find,
  insert-Registered, pop-Registered,
}
use code_executor_api.Manager.Recheck.{Touches, recheck-found, sweep_deletes-found}
use code_executor_api.Manager.System.{
  System, Event, start, step, run, reserves, created, create_fails, arrives, gives_up, enters,
  leaves, deletes, sweeps, removes, takes_slot, drops_slot, find, remove, is_free, entered, swept,
}

-- The frames of one session: at most one of them creates it or holds its lock.
abbrev pub owners : ℕ → System → ℕ
owners r y = count_refs r y.creating + count_refs r y.running + count_refs r y.deleting

pub record IsSafe (settings : Settings) (y : System) : Type 0 where
  pub inv : Inv settings y.manager
  pub slots : y.slots + y.executing ≡ settings.max_concurrent_executions
  pub creating_in : All (Registered y.sessions) y.creating
  pub running_in : All (Registered y.sessions) y.running
  pub deleting_in : All (Registered y.sessions) y.deleting
  pub exclusive : (r : ℕ) → owners r y ≤ 1
  pub unused : (r : ℕ) → y.next_ref ≤ r → owners r y + count_refs r y.sessions ≡ 0

-- What the rest of the program gives the manager: tokens do not repeat, a client has a session's id
-- only once `create` has returned it, and the sweep does not meet a session whose quota is still
-- being applied.
abbrev pub IsOrderly : System → Event → Type 0
IsOrderly y (reserves token _ _) = lookup token y.sessions ≡ none
IsOrderly y (enters r _) = count_refs r y.creating ≡ 0
IsOrderly y (sweeps s _) = count_refs s.ref y.creating ≡ 0
IsOrderly y _ = Unit

abbrev pub AreOrderly : Settings → System → List Event → Type 0
AreOrderly settings y [] = Unit
AreOrderly settings y (e ∷ es) = IsOrderly y e × AreOrderly settings (step settings y e) es
