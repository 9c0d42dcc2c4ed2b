-- ===== src/Manager/System.antt =====
-- The coroutines that run over one `SessionManager`, interleaved at their awaits. A frame is a
-- coroutine that is suspended, by the session that it holds: `create` during `_apply_quota`, `locked`
-- while it waits for the lock or while its body runs, `_delete` during `_remove_tree`. The session's
-- lock is held exactly by the frames of the last two kinds.
use code_executor_api.Prelude.{
  ℕ, suc, ◌-◌, Text, Bool, ◌&&◌, Option, none, some, List, [], ◌∷◌, Result, ok, err, ◌==◌,
  if◌then◌else◌,
}
use code_executor_api.Config.{Settings}
use code_executor_api.Manager.{
  SessionError, Session, Manager, init, get, create_reserve, create_abort, finish_delete, recheck,
  sweep_deletes, acquire_slot, release_slot,
}
use code_executor_api.Manager.Registry.{count_refs}

pub record System : Type 0 where
  pub manager : Manager
  pub open manager use *
  pub creating : List Session
  pub waiting : List Session
  pub running : List Session
  pub deleting : List Session
  pub executing : ℕ
  pub next_ref : ℕ

abbrev pub start : Settings → System
start settings = record {
  manager = init settings;
  creating = [];
  waiting = [];
  running = [];
  deleting = [];
  executing = 0;
  next_ref = 0;
}

-- What happens next: which coroutine goes on, and what it is given by its environment.
pub data Event : Type 0 where
  -- `create` runs to its await: the token, the result of `mkdtemp`, the clock
  reserves : Text → Option Text → ℕ → Event
  -- the `_apply_quota` of this session's `create` returns, or raises
  created create_fails : ℕ → Event
  -- `locked` looks the id up
  arrives : Text → Event
  -- its wait for the lock times out, or ends with the lock; then the clock
  gives_up : ℕ → Event
  enters : ℕ → ℕ → Event
  -- its body ends, or goes on to `_delete`
  leaves deletes : ℕ → Event
  -- the sweep comes to this session of its snapshot
  sweeps : Session → ℕ → Event
  -- `_remove_tree` returns, or raises `OSError`
  removes : ℕ → Bool → Event
  -- `execution_slot`
  takes_slot drops_slot : Event

-- The first frame of a session, by the session's identity.
unfoldable pub find : ℕ → List Session → Option Session
find r [] = none
find r (s ∷ l) = if s.ref == r then some s else find r l

unfoldable pub remove : ℕ → List Session → List Session
remove r [] = []
remove r (s ∷ l) = if s.ref == r then l else s ∷ remove r l

-- No frame holds the lock of the session.
unfoldable pub is_free : System → ℕ → Bool
unfolding count_refs
is_free y r = count_refs r y.running == 0 && count_refs r y.deleting == 0

abbrev pub reserved : System → Result SessionError (Session × Manager) → System
reserved y (ok (s, m)) = record y {
  manager = m;
  creating = s ∷ y.creating;
  next_ref = suc y.next_ref;
}
reserved y (err e) = y

abbrev pub create_failed : System → Option Session → System
create_failed y none = y
create_failed y (some s) = record y {
  manager = create_abort s y.manager;
  creating = remove s.ref y.creating;
}

abbrev pub arrived : System → Result SessionError Session → System
arrived y (ok s) = record y { waiting = s ∷ y.waiting }
arrived y (err e) = y

-- With the lock, the session is checked again: the body runs, or the lock is released at once.
abbrev pub entered : System → ℕ → Result SessionError (Session × Manager) → System
entered y r (ok (s, m)) = record y {
  manager = m;
  waiting = remove r y.waiting;
  running = s ∷ y.running;
}
entered y r (err e) = record y { waiting = remove r y.waiting }

abbrev pub begun : System → Option Session → System
begun y none = y
begun y (some s) = record y { running = remove s.ref y.running; deleting = s ∷ y.deleting }

abbrev pub removed : System → Bool → Option Session → System
removed y done none = y
removed y done (some s) = record y {
  manager = finish_delete done s y.manager;
  deleting = remove s.ref y.deleting;
}

abbrev pub slot_taken : System → Result SessionError Manager → System
slot_taken y (ok m) = record y { manager = m; executing = suc y.executing }
slot_taken y (err e) = y

abbrev pub swept : System → Option Session → System
swept y none = y
swept y (some s) = record y { deleting = s ∷ y.deleting }

abbrev enter : System → ℕ → Option Session → System
enter y now none = y
enter y now (some s) = if is_free y s.ref then entered y s.ref (recheck s now y.manager) else y

-- An event that cannot happen changes nothing.
unfoldable pub step : Settings → System → Event → System
unfolding find remove is_free create_reserve create_abort finish_delete recheck sweep_deletes get
step settings y (reserves token mkdtemp now) =
    reserved y (create_reserve settings y.next_ref token mkdtemp now y.manager)
step settings y (created r) = record y { creating = remove r y.creating }
step settings y (create_fails r) = create_failed y (find r y.creating)
step settings y (arrives k) = arrived y (get y.manager k)
step settings y (gives_up r) = record y { waiting = remove r y.waiting }
step settings y (enters r now) = enter y now (find r y.waiting)
step settings y (leaves r) = record y { running = remove r y.running }
step settings y (deletes r) = begun y (find r y.running)
step settings y (sweeps s now) =
    if is_free y s.ref then swept y (sweep_deletes settings now s y.manager) else y
step settings y (removes r done) = removed y done (find r y.deleting)
step settings y takes_slot = slot_taken y (acquire_slot y.manager)
step settings y drops_slot =
    if y.executing == 0
    then y
    else record y { manager = release_slot y.manager; executing = y.executing - 1 }

unfoldable pub run : Settings → System → List Event → System
run settings y [] = y
run settings y (e ∷ es) = run settings (step settings y e) es
