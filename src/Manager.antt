-- ===== src/Manager.antt =====
-- code_executor_api/sessions.py, `SessionManager` and the exceptions of the module. One function for
-- each piece of a method that runs without an `await`; `Manager.System` interleaves the pieces.
-- Time is a number of ticks of `time.monotonic()`.
pub mod Registry
pub mod System
pub mod Reserve
pub mod Invariant
pub mod Frames
pub mod Recheck
pub mod Safety
pub mod Consequences
pub mod Reuse
pub mod Expiry
pub mod Pool
pub mod Refines
pub mod Sweeper
use code_executor_api.Prelude.{
  ℕ, ◌+◌, ◌-◌, Text, text_eq, Bool, true, false, ◌&&◌, not, Option, none, some, List, [], ◌∷◌, ◌++◌,
  Result, ok, err, ltb, leb, ◌==◌, if◌then◌else◌, ◌>>=◌, length,
}
use code_executor_api.Config.{Settings}

-- The exceptions that reach a handler. `os_error` is any `OSError` of `tempfile.mkdtemp`.
pub data SessionError : Type 0 where
  session_not_found session_lock_timeout session_limit_reached quota_setup_failed : SessionError
  execution_limit_reached os_error : SessionError

-- `Session`, without what mutates: `ref` is the identity of the object, by which the manager keeps
-- `last_used`, and the system the state of `lock`.
pub record Session : Type 0 where
  pub ref : ℕ
  pub id : Text
  pub work_directory : Text
  pub project_id : Option ℕ

abbrev pub project_id_base : ℕ
project_id_base = 1000

abbrev pub project_id_max : ℕ
project_id_max = 2147483647

-- `_sessions` in insertion order, each session under its `id`; `_free_project_ids` with its last
-- element first; the value of `_execution_semaphore`.
pub record Manager : Type 0 where
  pub sessions : List Session
  pub next_project_id : ℕ
  pub free_project_ids : List ℕ
  pub slots : ℕ
  pub last_used : ℕ → ℕ

-- `__init__`
abbrev pub init : Settings → Manager
init settings = record {
  sessions = [];
  next_project_id = project_id_base;
  free_project_ids = [];
  slots = settings.max_concurrent_executions;
  last_used = λ _. 0;
}

-- `_sessions.get(id)`
unfoldable pub lookup : Text → List Session → Option Session
lookup k [] = none
lookup k (s ∷ l) = if text_eq s.id k then some s else lookup k l

-- `_sessions.pop(id, None)`
unfoldable pub pop : Text → List Session → List Session
pop k [] = []
pop k (s ∷ l) = if text_eq s.id k then l else s ∷ pop k l

-- `_sessions[session.id] = session`
unfoldable pub insert : Session → List Session → List Session
insert t [] = t ∷ []
insert t (s ∷ l) = if text_eq s.id t.id then t ∷ l else s ∷ insert t l

-- `get`
unfoldable pub get : Manager → Text → Result SessionError Session
get m k = elim (lookup k m.sessions) [ none ↦ err session_not_found | some s ↦ ok s ]

-- `_allocate_project_id`
unfoldable pub allocate_project_id : Manager → Result SessionError (ℕ × Manager)
allocate_project_id m = elim m.free_project_ids [
  | id ∷ rest ↦ ok (id, record m { free_project_ids = rest })
  | [] ↦
      if ltb project_id_max m.next_project_id
      then err quota_setup_failed
      else ok (m.next_project_id, record m { next_project_id = m.next_project_id + 1 })
]

-- `_release_project_id`
unfoldable pub release_project_id : Option ℕ → Manager → Manager
release_project_id none m = m
release_project_id (some id) m = record m { free_project_ids = id ∷ m.free_project_ids }

-- `self._allocate_project_id() if SESSION_QUOTA_MOUNTPOINT is not None else None`
abbrev pub project_id_for : Bool → Manager → Result SessionError (Option ℕ × Manager)
project_id_for false m = ok (none, m)
project_id_for true m = allocate_project_id m >>= λ (id, m'). ok (some id, m')

abbrev pub made_directory : Option Text → Result SessionError Text
made_directory none = err os_error
made_directory (some d) = ok d

-- `create` up to its `await`. What the libraries return is given: the new object's identity, the
-- token, the result of `mkdtemp` and the clock.
unfoldable pub create_reserve :
    Settings → ℕ → Text → Option Text → ℕ → Manager → Result SessionError (Session × Manager)
unfolding allocate_project_id insert
create_reserve settings ref token mkdtemp now m =
    if leb settings.max_sessions (length m.sessions) then err session_limit_reached else do
      directory ← made_directory mkdtemp
      (id, m') ← project_id_for settings.quota_enabled m
      let session : Session = record {
        ref = ref;
        id = token;
        work_directory = directory;
        project_id = id;
      }
      ok (
        session,
        record m' {
          sessions = insert session m'.sessions;
          last_used = λ r. if r == ref then now else m'.last_used r;
        },
      )

-- The `except BaseException` branch of `create`: the removal of the directory is best effort.
unfoldable pub create_abort : Session → Manager → Manager
unfolding pop release_project_id
create_abort s m = release_project_id s.project_id (record m { sessions = pop s.id m.sessions })

-- `_delete` once `_remove_tree` has returned or raised `OSError`.
unfoldable pub finish_delete : Bool → Session → Manager → Manager
unfolding pop release_project_id
finish_delete true s m =
    let released = release_project_id s.project_id m in
    record released { sessions = pop s.id released.sessions }
finish_delete false s m = record m { sessions = pop s.id m.sessions }

-- The body of `locked` once the lock is taken: the session may have been retired meanwhile. The
-- object yielded is the one found, which is the one that was locked.
unfoldable pub recheck : Session → ℕ → Manager → Result SessionError (Session × Manager)
unfolding get
recheck s now m = get m s.id >>= λ found.
    if found.ref == s.ref
    then ok (found, record m { last_used = λ r. if r == s.ref then now else m.last_used r })
    else err session_not_found

-- The tests of `_sweep_once` once it has the lock: it deletes the session that it found in the
-- dictionary, the one of its snapshot, or goes on to the next.
unfoldable pub sweep_deletes : Settings → ℕ → Session → Manager → Option Session
unfolding lookup
sweep_deletes settings now s m = elim (lookup s.id m.sessions) [
  | none ↦ none
  | some found ↦
      if (found.ref == s.ref)
        && not (leb (now - m.last_used s.ref) settings.session_inactivity_timeout_seconds)
      then some found
      else none
]

-- `execution_slot`: the semaphore is taken, or the wait for it times out.
unfoldable pub acquire_slot : Manager → Result SessionError Manager
acquire_slot m =
    if m.slots == 0 then err execution_limit_reached else ok (record m { slots = m.slots - 1 })

unfoldable pub release_slot : Manager → Manager
release_slot m = record m { slots = m.slots + 1 }

-- `delete_all`, which no handler runs beside: each session of the snapshot is deleted in turn, and
-- the removal of its directory succeeds or fails as the list says.
unfoldable pub delete_all : List (Session × Bool) → Manager → Manager
unfolding finish_delete
delete_all [] m = m
delete_all ((s, removed) ∷ rest) m = delete_all rest (finish_delete removed s m)
