-- ===== src/Manager/Pool.antt =====
-- What `SessionManager` promises its clients: a pool of live sessions of bounded size, which open and
-- close one at a time, and a bounded number of executions.
pub mod Changes
use code_executor_api.Prelude.{
  ℕ, suc, ◌<◌, ◌≤◌, Text, ◌≡◌, ◌≢◌, ◌⊎◌, List, [], Bool, Option, none, some, true, false, Result,
  ok, err, length,
}
use code_executor_api.Config.{Settings}
use code_executor_api.Manager.{Session, SessionError, get, project_id_max}
use code_executor_api.Manager.System.{
  System, Event, step, find, reserves, create_fails, removes, takes_slot, drops_slot,
}

-- Which ids are known, how many, and how many executions are under way.
pub record Pool : Type 0 where
  pub live : Text → Bool
  pub size : ℕ
  pub executing : ℕ

pub record Same (p q : Pool) : Type 0 where
  pub live_eq : (k : Text) → q.live k ≡ p.live k
  pub size_eq : q.size ≡ p.size
  pub executing_eq : q.executing ≡ p.executing

pub record Opens (settings : Settings) (k : Text) (p q : Pool) : Type 0 where
  pub free : p.live k ≡ false
  pub room : p.size < settings.max_sessions
  pub opened : q.live k ≡ true
  pub others : (j : Text) → j ≢ k → q.live j ≡ p.live j
  pub size_eq : q.size ≡ suc p.size
  pub executing_eq : q.executing ≡ p.executing

pub record Closes (k : Text) (p q : Pool) : Type 0 where
  pub known : p.live k ≡ true
  pub closed : q.live k ≡ false
  pub others : (j : Text) → j ≢ k → q.live j ≡ p.live j
  pub size_eq : p.size ≡ suc q.size
  pub executing_eq : q.executing ≡ p.executing

pub record Executes (p q : Pool) : Type 0 where
  pub live_eq : (k : Text) → q.live k ≡ p.live k
  pub size_eq : q.size ≡ p.size
  pub executing_eq : q.executing ≡ suc p.executing

-- What can be seen of a pool's change.
pub data Label : Type 0 where
  quiet starting ending : Label
  opening closing : Text → Label

-- What a pool may do next.
pub data Action (settings : Settings) : Label → Pool → Pool → Type 0 where
  stays : (p q : Pool) → Same p q → Action settings quiet p q
  opens : (p q : Pool) (k : Text) → Opens settings k p q → Action settings (opening k) p q
  closes : (p q : Pool) (k : Text) → Closes k p q → Action settings (closing k) p q
  starts :
      (p q : Pool)
      → p.executing < settings.max_concurrent_executions
      → Executes p q
      → Action settings starting p q
  ends : (p q : Pool) → Executes q p → Action settings ending p q

abbrev pub is_known : Result SessionError Session → Bool
is_known (ok s) = true
is_known (err e) = false

-- A manager and its coroutines, as a pool: a session is live if `get` finds it.
abbrev pub view : System → Pool
view y = record {
  live = λ k. is_known (get y.manager k);
  size = length y.sessions;
  executing = y.executing;
}

-- There is no room for a session, no directory, or no project id.
abbrev pub IsRefusal : Settings → System → Option Text → Type 0
IsRefusal settings y mkdtemp =
    (settings.max_sessions ≤ length y.sessions)
    ⊎ ((mkdtemp ≡ none)
        ⊎ ((settings.quota_enabled ≡ true)
            × ((y.free_project_ids ≡ []) × (project_id_max < y.next_project_id))))

-- A creation opens the session of its own id, or there is a reason for it to fail.
abbrev pub IsOpening : Settings → System → Text → Option Text → Label → Type 0
IsOpening settings y token mkdtemp quiet = IsRefusal settings y mkdtemp
IsOpening settings y token mkdtemp (opening k) = k ≡ token
IsOpening settings y token mkdtemp _ = ⊥

-- The end of a creation or a deletion closes the session that it is of.
abbrev pub IsClosing : Option Session → Label → Type 0
IsClosing none quiet = Unit {0}
IsClosing (some s) (closing k) = k ≡ s.id
IsClosing _ _ = ⊥

-- An execution starts unless the limit is reached.
abbrev pub IsStarting : ℕ → ℕ → Label → Type 0
IsStarting limit executing quiet = limit ≤ executing
IsStarting limit executing starting = Unit {0}
IsStarting limit executing _ = ⊥

-- An execution ends if there is one.
abbrev pub IsEnding : ℕ → Label → Type 0
IsEnding executing quiet = executing ≡ 0
IsEnding executing ending = Unit {0}
IsEnding executing _ = ⊥

abbrev pub IsQuiet : Label → Type 0
IsQuiet quiet = Unit {0}
IsQuiet _ = ⊥

-- What an event may be seen as.
abbrev pub Allows : Settings → System → Event → Label → Type 0
Allows settings y (reserves token mkdtemp now) l = IsOpening settings y token mkdtemp l
Allows settings y (create_fails r) l = IsClosing (find r y.creating) l
Allows settings y (removes r done) l = IsClosing (find r y.deleting) l
Allows settings y takes_slot l = IsStarting settings.max_concurrent_executions y.executing l
Allows settings y drops_slot l = IsEnding y.executing l
Allows settings y _ l = IsQuiet l

-- The event does to the pool what it may, and nothing else.
abbrev pub Implements : Settings → System → Event → Type 0
Implements settings y e =
    (l : Label) × Allows settings y e l × Action settings l (view y) (view (step settings y e))
