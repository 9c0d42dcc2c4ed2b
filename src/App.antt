-- ===== src/App.antt =====
-- code_executor_api/app_factory.py, code_executor_api/routes/health.py and app.py: the routing table,
-- the sweep task over the life of the application, and the start of the server.
pub mod Life
use code_executor_api.Prelude.{
  ℕ, ◌+◌, ◌-◌, ℤ, Text, codes, text_eq, Bool, true, false, Option, none, some, List, [], ◌∷◌,
  Result, ok, err, if◌then◌else◌, ◌>>=◌, ◌≡◌, ◌≢◌, refl,
}
use code_executor_api.Config.{Settings}
use code_executor_api.Config.Env.{ConfigError, parse_host, parse_port, check_quota}
use code_executor_api.Manager.{Session, Manager, init, delete_all}

pub data Method : Type 0 where
  get post put delete : Method

pub data Endpoint : Type 0 where
  handle_create_session handle_delete_session handle_get_file handle_put_file : Endpoint
  handle_delete_file handle_execute handle_health : Endpoint

-- The routes of `create_app`, with aiohttp's patterns
abbrev pub routes : List (Method × Text × Endpoint)
routes =
    (post, codes "/sessions", handle_create_session)
    ∷ (delete, codes "/sessions/{session_id}", handle_delete_session)
    ∷ (get, codes "/sessions/{session_id}/files/{path:.*}", handle_get_file)
    ∷ (put, codes "/sessions/{session_id}/files/{path:.*}", handle_put_file)
    ∷ (delete, codes "/sessions/{session_id}/files/{path:.*}", handle_delete_file)
    ∷ (post, codes "/sessions/{session_id}/execute", handle_execute)
    ∷ (post, codes "/execute", handle_execute)
    ∷ (get, codes "/health", handle_health)
    ∷ []

-- `app["session_manager"]`: the manager, and whether it has a `_sweep_task`; how many sweep loops run.
pub record App : Type 0 where
  pub manager : Manager
  pub has_sweep_task : Bool
  pub sweep_loops : ℕ

-- `create_app`
abbrev pub create_app : Settings → App
create_app settings = record { manager = init settings; has_sweep_task = false; sweep_loops = 0 }

-- `start_sweep`, on startup
unfoldable pub start_sweep : App → App
start_sweep a =
    if a.has_sweep_task
    then a
    else record a { has_sweep_task = true; sweep_loops = a.sweep_loops + 1 }

-- `stop_sweep`: the task is cancelled and waited for.
unfoldable pub stop_sweep : App → App
stop_sweep a =
    if a.has_sweep_task
    then record a { has_sweep_task = false; sweep_loops = a.sweep_loops - 1 }
    else a

-- `on_startup`
unfoldable pub on_startup : App → App
unfolding start_sweep
on_startup a = start_sweep a

-- `on_cleanup`, with the sessions in their order and whether the removal of each directory succeeds
unfoldable pub on_cleanup : List (Session × Bool) → App → App
unfolding stop_sweep delete_all
on_cleanup snapshot a =
    let stopped = stop_sweep a in record stopped { manager = delete_all snapshot stopped.manager }

-- `handle_health`, by the fields of its answer
abbrev pub handle_health_answer : ℕ × Text × Text
handle_health_answer = (200, codes "status", codes "ok")

-- `HealthFilterAccessLogger.log`: whether the request is logged
unfoldable pub logs : Text → Bool
unfolding text_eq
logs path = if text_eq path (codes "/health") then false else true

-- The options of the command line, as far as they are given.
pub record CommandLine : Type 0 where
  pub host : Option Text
  pub port : Option Text
  pub no_session_quota : Bool

abbrev pub option {ℓ κ} :
    {A : Type ℓ} {B : Type κ}
    → (A → Result ConfigError B)
    → Option A
    → Result ConfigError (Option B)
option parse none = ok none
option parse (some a) = parse a >>= λ b. ok (some b)

-- `_parse_args`
unfoldable pub parse_args :
    (ℕ → Bool)
    → (Text → Option ℤ)
    → Option Text
    → CommandLine
    → Result ConfigError (Option Text × Option ℕ)
unfolding parse_host parse_port check_quota
parse_args is_space int quota_mountpoint c = do
  host ← option (parse_host is_space) c.host
  port ← option (parse_port int) c.port
  checked ← check_quota quota_mountpoint c.no_session_quota
  ok (host, port)

abbrev pub or_default {ℓ} : {A : Type ℓ} → A → Option A → A
or_default default none = default
or_default default (some a) = a

-- `main`: where the server listens, with the HOST and PORT of the environment.
unfoldable pub main :
    (ℕ → Bool)
    → (Text → Option ℤ)
    → Option Text
    → Text
    → ℕ
    → CommandLine
    → Result ConfigError (Text × ℕ)
unfolding parse_args
main is_space int quota_mountpoint host port c =
    parse_args is_space int quota_mountpoint c >>= λ (h, p).
    ok (or_default host h, or_default port p)
