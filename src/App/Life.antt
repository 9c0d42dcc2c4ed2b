-- ===== src/App/Life.antt =====
-- The life of the application: its end, and what its start demands.
use code_executor_api.Prelude.{
  pos, ℕ, ℤ, ◌≤◌, Text, ◌≡◌, refl, ap, subst, >>=_ok, ok_inj, Bool, true, false, ◌||◌, Option, none,
  some, List, [], ok,
}
use code_executor_api.Config.{Settings}
use code_executor_api.Config.Env.{parse_host, parse_port, check_quota, parse_port-range}
use code_executor_api.Manager.{Session, Manager}
use code_executor_api.Manager.Expiry.{firsts, delete_all-empties}
use code_executor_api.App.{
  create_app, on_startup, on_cleanup, CommandLine, option, or_default, parse_args, main,
}

-- An application that started, ran with any effect on its manager, and is cleaned up has no sweep loop
-- and no session, whichever directories could not be removed. A second startup adds no second loop.
on_cleanup-ends :
    (settings : Settings) (m : Manager) (snapshot : List (Session × Bool))
    → m.sessions ≡ firsts snapshot
    → ((on_cleanup snapshot
          (record (on_startup (create_app settings)) { manager = m })).manager.sessions
        ≡ [])
      × ((on_cleanup snapshot
            (record (on_startup (create_app settings)) { manager = m })).sweep_loops
          ≡ 0)
      × (on_startup (on_startup (create_app settings)) ≡ on_startup (create_app settings))
unfolding on_cleanup on_startup
on_cleanup-ends settings m snapshot h = (delete_all-empties snapshot m h, refl, refl)

-- The port comes from the command line, in its range, or else from the environment.
abbrev pub IsPort : (Text → Option ℤ) → ℕ → Option Text → ℕ → Type 0
IsPort int default none port = port ≡ default
IsPort int default (some value) port = (int value ≡ some (pos port)) × ((1 ≤ port) × (port ≤ 65535))

abbrev pub is_set : Option Text → Bool
is_set none = false
is_set (some value) = true

check_quota_lem :
    (mountpoint : Option Text) (no_session_quota : Bool) (u : Unit {0})
    → check_quota mountpoint no_session_quota ≡ ok u
    → (is_set mountpoint || no_session_quota) ≡ true
unfolding check_quota
check_quota_lem none false u h = cc
check_quota_lem none true u h = refl
check_quota_lem (some m) no_session_quota u h = refl

option-IsPort :
    (int : Text → Option ℤ) (default : ℕ) (o : Option Text) (p : Option ℕ)
    → option (parse_port int) o ≡ ok p
    → IsPort int default o (or_default default p)
option-IsPort int default none none h = refl
option-IsPort int default none (some n) h = cc
option-IsPort int default (some value) p h =
    let (n, e, f) = >>=_ok (parse_port int value) (λ b. ok (some b)) p h in
    subst (λ o. IsPort int default (some value) (or_default default o)) (ok_inj f)
      (parse_port-range int value n e)

parse_args_lem :
    (is_space : ℕ → Bool) (int : Text → Option ℤ) (mountpoint : Option Text) (default : ℕ)
    (c : CommandLine) (x : Option Text × Option ℕ)
    → parse_args is_space int mountpoint c ≡ ok x
    → ((is_set mountpoint || c.no_session_quota) ≡ true)
      × IsPort int default c.port (or_default default x.1)
unfolding parse_args
parse_args_lem is_space int mountpoint default c x e =
    let (ho, e1, f1) = >>=_ok (option (parse_host is_space) c.host) _ x e in
    let (po, e2, f2) = >>=_ok (option (parse_port int) c.port) _ x f1 in
    let (u, e3, f3) = >>=_ok (check_quota mountpoint c.no_session_quota) _ x f2 in
    (
      check_quota_lem mountpoint c.no_session_quota u e3,
      subst (λ o. IsPort int default c.port (or_default default o))
          (ap (λ (y : Option Text × Option ℕ). y.1) (ok_inj f3))
          (option-IsPort int default c.port po e2),
    )

-- The server starts only with a quota's mountpoint or with the flag that does without one, and on a port
-- in [1, 65535] that is the number, as `int` reads it, of the command line's `--port`, or else on PORT.
pub main-starts :
    (is_space : ℕ → Bool) (int : Text → Option ℤ) (mountpoint : Option Text) (host listen : Text)
    (default port : ℕ) (c : CommandLine)
    → main is_space int mountpoint host default c ≡ ok (listen, port)
    → ((is_set mountpoint || c.no_session_quota) ≡ true) × IsPort int default c.port port
unfolding main
main-starts is_space int mountpoint host listen default port c h =
    let (x, e, f) = >>=_ok (parse_args is_space int mountpoint c) _ (listen, port) h in
    let (quota, ranged) = parse_args_lem is_space int mountpoint default c x e in
    (quota, subst (λ n. IsPort int default c.port n) (ap (λ (y : Text × ℕ). y.1) (ok_inj f)) ranged)
