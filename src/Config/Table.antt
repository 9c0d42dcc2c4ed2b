-- ===== src/Config/Table.antt =====
-- code_executor_api/config.py, the settings: their environment variables, defaults and minima.
use code_executor_api.Prelude.{
  ℕ, ◌*◌, ℤ, pos, Text, codes, ◌≡◌, Bool, false, Option, none, some, List, [], ◌∷◌, Result, ok,
  ◌>>=◌, All, arith, >>=_ok, ok_inj, subst, ap, ◌∙◌,
}
use code_executor_api.Config.Env.{
  ConfigError, below, read_int_env, read_str_env, read_optional_str_env, read_optional_path_env,
  read_argv_env, read_int_env-below,
}

-- The settings that are read by `_read_int_env` with `min_value=1`, and their defaults
abbrev pub integer_settings : List (Text × ℕ)
integer_settings =
    (codes "PORT", 40003)
    ∷ (codes "EXECUTION_TIMEOUT", 20)
    ∷ (codes "MAX_CPU_CORES", 1)
    ∷ (codes "MAX_OUTPUT_SIZE", 10 * 1024 * 1024)
    ∷ (codes "MAX_CODE_LENGTH", 64 * 1024)
    ∷ (codes "MAX_SESSION_SIZE", 100 * 1024 * 1024)
    ∷ (codes "MAX_SESSION_ENTRIES", 32768)
    ∷ (codes "MAX_RESULT_ATTACHMENTS", 256)
    ∷ (codes "MAX_SESSIONS", 64)
    ∷ (codes "MAX_CONCURRENT_EXECUTIONS", 4)
    ∷ (codes "CONTAINER_PIDS_LIMIT", 128)
    ∷ (codes "CONTAINER_USER_ID", 4000)
    ∷ (codes "CONTAINER_ULIMIT_NOFILE", 1024)
    ∷ (codes "CONTAINER_ULIMIT_FSIZE", 256 * 1024 * 1024)
    ∷ (codes "PODMAN_CHECK_TIMEOUT_SECONDS", 5)
    ∷ (codes "SESSION_INACTIVITY_TIMEOUT_SECONDS", 1800)
    ∷ (codes "SESSION_SWEEP_INTERVAL_SECONDS", 60)
    ∷ (codes "SESSION_LOCK_WAIT_TIMEOUT_SECONDS", 30)
    ∷ []

-- The settings that are read by `_read_str_env`, and their defaults
abbrev pub text_settings : List (Text × Text)
text_settings =
    (codes "HOST", codes "127.0.0.1")
    ∷ (codes "MAX_MEMORY", codes "256M")
    ∷ (codes "CONTAINER_TMPFS_SIZE", codes "64m")
    ∷ (codes "CONTAINER_NETWORK", codes "bridge")
    ∷ (codes "PODMAN_IMAGE_PREFIX", codes "code_executor")
    ∷ []

abbrev pub Environment : Type 0
Environment = Text → Option Text

unfoldable pub load_integers :
    Environment → (Text → Option ℤ) → List (Text × ℕ) → Result ConfigError (List (Text × ℤ))
load_integers getenv int [] = ok []
load_integers getenv int ((name, default) ∷ settings) = do
  value ← read_int_env int (getenv name) (pos default) (some (pos 1))
  rest ← load_integers getenv int settings
  ok ((name, value) ∷ rest)

unfoldable pub load_texts : Environment → (ℕ → Bool) → List (Text × Text) → List (Text × Text)
load_texts getenv is_space [] = []
load_texts getenv is_space ((name, default) ∷ settings) =
    (name, read_str_env is_space (getenv name) default) ∷ load_texts getenv is_space settings

-- The values that the module binds.
pub record Loaded : Type 0 where
  pub integers : List (Text × ℤ)
  pub texts : List (Text × Text)
  pub container_relative_niceness : ℤ
  pub session_root_directory : Option Text
  pub session_quota_mountpoint : Option Text
  pub session_quota_command : List Text

-- The module, at its import. `int`, `shlex.split` and `os.path.abspath` are given.
unfoldable pub load :
    Environment
    → (ℕ → Bool)
    → (Text → Option ℤ)
    → (Text → Option (List Text))
    → (Text → Text)
    → Result ConfigError Loaded
unfolding load_integers load_texts
load getenv is_space int shlex_split abspath = do
  integers ← load_integers getenv int integer_settings
  niceness ← read_int_env int (getenv (codes "CONTAINER_RELATIVE_NICENESS")) (pos 5) none
  root ← read_optional_path_env is_space abspath (getenv (codes "SESSION_ROOT_DIRECTORY"))
  mountpoint ← read_optional_str_env is_space (getenv (codes "SESSION_QUOTA_MOUNTPOINT"))
  command ←
      read_argv_env is_space shlex_split (getenv (codes "SESSION_QUOTA_COMMAND"))
        (codes "xfs_quota")
  ok (record {
    integers = integers;
    texts = load_texts getenv is_space text_settings;
    container_relative_niceness = niceness;
    session_root_directory = root;
    session_quota_mountpoint = mountpoint;
    session_quota_command = command;
  })

abbrev pub IsPositive : Text × ℤ → Type 0
IsPositive (name, value) = below value (pos 1) ≡ false

abbrev pub HasPositiveDefault : Text × ℕ → Type 0
HasPositiveDefault (name, default) = below (pos default) (pos 1) ≡ false

load_integers-IsPositive :
    (getenv : Environment) (int : Text → Option ℤ) (settings : List (Text × ℕ))
    (values : List (Text × ℤ))
    → All HasPositiveDefault settings
    → load_integers getenv int settings ≡ ok values
    → All IsPositive values
unfolding load_integers
load_integers-IsPositive getenv int [] values d h = subst (All IsPositive) (ok_inj h) tt
load_integers-IsPositive getenv int ((name, default) ∷ settings) values d h =
    let (value, e, f) =
      >>=_ok (read_int_env int (getenv name) (pos default) (some (pos 1))) _ values h in
    let (rest, g, k) = >>=_ok (load_integers getenv int settings) _ values f in
    subst (All IsPositive) (ok_inj k) (
      read_int_env-below int (getenv name) (pos default) (pos 1) value d.0 e,
      load_integers-IsPositive getenv int settings rest d.1 g,
    )

defaults_positive : All HasPositiveDefault integer_settings
defaults_positive = ground arith

-- The numbers that a load has read.
pub load_lem :
    (getenv : Environment) (is_space : ℕ → Bool) (int : Text → Option ℤ)
    (shlex_split : Text → Option (List Text)) (abspath : Text → Text) (s : Loaded)
    → load getenv is_space int shlex_split abspath ≡ ok s
    → load_integers getenv int integer_settings ≡ ok s.integers
unfolding load
load_lem getenv is_space int shlex_split abspath s h =
    let (values, e, f) = >>=_ok (load_integers getenv int integer_settings) _ s h in
    let (niceness, e1, f1) =
      >>=_ok (read_int_env int (getenv (codes "CONTAINER_RELATIVE_NICENESS")) (pos 5) none) _ s f in
    let (root, e2, f2) =
      >>=_ok (read_optional_path_env is_space abspath (getenv (codes "SESSION_ROOT_DIRECTORY"))) _ s
        f1 in
    let (mountpoint, e3, f3) =
      >>=_ok (read_optional_str_env is_space (getenv (codes "SESSION_QUOTA_MOUNTPOINT"))) _ s f2 in
    let (command, e4, f4) =
      >>=_ok
        (read_argv_env is_space shlex_split (getenv (codes "SESSION_QUOTA_COMMAND"))
          (codes "xfs_quota"))
        _ s f3 in
    e ∙ ap ok (ap (λ (l : Loaded). l.integers) (ok_inj f4))

-- If the settings load, each number that is read with a minimum of one is at least one, whatever the
-- environment says: a limit or a timeout of zero, or a negative one, does not start the server.
pub load-IsPositive :
    (getenv : Environment) (is_space : ℕ → Bool) (int : Text → Option ℤ)
    (shlex_split : Text → Option (List Text)) (abspath : Text → Text) (s : Loaded)
    → load getenv is_space int shlex_split abspath ≡ ok s
    → All IsPositive s.integers
load-IsPositive getenv is_space int shlex_split abspath s h =
    load_integers-IsPositive getenv int integer_settings s.integers defaults_positive
      (load_lem getenv is_space int shlex_split abspath s h)
