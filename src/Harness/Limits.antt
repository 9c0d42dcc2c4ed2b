-- ===== src/Harness/Limits.antt =====
-- harness.py, `Config`: the server's limits as the harness mirrors them.
use code_executor_api.Prelude.{
  ℕ, ◌==◌, Text, codes, text_eq, text_eq_iff, ◌≡◌, refl, ap, sym, subst, ◌∙◌, ◌⊎◌, inl, inr, Bool,
  Bool-cases, Option, none, some, some_inj, List, [], ◌∷◌, ◌++◌, All, ℤ, pos, Result, ok, err,
  ok_inj, >>=_ok, if◌then◌else◌, arith,
}
use code_executor_api.Config.Env.{ConfigError, out_of_range, below, at_least, read_int_env}
use code_executor_api.Config.Table.{
  Loaded, load, Environment, load_integers, load_lem, integer_settings,
}

-- A field of `Config` that is an `int`; the other, `session_root`, is a path.
pub record Field : Type 0 where
  pub name : Text
  pub default : ℕ
  pub env : Text

abbrev field : Text → ℕ → Text → Field
field name default env = record { name = name; default = default; env = env }

abbrev pub config_fields : List Field
config_fields =
    field (codes "max_session_size") 104857600 (codes "MAX_SESSION_SIZE")
    ∷ field (codes "max_session_entries") 32768 (codes "MAX_SESSION_ENTRIES")
    ∷ field (codes "max_result_attachments") 256 (codes "MAX_RESULT_ATTACHMENTS")
    ∷ field (codes "max_code_length") 65536 (codes "MAX_CODE_LENGTH")
    ∷ field (codes "max_output_size") 10485760 (codes "MAX_OUTPUT_SIZE")
    ∷ field (codes "container_pids_limit") 128 (codes "CONTAINER_PIDS_LIMIT")
    ∷ field (codes "container_ulimit_nofile") 1024 (codes "CONTAINER_ULIMIT_NOFILE")
    ∷ field (codes "max_file_size") 268435456 (codes "CONTAINER_ULIMIT_FSIZE")
    ∷ field (codes "execution_timeout") 20 (codes "EXECUTION_TIMEOUT")
    ∷ field (codes "max_sessions") 64 (codes "MAX_SESSIONS")
    ∷ field (codes "max_concurrent_executions") 4 (codes "MAX_CONCURRENT_EXECUTIONS")
    ∷ field (codes "lock_wait_timeout") 30 (codes "SESSION_LOCK_WAIT_TIMEOUT_SECONDS")
    ∷ field (codes "inactivity_timeout") 1800 (codes "SESSION_INACTIVITY_TIMEOUT_SECONDS")
    ∷ field (codes "sweep_interval") 60 (codes "SESSION_SWEEP_INTERVAL_SECONDS")
    ∷ []

-- `name.replace('_', '-')`
abbrev dashed : Text → Text
dashed [] = []
dashed (c ∷ s) = (if c == b'_' then b'-' else c) ∷ dashed s

-- The flag that `_add_config_arguments` gives a field.
abbrev pub flag_of : Field → Text
flag_of f = codes "--" ++ dashed f.name

abbrev pub or_default : ℕ → Option ℕ → ℕ
or_default default none = default
or_default default (some n) = n

-- `_config_from_args`, by the values of the flags that are given: the fields by the variables they mirror
unfoldable pub config_from_args : (Text → Option ℕ) → List Field → List (Text × ℕ)
config_from_args given [] = []
config_from_args given (f ∷ fields) =
    (f.env, or_default f.default (given (flag_of f))) ∷ config_from_args given fields

-- The value of a setting, by its variable.
unfoldable pub setting {ℓ} : {A : Type ℓ} → Text → List (Text × A) → Option A
setting name [] = none
setting name ((n, a) ∷ rest) = if text_eq n name then some a else setting name rest

-- The variable is unset and the flag is not given, or both give one number.
abbrev pub IsMirrored :
    (Text → Option Text) → (Text → Option ℤ) → (Text → Option ℕ) → Field → Type 0
IsMirrored getenv int given f =
    ((getenv f.env ≡ none) × (given (flag_of f) ≡ none))
    ⊎ ((raw : Text) × (n : ℕ) × (getenv f.env ≡ some raw)
        × (int raw ≡ some (pos n))
        × (given (flag_of f) ≡ some n))

at_least_same : (m : ℤ) (v value : ℤ) → at_least (some m) v ≡ ok value → v ≡ value
at_least_same m v value h = elim (Bool-cases (below v m)) [
  | inl e ↦ let p = rw e at h in refused p
  | inr e ↦ ok_inj (rw e at h)
]
  where
    refused : (◌≡◌ {A = Result ConfigError ℤ} (err out_of_range) (ok value)) → v ≡ value
    refused p = cc

-- What a variable that the harness mirrors is read as.
read_mirrored :
    (getenv : Environment) (int : Text → Option ℤ) (given : Text → Option ℕ) (f : Field) (value : ℤ)
    → IsMirrored getenv int given f
    → read_int_env int (getenv f.env) (pos f.default) (some (pos 1)) ≡ ok value
    → pos (or_default f.default (given (flag_of f))) ≡ value
unfolding read_int_env
read_mirrored getenv int given f value (inl (e, g)) h = rw g (ok_inj (rw e at h))
read_mirrored getenv int given f value (inr (raw, n, e, i, g)) h =
    rw g (at_least_same (pos 1) (pos n) value (rw (e, i) at h))

setting-load_integers :
    (getenv : Environment) (int : Text → Option ℤ) (settings : List (Text × ℕ))
    (values : List (Text × ℤ)) (name : Text) (default : ℕ)
    → load_integers getenv int settings ≡ ok values
    → setting name settings ≡ some default
    → (value : ℤ) × (setting name values ≡ some value)
      × (read_int_env int (getenv name) (pos default) (some (pos 1)) ≡ ok value)
unfolding load_integers setting
setting-load_integers getenv int [] values name default h s = cc
setting-load_integers getenv int ((n, d) ∷ settings) values name default h s =
    let (value, e, f) = >>=_ok (read_int_env int (getenv n) (pos d) (some (pos 1))) _ values h in
    let (rest, g, k) = >>=_ok (load_integers getenv int settings) _ values f in
    subst
      (λ vs.
        (v : ℤ) × (setting name vs ≡ some v)
        × (read_int_env int (getenv name) (pos default) (some (pos 1)) ≡ ok v))
      (ok_inj k)
      (elim (Bool-cases (text_eq n name)) [
        | inl t ↦
            let same : n ≡ name = (text_eq_iff n name).0 t in
            let same_default : d ≡ default = some_inj (rw t at s) in
            (
              value,
              rw t refl,
              subst (λ x. read_int_env int (getenv x) (pos default) (some (pos 1)) ≡ ok value) same
                  (subst (λ x. read_int_env int (getenv n) (pos x) (some (pos 1)) ≡ ok value)
                    same_default e),
            )
        | inr t ↦
            let (v, p, q) =
              setting-load_integers getenv int settings rest name default g (rw t at s) in
            (v, rw t p, q)
      ])

-- The settings have this number under this variable.
abbrev pub HasSetting : Loaded → Text × ℕ → Type 0
HasSetting s (env, n) = setting env s.integers ≡ some (pos n)

-- The default of a field is the server's own.
abbrev HasServerDefault : Field → Type 0
HasServerDefault f = setting f.env integer_settings ≡ some f.default

defaults_match : All HasServerDefault config_fields
unfolding setting text_eq
defaults_match = ground arith

config-HasSetting :
    (getenv : Environment) (int : Text → Option ℤ) (given : Text → Option ℕ) (s : Loaded)
    (fields : List Field)
    → load_integers getenv int integer_settings ≡ ok s.integers
    → All HasServerDefault fields
    → All (IsMirrored getenv int given) fields
    → All (HasSetting s) (config_from_args given fields)
unfolding config_from_args
config-HasSetting getenv int given s [] h d m = tt
config-HasSetting getenv int given s (f ∷ fields) h d m =
    let (value, e, r) =
      setting-load_integers getenv int integer_settings s.integers f.env f.default h d.0 in
    (
      e ∙ ap some (sym (read_mirrored getenv int given f value m.0 r)),
      config-HasSetting getenv int given s fields h d.1 m.1,
    )

-- If every variable that a field of `Config` mirrors is either unset, with the field's flag not given, or
-- set to the number that the flag is given, then the limits that the harness works with are those with
-- which the server's settings load: so the defaults of the two agree, and a server in which no variable is
-- set needs no flag.
pub config_from_args-HasSetting :
    (getenv : Environment) (is_space : ℕ → Bool) (int : Text → Option ℤ)
    (shlex_split : Text → Option (List Text)) (abspath : Text → Text) (given : Text → Option ℕ)
    (s : Loaded)
    → load getenv is_space int shlex_split abspath ≡ ok s
    → All (IsMirrored getenv int given) config_fields
    → All (HasSetting s) (config_from_args given config_fields)
config_from_args-HasSetting getenv is_space int shlex_split abspath given s h m =
    config-HasSetting getenv int given s config_fields
      (load_lem getenv is_space int shlex_split abspath s h) defaults_match m
