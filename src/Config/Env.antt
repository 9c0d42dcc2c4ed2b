-- ===== src/Config/Env.antt =====
-- code_executor_api/config.py, the readers of environment variables, and app.py, the checks of the
-- command line. `int`, `shlex.split` and `os.path.abspath` are given.
use code_executor_api.Prelude.{
  ap, ok_inj, ℕ, ◌≤◌, Text, strip, Bool, true, false, ◌&&◌, Option, none, some, List, [], ◌∷◌,
  Result, ok, err, ltb, leb, if◌then◌else◌, ◌>>=◌, ℤ, pos, negsuc, ◌≡◌, arith, Bool-cases, inl, inr,
  subst,
}
use code_executor_api.Path.{is_empty}

-- The messages of the `ValueError`s and of `argparse`.
pub data ConfigError : Type 0 where
  must_be_integer must_not_be_empty must_be_command_line out_of_range : ConfigError
  missing_quota_mountpoint : ConfigError

abbrev pub below : ℤ → ℤ → Bool
below (pos a) (pos b) = ltb a b
below (pos a) (negsuc b) = false
below (negsuc a) (pos b) = true
below (negsuc a) (negsuc b) = ltb b a

module _ (is_space : ℕ → Bool) where
  -- `_read_str_env`, from what `os.getenv` gives
  unfoldable pub read_str_env : Option Text → Text → Text
  unfolding strip
  read_str_env none default = default
  read_str_env (some raw_value) default = strip is_space raw_value

  -- `_read_optional_str_env`
  unfoldable pub read_optional_str_env : Option Text → Result ConfigError (Option Text)
  unfolding strip
  read_optional_str_env none = ok none
  read_optional_str_env (some raw_value) =
      if is_empty (strip is_space raw_value)
      then err must_not_be_empty
      else ok (some (strip is_space raw_value))

  -- `_parse_host`
  unfoldable pub parse_host : Text → Result ConfigError Text
  unfolding strip
  parse_host value =
      if is_empty (strip is_space value) then err must_not_be_empty else ok (strip is_space value)

-- `_read_optional_path_env`
unfoldable pub read_optional_path_env :
    (ℕ → Bool) → (Text → Text) → Option Text → Result ConfigError (Option Text)
read_optional_path_env is_space abspath raw = read_optional_str_env is_space raw >>= λ value.
    elim value [ none ↦ ok none | some v ↦ ok (some (abspath v)) ]

abbrev pub not_empty : Option (List Text) → Result ConfigError (List Text)
not_empty none = err must_be_command_line
not_empty (some []) = err must_not_be_empty
not_empty (some (a ∷ argv)) = ok (a ∷ argv)

-- `_read_argv_env`
unfoldable pub read_argv_env :
    (ℕ → Bool) → (Text → Option (List Text)) → Option Text → Text → Result ConfigError (List Text)
read_argv_env is_space shlex_split raw default =
    not_empty (shlex_split (read_str_env is_space raw default))

abbrev pub at_least : Option ℤ → ℤ → Result ConfigError ℤ
at_least none value = ok value
at_least (some min_value) value = if below value min_value then err out_of_range else ok value

abbrev pub parsed : Option ℤ → Result ConfigError ℤ
parsed none = err must_be_integer
parsed (some value) = ok value

-- `_read_int_env`
unfoldable pub read_int_env : (Text → Option ℤ) → Option Text → ℤ → Option ℤ → Result ConfigError ℤ
read_int_env int none default min_value = ok default
read_int_env int (some raw_value) default min_value = parsed (int raw_value) >>= at_least min_value

abbrev pub port_in_range : ℤ → Result ConfigError ℕ
port_in_range (negsuc n) = err out_of_range
port_in_range (pos port) = if leb 1 port && leb port 65535 then ok port else err out_of_range

-- `_parse_port`
unfoldable pub parse_port : (Text → Option ℤ) → Text → Result ConfigError ℕ
parse_port int value = parsed (int value) >>= port_in_range

-- The check that ends `_parse_args`
unfoldable pub check_quota : Option Text → Bool → Result ConfigError (Unit {0})
check_quota none false = err missing_quota_mountpoint
check_quota none true = ok tt
check_quota (some mountpoint) no_session_quota = ok tt

at_least_lem :
    (min_value v value : ℤ) → at_least (some min_value) v ≡ ok value → below value min_value ≡ false
at_least_lem min_value v value h = elim (Bool-cases (below v min_value)) [
  | inl e ↦ absurd (refused (rw e at h))
  | inr e ↦ subst (λ x. below x min_value ≡ false) (ok_inj (rw e at h)) e
]
  where
    refused : (◌≡◌ {A = Result ConfigError ℤ} (err out_of_range) (ok value)) → ⊥
    refused p = cc

-- A setting that has been read is no less than the minimum that its reader is given, if its default
-- is none.
pub read_int_env-below :
    (int : Text → Option ℤ) (raw : Option Text) (default min_value value : ℤ)
    → below default min_value ≡ false
    → read_int_env int raw default (some min_value) ≡ ok value
    → below value min_value ≡ false
unfolding read_int_env
read_int_env-below int none default min_value value d h =
    subst (λ x. below x min_value ≡ false) (ok_inj h) d
read_int_env-below int (some raw_value) default min_value value d h = read (int raw_value) h
  where
    read :
        (o : Option ℤ)
        → (parsed o >>= at_least (some min_value)) ≡ ok value
        → below value min_value ≡ false
    read none g = cc
    read (some v) g = at_least_lem min_value v value g

-- A port that the command line gives is the number that is read, and in [1, 65535].
pub parse_port-range :
    (int : Text → Option ℤ) (value : Text) (port : ℕ)
    → parse_port int value ≡ ok port
    → (int value ≡ some (pos port)) × ((1 ≤ port) × (port ≤ 65535))
unfolding parse_port
parse_port-range int value port h = read (int value) h
  where
    port_refused : (◌≡◌ {A = Result ConfigError ℕ} (err out_of_range) (ok port)) → ⊥
    port_refused p = cc

    read :
        (o : Option ℤ)
        → (parsed o >>= port_in_range) ≡ ok port
        → (o ≡ some (pos port)) × ((1 ≤ port) × (port ≤ 65535))
    read none g = cc
    read (some (negsuc n)) g = cc
    read (some (pos n)) g = elim (Bool-cases (leb 1 n && leb n 65535)) [
      | inl e ↦
          let same : n ≡ port = ok_inj (rw e at g) in (ap (λ k. some (pos k)) same, ground arith)
      | inr e ↦ absurd (port_refused (rw e at g))
    ]
