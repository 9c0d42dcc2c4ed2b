-- ===== src/Harness.antt =====
-- harness.py, the runner of the harness: the registry of checks, the selection of what is run, and the
-- run. The bodies of the checks are a client of a running server: a check is what its body gives.
pub mod Registry
pub mod Selection
pub mod Runs
pub mod Client
pub mod Lifecycle
pub mod Outcomes
pub mod Limits
use code_executor_api.Prelude.{
  ℕ, Text, codes, text_eq, Bool, true, false, not, ◌&&◌, ◌||◌, Option, none, some, List, [], ◌∷◌,
  ◌++◌, if◌then◌else◌, any,
}
use code_executor_api.Prelude.Order.{has, sorted}

-- `Group`
pub record Group : Type 0 where
  pub name : Text
  pub opt_in : Bool
  pub requires : Text

-- `Check`, without its function
pub record Check : Type 0 where
  pub name : Text
  pub group : Text
  pub sessions : ℕ
  pub heavy : Bool
  pub timeout : ℕ
  pub summary : Text

abbrev pub group_names : List Group → List Text
group_names [] = []
group_names (g ∷ groups) = g.name ∷ group_names groups

abbrev pub check_names : List Check → List Text
check_names [] = []
check_names (c ∷ checks) = c.name ∷ check_names checks

-- `gated`, by its keys and by its values
unfoldable pub gated : List Group → List Text
gated [] = []
gated (g ∷ groups) = let rest = gated groups in if g.opt_in then g.name ∷ rest else rest

unfoldable pub requirement : Text → List Group → Text
requirement name [] = []
requirement name (g ∷ groups) =
    if g.opt_in && text_eq g.name name then g.requires else requirement name groups

-- The groups of the checks that have this name
unfoldable pub groups_of : Text → List Check → List Text
groups_of name [] = []
groups_of name (c ∷ checks) =
    let rest = groups_of name checks in if text_eq c.name name then c.group ∷ rest else rest

-- What `only` adds to `implied`
unfoldable pub implied_by : List Group → List Check → List Text → List Text
unfolding gated groups_of
implied_by groups checks [] = []
implied_by groups checks (name ∷ only) =
    (if has name (gated groups) then name ∷ [] else [])
    ++ (groups_of name checks ++ implied_by groups checks only)

-- The options of a run.
pub record Options : Type 0 where
  pub only : List Text
  pub skip : List Text
  pub enabled_groups : List Text
  pub skip_heavy : Bool

-- What the loop of `select_checks` does with a check.
pub data Verdict : Type 0 where
  unselected to_run : Verdict
  skipped : Text → Verdict

abbrev pub is_empty {ℓ} : {A : Type ℓ} → List A → Bool
is_empty [] = true
is_empty (x ∷ xs) = false

-- `identifiers & set(names)`
abbrev pub is_in : List Text → Check → Bool
is_in names c = has c.name names || has c.group names

unfoldable pub verdict : List Group → Options → List Text → Check → Verdict
unfolding gated requirement has
verdict groups o implied c =
    if not (is_empty o.only) && not (is_in o.only c)
    then unselected
    else if is_in o.skip c
    then skipped (codes "explicitly skipped")
    else if has c.group (gated groups) && not (has c.group implied)
    then skipped (
        codes "opt-in: pass --check-"
        ++ (c.group ++ (codes " (requires " ++ (requirement c.group groups ++ codes ")"))))
    else if o.skip_heavy && c.heavy
    then skipped (codes "heavy, and --skip-heavy was passed")
    else to_run

abbrev pub placed :
    Check → Verdict → List Check × List (Check × Text) → List Check × List (Check × Text)
placed c unselected (runs, skips) = (runs, skips)
placed c to_run (runs, skips) = (c ∷ runs, skips)
placed c (skipped reason) (runs, skips) = (runs, (c, reason) ∷ skips)

unfoldable pub classify :
    List Group → Options → List Text → List Check → List Check × List (Check × Text)
classify groups o implied [] = ([], [])
classify groups o implied (c ∷ checks) =
    placed c (verdict groups o implied c) (classify groups o implied checks)

-- `select_checks`
unfoldable pub select_checks : List Group → List Check → Options → List Check × List (Check × Text)
unfolding classify implied_by
select_checks groups checks o =
    classify groups o (o.enabled_groups ++ implied_by groups checks o.only) checks

-- `_unknown_names`
unfoldable pub unknown : List Group → List Check → List Text → List Text
unknown groups checks [] = []
unknown groups checks (name ∷ names) =
    let rest = unknown groups checks names in
    if has name (check_names checks) || has name (group_names groups) || has name names
    then rest
    else name ∷ rest

unfoldable pub unknown_names : List Group → List Check → List Text → List Text
unfolding unknown sorted
unknown_names groups checks names = sorted (unknown groups checks names)

-- The assertions that the module makes of its registry.
unfoldable pub has_no_repeats : List Text → Bool
has_no_repeats [] = true
has_no_repeats (n ∷ names) = not (has n names) && has_no_repeats names

unfoldable pub are_known : List Text → List Check → Bool
are_known names [] = true
are_known names (c ∷ checks) = has c.group names && are_known names checks

unfoldable pub are_apart : List Text → List Check → Bool
are_apart names [] = true
are_apart names (c ∷ checks) = not (has c.name names) && are_apart names checks

unfoldable pub registry_holds : List Group → List Check → Bool
unfolding has_no_repeats are_known are_apart has
registry_holds groups checks =
    has_no_repeats (check_names checks)
    && has_no_repeats (group_names groups)
    && are_known (group_names groups) checks
    && are_apart (group_names groups) checks
