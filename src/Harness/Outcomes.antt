-- ===== src/Harness/Outcomes.antt =====
-- The exit code of the harness, and its cleanup.
use code_executor_api.Prelude.{
  ℕ, Text, ◌≡◌, refl, ap, ◌∙◌, Bool, true, false, ◌||◌, List, [], ◌∷◌, ◌++◌, if◌then◌else◌, any,
  filter, arith,
}
use code_executor_api.Harness.{Group, Check, Options, select_checks, unknown_names}
use code_executor_api.Harness.Selection.{is_wanted, select_checks-filter}
use code_executor_api.Harness.Runs.{
  Deletion, interrupted, CheckResult, failed, run_checks, skip_results, run, run_selected,
  enabled_groups, exits, Arguments, main,
}

any-append {ℓ} :
    {A : Type ℓ} (p : A → Bool) (xs ys : List A) → any p (xs ++ ys) ≡ (any p xs || any p ys)
any-append p [] ys = refl
any-append p (x ∷ xs) ys = ground (arith, any-append p xs ys)

any-run_checks :
    (fail_fast : Bool) (result : Check → CheckResult) (checks : List Check)
    → any failed (run_checks fail_fast result checks) ≡ any (λ c. failed (result c)) checks
unfolding run_checks
any-run_checks fail_fast result [] = refl
any-run_checks fail_fast result (c ∷ checks) =
    ground (arith, any-run_checks fail_fast result checks)

any-skip_results : (skipped : List (Check × Text)) → any failed (skip_results skipped) ≡ false
any-skip_results [] = refl
any-skip_results ((c, reason) ∷ skipped) = any-skip_results skipped

abbrev pub exit_code : (Check → CheckResult) → List Check → ℕ
exit_code result checks = if any (λ c. failed (result c)) checks then 1 else 0

run-exit_code :
    (fail_fast : Bool) (result : Check → CheckResult) (checks : List Check)
    (skipped : List (Check × Text))
    → (run fail_fast result checks skipped).1 ≡ exit_code result checks
unfolding run
run-exit_code fail_fast result checks skipped =
    rw
      (
        any-append failed (run_checks fail_fast result checks) (skip_results skipped),
        any-run_checks fail_fast result checks,
        any-skip_results skipped,
      )
      ground arith

run_selected-exit_code :
    (fail_fast : Bool) (result : Check → CheckResult) (r : List Check × List (Check × Text))
    → run_selected fail_fast result r ≡ exits (exit_code result r.0)
run_selected-exit_code fail_fast result ([], skipped) = refl
run_selected-exit_code fail_fast result (c ∷ checks, skipped) =
    ap exits (run-exit_code fail_fast result (c ∷ checks) skipped)

abbrev pub options_of : List Group → Arguments → Options
options_of groups args = record {
  only = args.only;
  skip = args.skip;
  enabled_groups = enabled_groups args.check_all args.flags groups;
  skip_heavy = args.skip_heavy;
}

-- A run of known names that is no listing exits with 1 if a check that is wanted fails or errs, and else
-- with 0, whether or not it stops at the first failure; under -O it exits with 1 in any case.
pub main-exit_code :
    (debug : Bool) (groups : List Group) (checks : List Check) (args : Arguments)
    (result : Check → CheckResult)
    → args.list ≡ false
    → unknown_names groups checks (args.only ++ args.skip) ≡ []
    → main debug groups checks args result
      ≡ exits (
          if debug
          then exit_code result (filter (is_wanted groups checks (options_of groups args)) checks)
          else 1)
unfolding main
main-exit_code false groups checks args result l u = refl
main-exit_code true groups checks args result l u =
    rw (l, u)
      (run_selected-exit_code args.fail_fast result
          (select_checks groups checks (options_of groups args))
        ∙ ap (λ xs. exits (exit_code result xs))
            (select_checks-filter groups checks (options_of groups args)).0)

abbrev pub is_requested : Deletion → Bool
is_requested (interrupted e) = false
is_requested _ = true
