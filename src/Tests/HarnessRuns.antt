-- ===== src/Tests/HarnessRuns.antt =====
-- The harness's registry, and runs of its selection and of its runner.
use code_executor_api.Prelude.{
  ℕ, ◌≡◌, refl, Text, codes, text_eq, true, false, List, [], ◌∷◌, ◌++◌, Result, ok, filter, drop,
  take,
}
use code_executor_api.Prelude.Order.{has}
use code_executor_api.Harness.{Check, Options, registry_holds, select_checks, unknown_names}
use code_executor_api.Harness.Registry.{groups, checks}
use code_executor_api.Harness.Selection.{is_wanted, is_left_out, firsts, select_checks-filter}
use code_executor_api.Harness.Runs.{
  Body, returns, Deletion, answers, CheckResult, exits, Arguments, main, status_of, result_of,
}
use code_executor_api.Harness.Outcomes.{exit_code, options_of, main-exit_code}

-- The assertions that harness.py makes when it is imported.
registry_lem : registry_holds groups checks ≡ true
unfolding registry_holds text_eq has
registry_lem = refl

abbrev light : Options
light = record {
  only = codes "quota" ∷ codes "health" ∷ [];
  skip = codes "inode_quota_enforcement" ∷ [];
  enabled_groups = [];
  skip_heavy = true;
}

select_checks-filter_example :
    ((select_checks groups checks light).0 ≡ filter (is_wanted groups checks light) checks)
    × (firsts (select_checks groups checks light).1
        ≡ filter (is_left_out groups checks light) checks)
select_checks-filter_example = select_checks-filter groups checks light

-- The last check but two is of a gated group.
abbrev before : List Check
before = take 56 checks

abbrev after : List Check
after = drop 57 checks

abbrev leaked : Check
leaked = record {
  name = codes "no_leaked_containers";
  group = codes "host";
  sessions = 1;
  heavy = false;
  timeout = 300;
  summary = codes "no container outlives the request that started it, even a timed-out loop";
}

split_registry : checks ≡ before ++ leaked ∷ after
split_registry = refl

abbrev arguments : Arguments
arguments = record {
  list = false;
  only = codes "host" ∷ [];
  skip = [];
  skip_heavy = false;
  fail_fast = true;
  check_all = false;
  flags = [];
}

abbrev one_digit : ℕ → Text
one_digit n = codes "9"

abbrev outcome : Check → CheckResult
outcome c = result_of c.name (status_of one_digit c.timeout returns)

known_names : unknown_names groups checks (arguments.only ++ arguments.skip) ≡ []
unfolding unknown_names text_eq has
known_names = refl

main-exit_code_example :
    main true groups checks arguments outcome
    ≡ exits
        (exit_code outcome (filter (is_wanted groups checks (options_of groups arguments)) checks))
main-exit_code_example = main-exit_code true groups checks arguments outcome refl known_names

abbrev replies : List (Result Body Text)
replies = ok (codes "a") ∷ ok (codes "b") ∷ []

abbrev gone : Text → Deletion
gone id = answers 404
