-- ===== src/Tests/LifeRuns.antt =====
-- Runs of the application's life, of its settings, and of a run of code.
use code_executor_api.Prelude.{
  ℕ, ◌≡◌, ◌+◌, ◌||◌, ◌&&◌, refl, Text, codes, text_eq, starts_with, rstrip, Bool, true, false,
  Option, none, some, List, [], ◌∷◌, ok, ℤ, pos, arith, any, All, length,
}
use code_executor_api.Prelude.Order.{has, sorted, place, text_leb}
use code_executor_api.Config.Env.{
  read_int_env, read_optional_path_env, read_optional_str_env, read_argv_env, read_str_env,
  parse_port, check_quota,
}
use code_executor_api.Config.Table.{
  Loaded, load, load_integers, load_texts, text_settings, IsPositive, load-IsPositive,
}
use code_executor_api.Harness.Limits.{
  IsMirrored, config_fields, config_from_args, HasSetting, config_from_args-HasSetting,
}
use code_executor_api.Languages.{runtime_of, find_runtime}
use code_executor_api.Manager.System.{Event, reserves, created}
use code_executor_api.App.{CommandLine, main, parse_args}
use code_executor_api.App.Life.{is_set, IsPort, main-starts}
use code_executor_api.Executor.{
  end, file, subdirectory, iter_session_files, scan_files, scan_pending, collect_changes,
  changed_in, missing_from, stamp, get as stamp_of,
}
use code_executor_api.Executor.Walk.{visible_files}
use code_executor_api.Executor.Changes.{is_change}
use code_executor_api.Executor.Command.{ContainerSettings}
use code_executor_api.Executor.Run.{completes, CodeExecutionResult, exits, run_container}
use code_executor_api.Executor.Code.{Meeting, run_code_async, input_files, run_code_async-changes}
use code_executor_api.Session.Removal
use code_executor_api.Session.Removal.{remove_tree, is_open, is_ours, remove_tree-is_ours}
use code_executor_api.Tests.ExecutorRuns.{old, new}

abbrev idle : List Event
idle = reserves (codes "a") (some (codes "/s/a")) 0 ∷ created 0 ∷ []

abbrev no_space : ℕ → Bool
no_space c = false

abbrev int_of : Text → Option ℤ
int_of t = some (pos 8080)

abbrev command_line : CommandLine
command_line = record { host = none; port = some (codes "8080"); no_session_quota = true }

main_run :
    main no_space int_of none (codes "127.0.0.1") 40003 command_line ≡ ok (codes "127.0.0.1", 8080)
unfolding main parse_args parse_port check_quota
main_run = refl

main-starts_example :
    ((is_set none || command_line.no_session_quota) ≡ true)
    × IsPort int_of 40003 (some (codes "8080")) 8080
main-starts_example =
    main-starts no_space int_of none (codes "127.0.0.1") (codes "127.0.0.1") 40003 8080 command_line
      main_run

abbrev no_variable : Text → Option Text
no_variable name = none

abbrev one_word : Text → Option (List Text)
one_word t = some (t ∷ [])

abbrev same_path : Text → Text
same_path t = t

abbrev defaults : Loaded
defaults = record {
  integers =
      (codes "PORT", pos 40003)
      ∷ (codes "EXECUTION_TIMEOUT", pos 20)
      ∷ (codes "MAX_CPU_CORES", pos 1)
      ∷ (codes "MAX_OUTPUT_SIZE", pos 10485760)
      ∷ (codes "MAX_CODE_LENGTH", pos 65536)
      ∷ (codes "MAX_SESSION_SIZE", pos 104857600)
      ∷ (codes "MAX_SESSION_ENTRIES", pos 32768)
      ∷ (codes "MAX_RESULT_ATTACHMENTS", pos 256)
      ∷ (codes "MAX_SESSIONS", pos 64)
      ∷ (codes "MAX_CONCURRENT_EXECUTIONS", pos 4)
      ∷ (codes "CONTAINER_PIDS_LIMIT", pos 128)
      ∷ (codes "CONTAINER_USER_ID", pos 4000)
      ∷ (codes "CONTAINER_ULIMIT_NOFILE", pos 1024)
      ∷ (codes "CONTAINER_ULIMIT_FSIZE", pos 268435456)
      ∷ (codes "PODMAN_CHECK_TIMEOUT_SECONDS", pos 5)
      ∷ (codes "SESSION_INACTIVITY_TIMEOUT_SECONDS", pos 1800)
      ∷ (codes "SESSION_SWEEP_INTERVAL_SECONDS", pos 60)
      ∷ (codes "SESSION_LOCK_WAIT_TIMEOUT_SECONDS", pos 30)
      ∷ [];
  texts = text_settings;
  container_relative_niceness = pos 5;
  session_root_directory = none;
  session_quota_mountpoint = none;
  session_quota_command = codes "xfs_quota" ∷ [];
}

load_run : load no_variable no_space int_of one_word same_path ≡ ok defaults
unfolding load load_integers load_texts read_int_env read_optional_path_env read_optional_str_env
    read_argv_env read_str_env
load_run = refl

abbrev no_flag : Text → Option ℕ
no_flag flag = none

none-IsMirrored : All (IsMirrored no_variable int_of no_flag) config_fields
none-IsMirrored = ground arith

config_from_args-HasSetting_example :
    All (HasSetting defaults) (config_from_args no_flag config_fields)
config_from_args-HasSetting_example =
    config_from_args-HasSetting no_variable no_space int_of one_word same_path no_flag defaults
      load_run none-IsMirrored

load-IsPositive_example : All IsPositive defaults.integers
load-IsPositive_example =
    load-IsPositive no_variable no_space int_of one_word same_path defaults load_run

-- Mode 000, and a mode that lets the service list and search and no more.
abbrev closed : Removal.Mode
closed = record { readable = false; writable = false; searchable = false }

abbrev read_only : Removal.Mode
read_only = record { readable = true; writable = false; searchable = true }

abbrev locked_away : Removal.Entries
locked_away = Removal.link (codes "l") (
    Removal.subdirectory (codes "d") closed true
      (Removal.subdirectory (codes "e") read_only false (Removal.leaf (codes "f") Removal.end)
        Removal.end)
      Removal.end)

remove_tree-is_ours_example :
    remove_tree read_only true locked_away
    ≡ (is_open read_only true locked_away && is_ours locked_away)
remove_tree-is_ours_example = remove_tree-is_ours read_only true locked_away

abbrev container : ContainerSettings
container = record {
  pids_limit = codes "128";
  ulimit_nofile = codes "1024";
  ulimit_fsize = codes "268435456";
  user_id = codes "4000";
  network = codes "bridge";
  tmpfs_size = codes "64m";
  max_memory = codes "256M";
  max_cpu_cores = codes "1";
  image_prefix = codes "code_executor";
  niceness = codes "5";
}

abbrev meeting : Meeting
meeting = record {
  before = file (codes "a") (some old) end;
  after =
      file (codes "a") (some new) (subdirectory (codes ".c") (file (codes "x") (some new) end) end);
  answers = record {
    pty_opens = true;
    podman_starts = true;
    waited = exits (pos 0);
    cleanup = completes;
    removed = true;
    reaped = true;
    output = ok [];
    elapsed = 1;
    decode = λ b. b;
    is_space = no_space;
  };
  container_name = codes "ce_1";
}

abbrev outcome : CodeExecutionResult
outcome = record {
  execution_result = record {
    output = [];
    return_code = pos 0;
    execution_time = 1;
    timed_out = false;
  };
  changed_files = codes "a" ∷ [];
  deleted_files = [];
}

run_code_run :
    (run_code_async container (codes "/s") (codes "bash") (codes "x") meeting).0 ≡ ok outcome
unfolding run_code_async runtime_of find_runtime text_eq run_container collect_changes
    iter_session_files scan_files scan_pending changed_in missing_from stamp sorted has place
    starts_with text_leb rstrip stamp_of
run_code_run = refl

run_code_async-changes_example :
    has (codes "a") outcome.changed_files
    ≡ any
        (is_change (input_files (codes "/s") meeting.before) (codes "a"))
        (visible_files (length (codes "/s") + 1) (codes "/s") meeting.after)
run_code_async-changes_example =
    run_code_async-changes container (codes "/s") (codes "bash") (codes "x") (codes "a") meeting
      outcome run_code_run
