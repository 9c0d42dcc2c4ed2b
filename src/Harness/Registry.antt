-- ===== src/Harness/Registry.antt =====
-- harness.py, `GROUPS` and `CHECKS`. A check is registered under the name of its function, without
-- the prefix `check_`.
use code_executor_api.Prelude.{ℕ, Text, codes, Bool, true, false, List, [], ◌∷◌}
use code_executor_api.Harness.{Group, Check}

abbrev group : Text → Bool → Text → Group
group name opt_in requires = record { name = name; opt_in = opt_in; requires = requires }

abbrev check : Text → Text → ℕ → Bool → ℕ → Text → Check
check name group sessions heavy timeout summary = record {
  name = name;
  group = group;
  sessions = sessions;
  heavy = heavy;
  timeout = timeout;
  summary = summary;
}

-- `GROUPS`
abbrev pub groups : List Group
groups =
    group (codes "core") false (codes "")
    ∷ group (codes "languages") false (codes "")
    ∷ group (codes "sandbox") false (codes "")
    ∷ group (codes "results") false (codes "")
    ∷ group (codes "errors") false (codes "")
    ∷ group (codes "network") false (codes "")
    ∷ group (codes "timeout") true
        (codes "EXECUTION_TIMEOUT small (5s or less), passed as --execution-timeout")
    ∷ group (codes "capacity") true (
        codes
          "MAX_SESSIONS and MAX_CONCURRENT_EXECUTIONS both small (4 or less), passed as --max-sessions/--max-concurrent-executions; run this group on its own, since it saturates limits the other checks need")
    ∷ group (codes "lock") true (
        codes "SESSION_LOCK_WAIT_TIMEOUT_SECONDS small (2s or less), passed as --lock-wait-timeout")
    ∷ group (codes "sweep") true (
        codes
          "SESSION_INACTIVITY_TIMEOUT_SECONDS and SESSION_SWEEP_INTERVAL_SECONDS both small (5s/2s), passed as --inactivity-timeout/--sweep-interval")
    ∷ group (codes "fsize") true (
        codes
          "CONTAINER_ULIMIT_FSIZE well below MAX_SESSION_SIZE (say 1 MiB), passed as --max-file-size; C# needs the production 256 MiB, so skip the languages group there")
    ∷ group (codes "host") true (
        codes
          "running on the API host, with podman on PATH and --session-root set to the server's SESSION_ROOT_DIRECTORY")
    ∷ group (codes "quota") true (
        codes
          "SESSION_QUOTA_MOUNTPOINT set to a working XFS prjquota mount point; pass --max-session-size/--max-session-entries if they differ from the defaults")
    ∷ []

-- `CHECKS`
abbrev pub checks : List Check
checks =
    check (codes "health") (codes "core") 0 false 120 (codes "GET /health returns ok")
    ∷ check (codes "seeded_session") (codes "core") 0 false 120
        (codes "POST /sessions with multipart seed files")
    ∷ check (codes "file_lifecycle") (codes "core") 1 false 120
        (codes "PUT/GET/DELETE a session file")
    ∷ check (codes "session_deletion") (codes "core") 0 false 120
        (codes "DELETE a session makes its files unreachable")
    ∷ check (codes "execute_persistence") (codes "core") 1 false 120
        (codes "files persist and deletions are detected across two runs")
    ∷ check (codes "execute_attachments") (codes "core") 1 false 120
        (codes "/execute attachments are staged into the session")
    ∷ check (codes "symlink_attachment_excluded") (codes "sandbox") 1 false 120
        (codes "a symlink is neither attached nor followed")
    ∷ check (codes "symlink_directory_escape_blocked") (codes "sandbox") 1 false 120
        (codes "a symlinked directory cannot be used to escape the session root")
    ∷ check (codes "readonly_root_filesystem") (codes "sandbox") 1 false 120
        (codes "the container root filesystem is read-only")
    ∷ check (codes "open_files_limit") (codes "sandbox") 1 false 120
        (codes "RLIMIT_NOFILE matches CONTAINER_ULIMIT_NOFILE")
    ∷ check (codes "memory_limit") (codes "sandbox") 1 true 180
        (codes "allocating past MAX_MEMORY is killed, not hung")
    ∷ check (codes "pids_limit") (codes "sandbox") 1 true 180
        (codes "process creation is capped and the session survives it")
    ∷ check (codes "output_truncation") (codes "sandbox") 1 true 180
        (codes "output past MAX_OUTPUT_SIZE truncates without failing the run")
    ∷ check (codes "outbound_network") (codes "network") 1 false 120
        (codes "the sandbox has outbound DNS and TCP, as --net=bridge intends")
    ∷ check (codes "api_unreachable_from_sandbox") (codes "network") 1 false 120
        (codes "executed code cannot reach the API that is running it")
    ∷ check (codes "ping_without_net_raw") (codes "network") 1 false 120
        (codes "ping works with every capability still dropped")
    ∷ check (codes "directory_listing") (codes "core") 1 false 120
        (codes "GET on a directory lists one level and hides nothing")
    ∷ check (codes "disk_quota_enforcement") (codes "quota") 1 true 300
        (codes "MAX_SESSION_SIZE stops both the container and a PUT")
    ∷ check (codes "inode_quota_enforcement") (codes "quota") 1 true 300
        (codes "MAX_SESSION_ENTRIES stops runaway file creation")
    ∷ check (codes "rejected_execute_leaves_no_attachment") (codes "errors") 1 false 120
        (codes "a rejected /execute leaves its attachments behind nowhere")
    ∷ check (codes "javascript_module_styles") (codes "languages") 1 false 120
        (codes "CommonJS, ESM and top-level await all run")
    ∷ check (codes "typescript") (codes "languages") 1 false 120
        (codes "annotations, require, enum and relative imports all run")
    ∷ check (codes "typescript_rejects_top_level_await") (codes "languages") 1 false 120
        (codes "typescript is CommonJS, so top-level await must fail")
    ∷ check (codes "compiled_languages") (codes "languages") 1 false 300
        (codes "c/cpp/java/csharp/rust each run a hello world and leave no session files")
    ∷ check (codes "compiled_language_errors") (codes "languages") 1 false 300
        (codes "a compile error fails the run and surfaces diagnostics")
    ∷ check (codes "change_detection_stability") (codes "results") 1 false 120
        (codes "no-op runs report nothing for either file origin")
    ∷ check (codes "home_directory_noise_excluded") (codes "results") 1 false 120
        (codes "hidden $HOME directories stay out of attachments but stay listable")
    ∷ check (codes "result_attachment_cap") (codes "results") 1 false 300
        (codes "MAX_RESULT_ATTACHMENTS caps the response without failing the run")
    ∷ check (codes "deleted_files_not_truncated") (codes "results") 1 false 300
        (codes "deleted_files is reported in full, past the attachment cap")
    ∷ check (codes "awkward_result_filenames") (codes "results") 1 false 120
        (codes "quotes, spaces, UTF-8 and nested paths survive Content-Disposition exactly")
    ∷ check (codes "non_utf8_filename_omitted") (codes "results") 1 false 120
        (codes "a non-UTF-8 filename is omitted, not a 500, and stays listable")
    ∷ check (codes "change_detection_adversarial") (codes "results") 1 false 120
        (codes "restored mtime, delete-and-recreate and rename are all detected")
    ∷ check (codes "hidden_file_vs_hidden_directory") (codes "results") 1 false 120
        (codes "a hidden file is a result; a hidden directory's contents are not")
    ∷ check (codes "ephemeral_execute") (codes "core") 0 false 120
        (codes "POST /execute without a session id")
    ∷ check (codes "put_path_edges") (codes "core") 1 false 120
        (codes "nested parents, onto a directory, through a file, and a zero-byte body")
    ∷ check (codes "put_replaces_symlink") (codes "core") 1 false 120
        (codes "PUT onto a symlink replaces the link instead of following it")
    ∷ check (codes "delete_path_edges") (codes "core") 1 false 120
        (codes "DELETE refuses directories and the root, removes symlinks")
    ∷ check (codes "special_file_types") (codes "core") 1 false 120
        (codes "a FIFO and a socket list as \"other\" and read back 404")
    ∷ check (codes "sub_path_containment") (codes "core") 1 false 120
        (codes "odd sub_paths land inside the session or are refused, never outside")
    ∷ check (codes "root_listing_forms") (codes "core") 1 false 120
        (codes "/files/ lists, /files 404s, a missing nested path 404s")
    ∷ check (codes "interrupted_put_leaves_original") (codes "core") 1 false 120
        (codes "an aborted PUT preserves the original and leaves no staging file")
    ∷ check (codes "error_cases") (codes "errors") 1 false 120
        (codes "unknown session, bad language and path traversal")
    ∷ check (codes "execute_field_validation") (codes "errors") 1 false 120
        (codes "unknown fields, missing fields, NUL code and escaping attachments all 400")
    ∷ check (codes "execute_oversized_code") (codes "errors") 1 false 120
        (codes "code past MAX_CODE_LENGTH -> 413, staged attachment discarded")
    ∷ check (codes "execute_malformed_body") (codes "errors") 1 false 120
        (codes "a JSON body or a boundary-less multipart body -> 400, not 500")
    ∷ check (codes "execute_oversized_language") (codes "errors") 1 false 120
        (codes "an over-long language field is a bad language (400), not a size error")
    ∷ check (codes "nul_byte_in_path") (codes "errors") 1 false 120
        (codes "a NUL byte in a sub_path is an invalid path (400), not a 500")
    ∷ check (codes "session_seed_validation") (codes "errors") 0 false 120
        (codes "a rejected seeded create returns 400 and leaks no session slot")
    ∷ check (codes "execution_timeout") (codes "timeout") 1 false 300
        (codes "an overrunning run is cut off, keeping its partial output and files")
    ∷ check (codes "session_capacity") (codes "capacity") 0 false 300
        (codes "at MAX_SESSIONS both /sessions and ephemeral /execute return 503")
    ∷ check (codes "ephemeral_sessions_release_slots") (codes "capacity") 0 false 300
        (codes "back-to-back throwaway runs never exhaust capacity")
    ∷ check (codes "concurrent_execution_limit") (codes "capacity") 0 false 300
        (codes "more runs than MAX_CONCURRENT_EXECUTIONS are queued, not run at once")
    ∷ check (codes "session_lock_timeout") (codes "lock") 1 false 300
        (codes "a request against a busy session gives up with 409")
    ∷ check (codes "idle_session_expiry") (codes "sweep") 0 false 300
        (codes "an idle session is swept; one in use is not")
    ∷ check (codes "per_file_size_cap") (codes "fsize") 1 true 300
        (codes "a file past CONTAINER_ULIMIT_FSIZE is refused without damaging the original")
    ∷ check (codes "quota_survives_project_id_reuse") (codes "quota") 0 true 300
        (codes "a session reusing a freed XFS project id still gets its full quota")
    ∷ check (codes "no_leaked_containers") (codes "host") 1 false 300
        (codes "no container outlives the request that started it, even a timed-out loop")
    ∷ check (codes "session_directory_removed") (codes "host") 0 false 120
        (codes "DELETE really removes the session directory, whatever code left in it")
    ∷ check (codes "no_orphan_session_directories") (codes "host") 0 false 120
        (codes "throwaway sessions leave no directories on disk")
    ∷ []
