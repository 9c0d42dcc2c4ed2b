-- ===== src/Tests/ExecuteRuns.antt =====
-- Runs of `handle_execute` and of its parts.
use code_executor_api.Prelude.{
  inl, ℕ, ◌≡◌, ◌≢◌, ◌≤◌, refl, Text, codes, none, some, List, [], ◌∷◌, Result, ok, err, length,
  Bool, true, false, text_eq, contains, ◌==◌,
}
use code_executor_api.Config.{Limits}
use code_executor_api.Path.{normalize_sub_path}
use code_executor_api.FileSystem.{Bytes, cancelled, open_call, add_child}
use code_executor_api.FileSystem.Calls.{
  open_root, open_directory_at, open_file_at, create_file_at, mkdir_at, write_to, fstat, replace_at,
  unlink_at,
}
use code_executor_api.Content.{
  file_payload, fdopen, make_payload, in_memory, write_file_to_temp, write_opened,
  write_file_content, write_content, prepare_reader, read_content, read_loop, suppress_not_found,
}
use code_executor_api.Session.{
  read_file, stage_file, commit_staged_file, discard_staged_file, with_parent, descend, open_next,
}
use code_executor_api.Languages.{runtime_of, find_runtime, validate_language, validate_code}
use code_executor_api.Routes.{
  Failure, Local, creates, deletes, locks, unlocks, takes_slot, drops_slot, with_lock, with_slot,
  ◌>>=◌, ◌>>◌, catch, finally, files, checked,
}
use code_executor_api.Routes.Uploads.{
  Part, read_text_part, take_part, read_parts, commit_all, discard_all, take_uploads,
}
use code_executor_api.Routes.Execute.{Request, read_payload, attach, execute, handle_execute}
use code_executor_api.Routes.Resources.{held, nothing_held}
use code_executor_api.Routes.Ephemeral.{handle_execute-restores}
use code_executor_api.Routes.Attachments.{Splits, names, attach-Splits}
use code_executor_api.Routes.Commits.{Commits, after_parts, take_uploads-IsAccepted}
use code_executor_api.Routes.Rejected.{IsRejected, take_uploads-rejected}
use code_executor_api.Session.Leaves.{Intact}
use code_executor_api.Tests.SessionRuns.{world, fresh_disk}

abbrev pub limits : Limits
limits = record { max_code_length = 100; max_result_attachments = 1; container_ulimit_fsize = 8 }

abbrev pub at_start : Local
at_start = record { world = world; staged = []; calls = [] }

-- A link is not read, and after the one file there is no room for the other.
abbrev changed : List Text
changed = codes "out" ∷ codes "f" ∷ codes "f" ∷ []

abbrev attached : List (Text × Bytes)
attached = (codes "f", 7 ∷ []) ∷ []

after_attach : Local
after_attach = (attach limits 0 changed ([], []) at_start).1

attach_run :
    attach limits 0 changed ([], []) at_start
    ≡ (ok (attached, codes "out" ∷ codes "f" ∷ []), after_attach)
unfolding attach after_attach read_payload files ◌>>=◌ read_file file_payload fdopen make_payload
    with_parent descend open_next open_root open_directory_at open_file_at fstat open_call
    normalize_sub_path
attach_run = refl

attach-Splits_example :
    Splits changed (names attached) (codes "out" ∷ codes "f" ∷ [])
    × (length attached ≤ limits.max_result_attachments)
attach-Splits_example =
    attach-Splits limits 0 changed attached (codes "out" ∷ codes "f" ∷ []) at_start after_attach
      attach_run

abbrev field : Text → Text → Result Failure Part
field name content = ok (record {
  name = some name;
  filename = none;
  content = in_memory content;
  decoded = λ b. some b;
  token = [];
})

abbrev upload : Result Failure Part
upload = ok (record {
  name = some (codes "attachments");
  filename = some (codes "g");
  content = in_memory (1 ∷ 2 ∷ []);
  decoded = λ b. none;
  token = codes "t";
})

abbrev body : List (Result Failure Part)
body = field (codes "code") (codes "x") ∷ upload ∷ field (codes "language") (codes " bash") ∷ []

abbrev is_blank : ℕ → Bool
is_blank c = c == b' '

after_uploads : Local
after_uploads = (take_uploads limits is_blank 0 body at_start).1

take_uploads_run :
    take_uploads limits is_blank 0 body at_start
    ≡ (ok (ok (codes "bash", codes "x")), after_uploads)
unfolding take_uploads after_uploads read_parts take_part read_text_part read_content read_loop
    prepare_reader ◌>>=◌ ◌>>◌ catch finally files checked commit_all discard_all validate_language
    validate_code runtime_of find_runtime contains text_eq stage_file commit_staged_file
    discard_staged_file with_parent descend open_next write_file_to_temp write_opened fdopen
    write_file_content write_content suppress_not_found open_root open_directory_at create_file_at
    mkdir_at add_child write_to replace_at unlink_at open_call normalize_sub_path
take_uploads_run = refl

take_uploads-IsAccepted_example :
    (runtime_of (codes "bash") ≢ none)
    × (contains 0 (codes "x") ≡ false)
    × (after_uploads.staged ≡ [])
    × Commits 0
        (after_parts limits is_blank 0 body at_start).staged
        (after_parts limits is_blank 0 body at_start).world
        after_uploads.world
take_uploads-IsAccepted_example =
    take_uploads-IsAccepted limits is_blank 0 body (codes "bash") (codes "x") at_start after_uploads
      take_uploads_run

-- The upload is for a file that is there, and the language is unsupported.
abbrev replacement : Result Failure Part
replacement = ok (record {
  name = some (codes "attachments");
  filename = some (codes "f");
  content = in_memory (1 ∷ 2 ∷ []);
  decoded = λ b. none;
  token = codes "t";
})

abbrev refused_body : List (Result Failure Part)
refused_body =
    field (codes "code") (codes "x") ∷ replacement ∷ field (codes "language") (codes "cobol") ∷ []

refused_run : IsRejected (take_uploads limits is_blank 0 refused_body at_start).0
unfolding take_uploads read_parts take_part read_text_part read_content read_loop prepare_reader
    ◌>>=◌ ◌>>◌ catch finally files checked commit_all discard_all validate_language validate_code
    runtime_of find_runtime contains text_eq stage_file commit_staged_file discard_staged_file
    with_parent descend open_next write_file_to_temp write_opened fdopen write_file_content
    write_content suppress_not_found open_root open_directory_at create_file_at mkdir_at add_child
    write_to replace_at unlink_at open_call normalize_sub_path
refused_run = tt

take_uploads-rejected_example :
    Intact world.fs (take_uploads limits is_blank 0 refused_body at_start).1.world.fs
take_uploads-rejected_example =
    take_uploads-rejected limits is_blank 0 refused_body at_start fresh_disk refl (inl refused_run)

-- An ephemeral request whose run is cancelled.
abbrev cancelled_request : Request
cancelled_request = record {
  ephemeral = true;
  is_multipart = true;
  parts = body;
  is_space = is_blank;
  created = ok tt;
  locked = ok 0;
  slot = ok tt;
  deleted = ok tt;
  run = λ root language code w. (err cancelled, w);
}

handle_execute-restores_example :
    held (handle_execute limits cancelled_request at_start).1.calls ≡ some nothing_held
handle_execute-restores_example =
    handle_execute-restores limits cancelled_request at_start refl refl

cancelled_run :
    (handle_execute limits cancelled_request at_start).1.calls
    ≡ deletes ∷ unlocks ∷ drops_slot ∷ takes_slot ∷ locks ∷ creates ∷ []
unfolding handle_execute execute with_lock with_slot take_uploads after_uploads read_parts take_part
    read_text_part read_content read_loop prepare_reader ◌>>=◌ ◌>>◌ catch finally files checked
    commit_all discard_all validate_language validate_code runtime_of find_runtime contains text_eq
    stage_file commit_staged_file discard_staged_file with_parent descend open_next
    write_file_to_temp write_opened fdopen write_file_content write_content suppress_not_found
    open_root open_directory_at create_file_at mkdir_at add_child write_to replace_at unlink_at
    open_call normalize_sub_path
cancelled_run = refl
