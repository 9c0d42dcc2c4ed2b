-- ===== src/Tests/ClientRuns.antt =====
-- A check of the harness against the handlers.
use code_executor_api.Prelude.{◌≡◌, ◌≤◌, refl, codes, text_eq, [], arith, strip, split}
use code_executor_api.Config.{Limits}
use code_executor_api.Path.{normalize_sub_path}
use code_executor_api.FileSystem.Calls.{
  open_root, open_directory_at, open_file_at, create_file_at, mkdir_at, write_to, fstat, replace_at,
  unlink_at,
}
use code_executor_api.Content.{
  file_payload, fdopen, make_payload, write_file_to_temp, write_opened, write_file_content,
  write_content, prepare_reader, suppress_not_found,
}
use code_executor_api.Session.{
  read_file, stage_file, commit_staged_file, discard_staged_file, write_file, with_parent, descend,
  open_next,
}
use code_executor_api.Routes.{with_lock, catch, finally, files, ◌>>=◌, ◌>>◌}
use code_executor_api.Routes.Files.{handle_put_file, handle_get_file, get_under_lock}
use code_executor_api.FileSystem.{child, entry, add_child, open_call, without}
use code_executor_api.FileSystem.Resolve.{IsNoDirectory}
use code_executor_api.FileSystem.Calm.{calm}
use code_executor_api.Harness.Runs.{returns, asserts}
use code_executor_api.Harness.Client.{
  FilesApi, hello_txt, check_file_lifecycle, check_put_path_edges,
}
use code_executor_api.Harness.Lifecycle.{served, check_file_lifecycle-returns}
use code_executor_api.Tests.SessionRuns.{world, fresh_disk, new_token}
use code_executor_api.Tests.ExecuteRuns.{limits}
use code_executor_api.Tests.RouteRuns.{attributes}

abbrev roomy : Limits
roomy = record limits { container_ulimit_fsize = 16 }

hello_is_free : IsNoDirectory world.fs 0 hello_txt
unfolding child entry text_eq
hello_is_free = λ j (e, k). cc

eleven_fit : 11 ≤ roomy.container_ulimit_fsize
eleven_fit = omega arith

-- A server that has lost the file.
abbrev forgetful : FilesApi (Unit {0})
forgetful = record {
  put = λ path b s. (204, s);
  get = λ path s. ((404, []), s);
  delete = λ path s. (204, s);
}

check_fails :
    (check_file_lifecycle forgetful (λ n. codes "404") (λ b. []) tt).0
    ≡ asserts (codes "GET failed: 404")
unfolding check_file_lifecycle
check_fails = refl

check_file_lifecycle-returns_example :
    (check_file_lifecycle
      (served roomy attributes (λ path entries. []) (λ message. message) 0 (codes "t"))
      (λ n. [])
      (λ b. b)
      (record { world = calm world.fs 3; staged = []; calls = [] })).0
    ≡ returns
check_file_lifecycle-returns_example =
    check_file_lifecycle-returns roomy attributes (λ path entries. []) (λ message. message)
      (λ n. []) (λ b. b) world.fs 3 0 (codes "t") [] [] fresh_disk (_, refl) new_token hello_is_free
      eleven_fit

-- Directories that are missing are made, a directory and a path through a file are refused, and an
-- empty file is a file.
path_edges_run :
    (check_put_path_edges
      (served roomy attributes (λ path entries. []) (λ message. message) 0 (codes "t"))
      (λ n. [])
      (λ b. b)
      (record { world = calm world.fs 3; staged = []; calls = [] })).0
    ≡ returns
unfolding check_put_path_edges handle_put_file handle_get_file get_under_lock with_lock catch
    finally files ◌>>=◌ ◌>>◌ strip split normalize_sub_path read_file write_file stage_file
    commit_staged_file discard_staged_file with_parent descend open_next file_payload fdopen
    make_payload write_file_to_temp write_opened write_file_content write_content prepare_reader
    suppress_not_found open_root open_directory_at open_file_at create_file_at mkdir_at add_child
    write_to fstat replace_at unlink_at open_call text_eq without
path_edges_run = refl
