-- ===== src/Routes/Execute.antt =====
-- code_executor_api/routes/execute.py, the handler.
use code_executor_api.Prelude.{
  ℕ, Text, codes, leb, length, Bool, true, false, not, Option, none, some, List, [], ◌∷◌, ◌++◌,
  Result, ok, err, if◌then◌else◌,
}
use code_executor_api.Config.{Limits}
use code_executor_api.Manager.{
  SessionError, session_not_found, session_lock_timeout, session_limit_reached, quota_setup_failed,
  execution_limit_reached,
}
use code_executor_api.FileSystem
use code_executor_api.FileSystem.{
  resource_limit, Limit, file_size_limit, storage_limit, enoent, eisdir, Bytes, World, Exec,
}
use code_executor_api.Session.{read_file}
use code_executor_api.Executor.Run.{CodeExecutionResult}
use code_executor_api.Routes.{
  Failure, of_files, of_manager, creates, Handler, pure, raise, ◌>>=◌, ◌>>◌, catch, finally, files,
  note, with_lock, with_slot, deletion, Response, refuses, answers,
}
use code_executor_api.Routes.Uploads.{Part, Ready, take_uploads}

-- What the handler is given: whether a session id is in the URL, the body, and the answers of the
-- manager. `parts` is what the reader yields, or raises; `run` is `run_code_async`.
pub record Request : Type 0 where
  pub ephemeral : Bool
  pub is_multipart : Bool
  pub parts : List (Result Failure Part)
  pub is_space : ℕ → Bool
  pub created : Result SessionError (Unit {0})
  pub locked : Result SessionError ℕ
  pub slot : Result SessionError (Unit {0})
  pub deleted : Result SessionError (Unit {0})
  pub run : ℕ → Text → Text → Exec CodeExecutionResult

-- The `result` part and the attachments of the answer.
pub record Executed : Type 0 where
  pub result : CodeExecutionResult
  pub omitted_files : List Text
  pub payloads : List (Text × Bytes)

-- `except (OSError, UnicodeError)` around `session.read_file`
abbrev pub attempt : Result Failure Bytes → Handler (Option Bytes)
attempt (ok b) = pure (some b)
attempt (err (of_files (FileSystem.os_error e))) = pure none
attempt (err e) = raise e

abbrev pub placed :
    Text → Option Bytes → List (Text × Bytes) × List Text → List (Text × Bytes) × List Text
placed path (some b) (payloads, omitted) = (payloads ++ (path, b) ∷ [], omitted)
placed path none (payloads, omitted) = (payloads, omitted ++ path ∷ [])

unfoldable pub read_payload : ℕ → Text → Handler (Option Bytes)
read_payload root path s = let (r, s') = files (read_file root path) s in attempt r s'

-- The loop over `result.changed_files`
unfoldable pub attach :
    Limits
    → ℕ
    → List Text
    → List (Text × Bytes) × List Text
    → Handler (List (Text × Bytes) × List Text)
attach limits root [] acc = pure acc
attach limits root (path ∷ paths) acc =
    if leb limits.max_result_attachments (length acc.0)
    then attach limits root paths (placed path none acc)
    else (read_payload root path >>= λ b. attach limits root paths (placed path b acc))

-- The body of `execution_slot`
unfoldable pub execute : Limits → Request → ℕ → Text → Text → Handler (Response Executed)
unfolding attach
execute limits q root language code = do
  result ← files (q.run root language code)
  (payloads, omitted) ← attach limits root result.changed_files ([], [])
  pure (answers 200 (record { result = result; omitted_files = omitted; payloads = payloads }))

abbrev pub run_ready : Limits → Request → ℕ → Ready → Handler (Response Executed)
run_ready limits q root (err (status, message)) = pure (refuses status message)
run_ready limits q root (ok (language, code)) =
    with_slot q.slot (execute limits q root language code)

abbrev pub limit_text : Limit → Text
limit_text file_size_limit = codes "File size limit reached"
limit_text storage_limit = codes "Session storage or file count limit reached"

-- The `except` clauses of `handle_execute`
abbrev pub execute_failure : Failure → Handler (Response Executed)
execute_failure (of_manager session_not_found) = pure (refuses 404 (codes "Session not found"))
execute_failure (of_manager session_lock_timeout) = pure (refuses 409 (codes "Session is busy"))
execute_failure (of_manager session_limit_reached) =
    pure (refuses 503 (codes "Session capacity reached"))
execute_failure (of_manager quota_setup_failed) =
    pure (refuses 500 (codes "Session storage quota setup failed"))
execute_failure (of_manager execution_limit_reached) =
    pure (refuses 503 (codes "Execution capacity reached"))
execute_failure (of_files (resource_limit l)) = pure (refuses 413 (limit_text l))
execute_failure (of_files (FileSystem.os_error enoent)) =
    pure (refuses 400 (codes "Invalid attachment path"))
execute_failure (of_files (FileSystem.os_error eisdir)) =
    pure (refuses 400 (codes "Invalid attachment path"))
execute_failure e = raise e

abbrev pub creation : Result SessionError (Unit {0}) → Handler (Unit {0})
creation (err e) = raise (of_manager e)
creation (ok u) = note creates

abbrev pub started : Bool → Result SessionError (Unit {0}) → Handler (Unit {0})
started true created = creation created
started false created = pure tt

-- `contextlib.suppress(SessionNotFound)`
abbrev pub ignore_session_not_found : Failure → Handler (Unit {0})
ignore_session_not_found (of_manager session_not_found) = pure tt
ignore_session_not_found e = raise e

-- `if ephemeral and session_id is not None`: the id is there once `create` has returned.
abbrev pub cleanup :
    Bool → Result SessionError (Unit {0}) → Result SessionError (Unit {0}) → Handler (Unit {0})
cleanup true (ok u) deleted = catch (deletion deleted) ignore_session_not_found
cleanup true (err e) deleted = pure tt
cleanup false created deleted = pure tt

-- `handle_execute`
unfoldable pub handle_execute : Limits → Request → Handler (Response Executed)
unfolding take_uploads with_lock with_slot execute
handle_execute limits q =
    if not q.is_multipart
    then pure (refuses 400 (codes "Request must be multipart/form-data"))
    else finally
        (catch
          (started q.ephemeral q.created
            >> with_lock q.locked
                (λ root. take_uploads limits q.is_space root q.parts >>= run_ready limits q root))
          execute_failure)
        (cleanup q.ephemeral q.created q.deleted)
