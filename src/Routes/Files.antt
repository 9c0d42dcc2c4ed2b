-- ===== src/Routes/Files.antt =====
-- code_executor_api/routes/files.py and code_executor_api/routes/sessions.py: the files API and the
-- creation and deletion of sessions.
use code_executor_api.Prelude.{
  ℕ, Text, codes, strip, Bool, true, false, Option, none, some, List, [], ◌∷◌, Result, ok, err,
  if◌then◌else◌,
}
use code_executor_api.Path.{is_slash, is_empty}
use code_executor_api.Config.{Limits}
use code_executor_api.Manager.{
  SessionError, session_not_found, session_lock_timeout, session_limit_reached, quota_setup_failed,
}
use code_executor_api.FileSystem
use code_executor_api.FileSystem.{Errno, Bytes, enoent, eisdir, enotdir, resource_limit, cancelled}
use code_executor_api.Content.{Content}
use code_executor_api.Session.{read_file, write_file, delete_file}
use code_executor_api.Session.Listing.{Attributes, Entry, list_directory}
use code_executor_api.Languages.{parts_must_be_files}
use code_executor_api.Routes.{
  Failure, of_files, of_manager, invalid, bad_http, Handler, pure, raise, ◌>>=◌, ◌>>◌, catch, files,
  with_lock, deletion, Response, refuses, answers,
}
use code_executor_api.Routes.Uploads.{Part}
use code_executor_api.Routes.Execute.{limit_text, creation}

-- What `GET` serves.
pub data Served : Type 0 where
  file_content : Bytes → Served
  listing : Text → List Entry → Served

abbrev pub served_listing : Text × List Entry → Handler (Response Served)
served_listing (path, entries) = pure (answers 200 (listing path entries))

abbrev pub list_at : Attributes → ℕ → Text → Handler (Response Served)
list_at attributes root sub_path =
    files (list_directory attributes root sub_path) >>= served_listing

-- `except IsADirectoryError`
abbrev pub or_listing : Attributes → ℕ → Text → Failure → Handler (Response Served)
or_listing attributes root sub_path (of_files (FileSystem.os_error eisdir)) =
    list_at attributes root sub_path
or_listing attributes root sub_path e = raise e

-- `except (FileNotFoundError, NotADirectoryError)`
abbrev pub as_file_not_found : Failure → Handler (Response Served)
as_file_not_found (of_files (FileSystem.os_error enoent)) =
    pure (refuses 404 (codes "File not found"))
as_file_not_found (of_files (FileSystem.os_error enotdir)) =
    pure (refuses 404 (codes "File not found"))
as_file_not_found e = raise e

-- `except SessionNotFound`, `except SessionLockTimeout`
abbrev pub session_failure {ℓ} : {A : Type ℓ} → Failure → Handler (Response A)
session_failure (of_manager session_not_found) = pure (refuses 404 (codes "Session not found"))
session_failure (of_manager session_lock_timeout) = pure (refuses 409 (codes "Session is busy"))
session_failure e = raise e

unfoldable pub get_under_lock : Attributes → Text → ℕ → Handler (Response Served)
unfolding strip
get_under_lock attributes sub_path root =
    if is_empty (strip is_slash sub_path)
    then list_at attributes root sub_path
    else catch (files (read_file root sub_path) >>= λ b. pure (answers 200 (file_content b)))
        (or_listing attributes root sub_path)

-- `handle_get_file`
unfoldable pub handle_get_file :
    Attributes → Result SessionError ℕ → Text → Handler (Response Served)
unfolding get_under_lock with_lock
handle_get_file attributes locked sub_path =
    catch
      (with_lock locked (λ root. catch (get_under_lock attributes sub_path root) as_file_not_found))
      session_failure

-- The refusal that a path that is missing, a directory or below no directory gets.
abbrev pub as_bad_path : ℕ → Text → Failure → Handler (Response (Unit {0}))
as_bad_path status message (of_files (FileSystem.os_error enoent)) = pure (refuses status message)
as_bad_path status message (of_files (FileSystem.os_error eisdir)) = pure (refuses status message)
as_bad_path status message (of_files (FileSystem.os_error enotdir)) = pure (refuses status message)
as_bad_path status message e = raise e

abbrev pub put_refused : Failure → Handler (Response (Unit {0}))
put_refused (of_files (resource_limit l)) = pure (refuses 413 (limit_text l))
put_refused e = session_failure e

-- `handle_put_file`
unfoldable pub handle_put_file :
    Limits → Result SessionError ℕ → Text → Content → Text → Handler (Response (Unit {0}))
unfolding with_lock
handle_put_file limits locked sub_path body token =
    catch
      (with_lock locked (λ root.
        catch
          (files (write_file limits.container_ulimit_fsize root sub_path body token)
            >> pure (answers 204 tt))
          (as_bad_path 400 (codes "Invalid file path"))))
      put_refused

-- `handle_delete_file`
unfoldable pub handle_delete_file : Result SessionError ℕ → Text → Handler (Response (Unit {0}))
unfolding with_lock
handle_delete_file locked sub_path =
    catch
      (with_lock locked (λ root.
        catch (files (delete_file root sub_path) >> pure (answers 204 tt))
          (as_bad_path 404 (codes "File not found"))))
      session_failure

-- `handle_delete_session`
unfoldable pub handle_delete_session :
    Result SessionError (Unit {0}) → Handler (Response (Unit {0}))
handle_delete_session deleted = catch (deletion deleted >> pure (answers 204 tt)) session_failure

abbrev pub create_failure : Failure → Handler (Result (ℕ × Text) (Unit {0}))
create_failure (of_manager session_limit_reached) =
    pure (err (503, codes "Session capacity reached"))
create_failure (of_manager quota_setup_failed) =
    pure (err (500, codes "Session storage quota setup failed"))
create_failure e = raise e

abbrev pub seed : Limits → ℕ → Part → Option Text → Handler (Unit {0})
seed limits root p none = raise (invalid parts_must_be_files)
seed limits root p (some filename) =
    files (write_file limits.container_ulimit_fsize root filename p.content p.token)

-- The loop over the seed files
unfoldable pub seed_all : Limits → ℕ → List (Result Failure Part) → Handler (Unit {0})
seed_all limits root [] = pure tt
seed_all limits root (err e ∷ parts) = raise e
seed_all limits root (ok p ∷ parts) = seed limits root p p.filename >> seed_all limits root parts

-- A session that cannot be seeded is deleted; what is not answered here is raised again. A
-- cancellation is no `Exception` of Python: it passes by.
abbrev pub unseeded : Result SessionError (Unit {0}) → Failure → Handler (Response (Unit {0}))
unseeded deleted (of_files (resource_limit l)) =
    deletion deleted >> pure (refuses 413 (limit_text l))
unseeded deleted bad_http =
    deletion deleted >> pure (refuses 400 (codes "Request body is not valid multipart/form-data"))
unseeded deleted (of_files cancelled) = raise (of_files cancelled)
unseeded deleted e = deletion deleted >> raise e

abbrev pub seeded :
    Limits
    → Bool
    → ℕ
    → List (Result Failure Part)
    → Result SessionError (Unit {0})
    → Result (ℕ × Text) (Unit {0})
    → Handler (Response (Unit {0}))
seeded limits is_multipart root parts deleted (err (status, message)) =
    pure (refuses status message)
seeded limits false root parts deleted (ok u) = pure (answers 200 tt)
seeded limits true root parts deleted (ok u) =
    catch (seed_all limits root parts >> pure (answers 200 tt)) (unseeded deleted)

-- `handle_create_session`: whether the body is multipart, the new session's directory, what the
-- reader yields, and the manager's answers.
unfoldable pub handle_create_session :
    Limits
    → Bool
    → ℕ
    → List (Result Failure Part)
    → Result SessionError (Unit {0})
    → Result SessionError (Unit {0})
    → Handler (Response (Unit {0}))
unfolding seed_all
handle_create_session limits is_multipart root parts created deleted =
    catch (creation created >> pure (ok tt)) create_failure
    >>= seeded limits is_multipart root parts deleted
