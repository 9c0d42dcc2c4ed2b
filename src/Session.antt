-- ===== src/Session.antt =====
-- code_executor_api/sessions.py, the file operations of `Session`. The session's directory is given
-- by its inode. A descriptor is closed where the source's `with` and `finally` close it.
pub mod Closes
pub mod Closed
pub mod Listing
pub mod Removal
pub mod Walks
pub mod Staging
pub mod RoundTrip
pub mod Writes
pub mod Leaves
pub mod Stages
pub mod Discards
pub mod Spares
pub mod Others
pub mod Entries
pub mod Lists
pub mod Refused
pub mod Deletes
use code_executor_api.Prelude.{
  ℕ, Text, split, join, starts_with, strip, codes, Bool, true, false, not, ◌&&◌, ◌||◌, Option, none,
  some, List, [], ◌∷◌, ◌++◌, Result, ok, err, if◌then◌else◌, text_eq, length, drop,
}
use code_executor_api.Path.{slash, is_slash, is_empty, normpath, normalize_sub_path, PathError}
use code_executor_api.FileSystem.{
  Errno, enoent, eloop, enotdir, eisdir, eexist, enxio, enodev, enospc, edquot, other_errno, Limit,
  file_size_limit, storage_limit, Exception, os_error, validation_error, entity_too_large,
  resource_limit, aborted, Bytes, Node, regular, directory, symlink, special, World, Exec, pure,
  raise, lift, ◌>>=◌, ◌>>◌, catch, finally, on_error, close,
}
use code_executor_api.FileSystem.Calls.{
  open_root, open_directory_at, open_file_at, mkdir_at, fstat, stat_at, replace_at, unlink_at,
  listdir,
}
use code_executor_api.Content.{Content, file_payload, write_file_to_temp, suppress_not_found}

abbrev pub checked : Result PathError Text → Result Exception Text
checked (ok q) = ok q
checked (err e) = err (validation_error e)

-- `normalize_sub_path(sub_path)`, which raises `ValidationError`
abbrev pub normalised : Text → Exec Text
normalised sub_path = lift (checked (normalize_sub_path sub_path))

-- `except FileExistsError: pass`
abbrev pub ignore_exists : Exception → Exec ℕ
ignore_exists (os_error eexist) = pure 0
ignore_exists e = raise e

-- A component that is a symlink or no directory is not found.
abbrev pub as_not_found : Exception → Exec ℕ
as_not_found (os_error eloop) = raise (os_error enoent)
as_not_found (os_error enotdir) = raise (os_error enoent)
as_not_found e = raise e

-- One component of the walk of `_open_parent`.
unfoldable pub open_next : ℕ → Text → Bool → Exec ℕ
open_next fd part false = catch (open_directory_at fd part) as_not_found
open_next fd part true =
    catch (mkdir_at fd part) ignore_exists >> catch (open_directory_at fd part) as_not_found

-- The walk: the descriptor held is closed when the next is open, and when the walk fails.
unfoldable pub descend : ℕ → List Text → Bool → Exec ℕ
descend fd [] create_dir = pure fd
descend fd (part ∷ parts) create_dir =
    on_error (open_next fd part create_dir) close >>= λ next_fd w.
    descend next_fd parts create_dir (close w)

-- `path_parts[:-1]` and `path_parts[-1]`
abbrev pub init : List Text → List Text
init [] = []
init (p ∷ []) = []
init (p ∷ q ∷ ps) = p ∷ init (q ∷ ps)

abbrev pub last : List Text → Text
last [] = []
last (p ∷ []) = p
last (p ∷ q ∷ ps) = last (q ∷ ps)

-- `_open_parent`, around the body of its `with`
unfoldable pub with_parent {ℓ} : {A : Type ℓ} → ℕ → Text → Bool → (ℕ → Text → Exec A) → Exec A
with_parent root path create_dir body = do
  fd ← open_root root
  parent_fd ← descend fd (init (split slash path)) create_dir
  finally (body parent_fd (last (split slash path))) close

-- None of these has content to serve.
abbrev pub without_content : Exception → Exec ℕ
without_content (os_error eloop) = raise (os_error enoent)
without_content (os_error enxio) = raise (os_error enoent)
without_content (os_error enodev) = raise (os_error enoent)
without_content (os_error enotdir) = raise (os_error enoent)
without_content e = raise e

abbrev pub only_regular : Node → Exec Bytes
only_regular (regular content) = pure content
only_regular (directory es) = raise (os_error eisdir)
only_regular _ = raise (os_error enoent)

-- `Session.read_file`: the payload takes the descriptor over.
unfoldable pub read_file : ℕ → Text → Exec Bytes
read_file root sub_path = do
  path ← normalised sub_path
  with_parent root path false (λ parent_fd filename. do
    fd ← catch (open_file_at parent_fd filename) without_content
    content ← on_error (fstat fd >>= only_regular) close
    file_payload fd content)

abbrev pub resource_limits : Exception → Exec (Text × ℕ)
resource_limits entity_too_large = raise (resource_limit file_size_limit)
resource_limits (os_error enospc) = raise (resource_limit storage_limit)
resource_limits (os_error edquot) = raise (resource_limit storage_limit)
resource_limits e = raise e

-- `Session.stage_file`, with the token of the temporary name
unfoldable pub stage_file : ℕ → ℕ → Text → Content → Text → Exec (Text × Text)
stage_file fsize_limit root sub_path content token = do
  path ← normalised sub_path
  (name, size) ←
      catch
        (with_parent root path true
          (λ parent_fd _. write_file_to_temp parent_fd content fsize_limit token))
        resource_limits
  pure (path, name)

-- `Session.commit_staged_file`
unfoldable pub commit_staged_file : ℕ → Text → Text → Exec (Unit {0})
commit_staged_file root path name =
    with_parent root path false (λ parent_fd filename. replace_at parent_fd name filename)

-- `Session.discard_staged_file`
unfoldable pub discard_staged_file : ℕ → Text → Text → Exec (Unit {0})
discard_staged_file root path name =
    with_parent root path false (λ parent_fd _. suppress_not_found (unlink_at parent_fd name))

-- `contextlib.suppress(OSError)`
abbrev pub ignore_os_error : Exception → Exec (Unit {0})
ignore_os_error (os_error e) = pure tt
ignore_os_error e = raise e

abbrev pub storage_limits : Exception → Exec (Unit {0})
storage_limits (os_error enospc) = raise (resource_limit storage_limit)
storage_limits (os_error edquot) = raise (resource_limit storage_limit)
storage_limits e = raise e

-- `Session.write_file`
unfoldable pub write_file : ℕ → ℕ → Text → Content → Text → Exec (Unit {0})
write_file fsize_limit root sub_path content token = do
  (path, name) ← stage_file fsize_limit root sub_path content token
  catch (commit_staged_file root path name)
      (λ e. do catch (discard_staged_file root path name) ignore_os_error; storage_limits e)

abbrev pub not_a_directory : Node → Exec (Unit {0})
not_a_directory (directory es) = raise (os_error eisdir)
not_a_directory _ = pure tt

-- `Session.delete_file`
unfoldable pub delete_file : ℕ → Text → Exec (Unit {0})
delete_file root sub_path = do
  path ← normalised sub_path
  with_parent root path false (λ parent_fd filename. do
    mode ← stat_at parent_fd filename
    not_a_directory mode
    unlink_at parent_fd filename)

-- `Session.get_sub_path`: none stands for the `ValueError`.
unfoldable pub get_sub_path : Text → Text → Option Text
get_sub_path work_directory full_path =
    let normalised_path = normpath full_path in
    if starts_with normalised_path (work_directory ++ slash ∷ [])
    then some (drop (length (work_directory ++ slash ∷ [])) normalised_path)
    else none
