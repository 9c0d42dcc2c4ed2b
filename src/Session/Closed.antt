-- ===== src/Session/Closed.antt =====
-- The file operations close every descriptor that they open, on every path, faults included.
use code_executor_api.Prelude.{
  ℕ, suc, ◌+◌, Text, true, false, List, [], ◌∷◌, arith, ltb, Bool-cases, inl, inr, length,
}
use code_executor_api.Path.{normalize_sub_path}
use code_executor_api.FileSystem.{
  enoent, eloop, enotdir, enxio, enodev, enospc, edquot, Exception, os_error, entity_too_large,
  Bytes, Node, regular, directory, World,
}
use code_executor_api.FileSystem.Calls.{
  open_file_at, create_file_at, write_to, fstat, stat_at, replace_at, unlink_at,
}
use code_executor_api.FileSystem.Descriptors.{
  After, Moves, Moves-pure, Moves-raise, Moves-lift, Moves-syscall, Moves-open, Moves-finally-close,
  Moves-on_error-close, Moves-bind, Moves-catch,
}
use code_executor_api.Content.{
  Read, chunk, fails, Content, prepare_reader, write_content, write_file_content,
  suppress_not_found, ignore_not_found, temporary_name, write_file_to_temp, write_opened,
  file_payload, fdopen, make_payload,
}
use code_executor_api.Session.{
  normalised, checked, without_content, only_regular, read_file, resource_limits, stage_file,
  commit_staged_file, discard_staged_file, ignore_os_error, storage_limits, write_file,
  not_a_directory, delete_file,
}
use code_executor_api.Session.Closes.{with_parent-Moves, list_directory-Moves}
use code_executor_api.Session.Listing.{Attributes, list_directory}

open_file_at-Moves : (a fd : ℕ) (name : Text) → Moves a (suc a) a (open_file_at fd name)
unfolding open_file_at
open_file_at-Moves a fd name = Moves-open a _

create_file_at-Moves : (a fd : ℕ) (name : Text) → Moves a (suc a) a (create_file_at fd name)
unfolding create_file_at
create_file_at-Moves a fd name = Moves-open a _

write_to-Moves : (a fd : ℕ) (b : Bytes) → Moves a a a (write_to fd b)
unfolding write_to
write_to-Moves a fd b = Moves-syscall a _

fstat-Moves : (a fd : ℕ) → Moves a a a (fstat fd)
unfolding fstat
fstat-Moves a fd = Moves-syscall a _

stat_at-Moves : (a fd : ℕ) (name : Text) → Moves a a a (stat_at fd name)
unfolding stat_at
stat_at-Moves a fd name = Moves-syscall a _

replace_at-Moves : (a fd : ℕ) (old new : Text) → Moves a a a (replace_at fd old new)
unfolding replace_at
replace_at-Moves a fd old new = Moves-syscall a _

unlink_at-Moves : (a fd : ℕ) (name : Text) → Moves a a a (unlink_at fd name)
unfolding unlink_at
unlink_at-Moves a fd name = Moves-syscall a _

write_content-Moves :
    (a fd max_size size : ℕ) (reads : List Read)
    → Moves a a a (write_content fd max_size size reads)
unfolding write_content
write_content-Moves a fd max_size size [] = Moves-pure a a size
write_content-Moves a fd max_size size (fails e ∷ reads) = Moves-raise a a e
write_content-Moves a fd max_size size (chunk [] ∷ reads) = Moves-pure a a size
write_content-Moves a fd max_size size (chunk (b ∷ bs) ∷ reads) =
    elim (Bool-cases (ltb max_size (size + length (b ∷ bs)))) [
      | inl e ↦ rw e (Moves-raise a a entity_too_large)
      | inr e ↦ rw e (
          Moves-bind a a a a _ _ (write_to-Moves a fd (b ∷ bs))
            λ _. write_content-Moves a fd max_size (size + length (b ∷ bs)) reads)
    ]

ignore_not_found-Moves : (a : ℕ) (x : Exception) → Moves a a a (ignore_not_found x)
ignore_not_found-Moves a (os_error enoent) = Moves-pure a a tt
ignore_not_found-Moves a (os_error _) = Moves-raise a a _
ignore_not_found-Moves a _ = Moves-raise a a _

discarding-Moves : (a fd : ℕ) (name : Text) → Moves a a a (suppress_not_found (unlink_at fd name))
unfolding suppress_not_found
discarding-Moves a fd name =
    Moves-catch a a a a _ _ (unlink_at-Moves a fd name) (ignore_not_found-Moves a)

write_file_to_temp-Moves :
    (fd : ℕ) (content : Content) (limit : ℕ) (token : Text)
    → Moves 1 1 1 (write_file_to_temp fd content limit token)
unfolding write_file_to_temp write_opened write_file_content fdopen
write_file_to_temp-Moves fd content limit token =
    Moves-bind 1 2 1 1 _ _ (create_file_at-Moves 1 fd (temporary_name token)) λ new_fd.
      Moves-bind 2 1 1 1 _ _
        (Moves-catch 2 1 1 1 _ _
          (Moves-bind 2 2 1 1 _ _ (Moves-on_error-close 2 2 1 _ (Moves-syscall 2 _)) λ _.
            Moves-finally-close 2 1 1 _
              (write_content-Moves 2 new_fd limit 0 (prepare_reader content)))
          λ e.
            Moves-bind 1 1 1 1 _ _ (discarding-Moves 1 fd (temporary_name token))
              λ _. Moves-raise 1 1 e)
        λ size. Moves-pure 1 1 (temporary_name token, size)

resource_limits-Moves : (x : Exception) → Moves 0 0 0 (resource_limits x)
resource_limits-Moves entity_too_large = Moves-raise 0 0 _
resource_limits-Moves (os_error enospc) = Moves-raise 0 0 _
resource_limits-Moves (os_error edquot) = Moves-raise 0 0 _
resource_limits-Moves (os_error _) = Moves-raise 0 0 _
resource_limits-Moves _ = Moves-raise 0 0 _

storage_limits-Moves : (x : Exception) → Moves 0 0 0 (storage_limits x)
storage_limits-Moves (os_error enospc) = Moves-raise 0 0 _
storage_limits-Moves (os_error edquot) = Moves-raise 0 0 _
storage_limits-Moves (os_error _) = Moves-raise 0 0 _
storage_limits-Moves _ = Moves-raise 0 0 _

ignore_os_error-Moves : (x : Exception) → Moves 0 0 0 (ignore_os_error x)
ignore_os_error-Moves (os_error e) = Moves-pure 0 0 tt
ignore_os_error-Moves _ = Moves-raise 0 0 _

without_content-Moves : (x : Exception) → Moves 1 2 1 (without_content x)
without_content-Moves (os_error eloop) = Moves-raise 1 2 _
without_content-Moves (os_error enxio) = Moves-raise 1 2 _
without_content-Moves (os_error enodev) = Moves-raise 1 2 _
without_content-Moves (os_error enotdir) = Moves-raise 1 2 _
without_content-Moves (os_error _) = Moves-raise 1 2 _
without_content-Moves _ = Moves-raise 1 2 _

only_regular-Moves : (n : Node) → Moves 2 2 2 (only_regular n)
only_regular-Moves (regular content) = Moves-pure 2 2 content
only_regular-Moves (directory es) = Moves-raise 2 2 _
only_regular-Moves _ = Moves-raise 2 2 _

not_a_directory-Moves : (n : Node) → Moves 1 1 1 (not_a_directory n)
not_a_directory-Moves (directory es) = Moves-raise 1 1 _
not_a_directory-Moves _ = Moves-pure 1 1 tt

normalised-Moves : (a : ℕ) (sub_path : Text) → Moves a a a (normalised sub_path)
normalised-Moves a sub_path = Moves-lift a (checked (normalize_sub_path sub_path))

file_payload-Moves :
    (a fd : ℕ) (content : Bytes) → Moves (suc a) (suc a) a (file_payload fd content)
unfolding file_payload fdopen make_payload
file_payload-Moves a fd content =
    Moves-bind (suc a) (suc a) (suc a) a _ _
      (Moves-on_error-close (suc a) (suc a) a _ (Moves-syscall (suc a) _))
      λ _.
        Moves-bind (suc a) (suc a) (suc a) a _ _
          (Moves-on_error-close (suc a) (suc a) a _ (Moves-syscall (suc a) _))
          λ _. Moves-pure (suc a) a content

read_file-Moves : (root : ℕ) (sub_path : Text) → Moves 0 1 0 (read_file root sub_path)
unfolding read_file
read_file-Moves root sub_path = Moves-bind 0 0 1 0 _ _ (normalised-Moves 0 sub_path) λ path.
    with_parent-Moves 1 root path false _ λ parent_fd name.
      Moves-bind 1 2 2 1 _ _
        (Moves-catch 1 2 1 1 _ _ (open_file_at-Moves 1 parent_fd name) without_content-Moves)
        λ fd.
          Moves-bind 2 2 2 1 _ _
            (Moves-on_error-close 2 2 1 _
              (Moves-bind 2 2 2 2 _ _ (fstat-Moves 2 fd) only_regular-Moves))
            λ content. file_payload-Moves 1 fd content

stage_file-Moves :
    (limit root : ℕ) (sub_path : Text) (content : Content) (token : Text)
    → Moves 0 0 0 (stage_file limit root sub_path content token)
unfolding stage_file
stage_file-Moves limit root sub_path content token =
    Moves-bind 0 0 0 0 _ _ (normalised-Moves 0 sub_path) λ path.
      Moves-bind 0 0 0 0 _ _
        (Moves-catch 0 0 0 0 _ _
          (with_parent-Moves 0 root path true _
            λ parent_fd _. write_file_to_temp-Moves parent_fd content limit token)
          resource_limits-Moves)
        λ staged. Moves-pure 0 0 (path, staged.0)

commit-Moves : (root : ℕ) (path name : Text) → Moves 0 0 0 (commit_staged_file root path name)
unfolding commit_staged_file
commit-Moves root path name =
    with_parent-Moves 0 root path false _
      λ parent_fd filename. replace_at-Moves 1 parent_fd name filename

discard-Moves : (root : ℕ) (path name : Text) → Moves 0 0 0 (discard_staged_file root path name)
unfolding discard_staged_file
discard-Moves root path name =
    with_parent-Moves 0 root path false _ λ parent_fd _. discarding-Moves 1 parent_fd name

write_file-Moves :
    (limit root : ℕ) (sub_path : Text) (content : Content) (token : Text)
    → Moves 0 0 0 (write_file limit root sub_path content token)
unfolding write_file
write_file-Moves limit root sub_path content token =
    Moves-bind 0 0 0 0 _ _ (stage_file-Moves limit root sub_path content token) λ staged.
      Moves-catch 0 0 0 0 _ _ (commit-Moves root staged.0 staged.1) λ e.
        Moves-bind 0 0 0 0 _ _
          (Moves-catch 0 0 0 0 _ _ (discard-Moves root staged.0 staged.1) ignore_os_error-Moves)
          λ _. storage_limits-Moves e

delete_file-Moves : (root : ℕ) (sub_path : Text) → Moves 0 0 0 (delete_file root sub_path)
unfolding delete_file
delete_file-Moves root sub_path = Moves-bind 0 0 0 0 _ _ (normalised-Moves 0 sub_path) λ path.
    with_parent-Moves 0 root path false _ λ parent_fd name.
      Moves-bind 1 1 1 1 _ _ (stat_at-Moves 1 parent_fd name) λ mode.
        Moves-bind 1 1 1 1 _ _ (not_a_directory-Moves mode) λ _. unlink_at-Moves 1 parent_fd name

-- Every file operation of a session, the listing included, leaves as many descriptors open as it found,
-- whether it returns or raises, and whichever of its calls fail, the making of a file object of a
-- descriptor included; only a `read_file` that returns leaves one more, which its payload owns. An
-- `os.close` itself is taken to close the descriptor and not to raise.
pub operations_close :
    (attributes : Attributes) (limit root : ℕ) (sub_path path name : Text) (content : Content)
    (token : Text) (w : World)
    → (After 1 0 w.open_fds (read_file root sub_path w))
      × (After 0 0 w.open_fds (stage_file limit root sub_path content token w))
      × (After 0 0 w.open_fds (commit_staged_file root path name w))
      × (After 0 0 w.open_fds (discard_staged_file root path name w))
      × (After 0 0 w.open_fds (write_file limit root sub_path content token w))
      × (After 0 0 w.open_fds (delete_file root sub_path w))
      × (After 0 0 w.open_fds (list_directory attributes root sub_path w))
operations_close attributes limit root sub_path path name content token w = (
  (read_file-Moves root sub_path).at w w.open_fds (omega arith),
  (stage_file-Moves limit root sub_path content token).at w w.open_fds (omega arith),
  (commit-Moves root path name).at w w.open_fds (omega arith),
  (discard-Moves root path name).at w w.open_fds (omega arith),
  (write_file-Moves limit root sub_path content token).at w w.open_fds (omega arith),
  (delete_file-Moves root sub_path).at w w.open_fds (omega arith),
  (list_directory-Moves attributes root sub_path).at w w.open_fds (omega arith),
)
