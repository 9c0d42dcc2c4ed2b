-- ===== src/FileSystem/Calls.antt =====
-- The calls of the `os` module, with the flags that the program gives them. Every path is one
-- component relative to a descriptor; `O_NOFOLLOW` refuses a symlink.
use code_executor_api.Prelude.{ℕ, Text, Option, none, some, List, [], ◌∷◌, ◌++◌, Result, ok, err}
use code_executor_api.Path.{dot, dotdot}
use code_executor_api.FileSystem.{
  Errno, enoent, eloop, enotdir, eisdir, eexist, enxio, enodev, other_errno, socket, dead_device,
  Node, regular, directory, symlink, special, Fs, Exec, Bytes, syscall, open_call, child, kind_at,
  entries_of, set_node, add_child, without,
}

abbrev pub open_as_directory : Option ℕ → Option Node → Fs → Result Errno (ℕ × Fs)
open_as_directory (some i) (some (directory es)) fs = ok (i, fs)
open_as_directory (some i) (some (symlink t)) fs = err eloop
open_as_directory (some i) (some _) fs = err enotdir
open_as_directory _ _ fs = err enoent

-- `os.open(self.work_directory, O_RDONLY | O_DIRECTORY | O_NOFOLLOW | O_CLOEXEC)`
unfoldable pub open_root : ℕ → Exec ℕ
open_root root = open_call (λ fs. open_as_directory (some root) (fs.node root) fs)

-- `os.open(name, O_RDONLY | O_DIRECTORY | O_NOFOLLOW | O_CLOEXEC, dir_fd=fd)`
unfoldable pub open_directory_at : ℕ → Text → Exec ℕ
unfolding child
open_directory_at fd name =
    open_call (λ fs. open_as_directory (child fs fd name) (kind_at fs (child fs fd name)) fs)

abbrev pub open_as_file : Option ℕ → Option Node → Fs → Result Errno (ℕ × Fs)
open_as_file (some i) (some (symlink t)) fs = err eloop
open_as_file (some i) (some (special socket)) fs = err enxio
open_as_file (some i) (some (special dead_device)) fs = err enodev
open_as_file (some i) (some _) fs = ok (i, fs)
open_as_file _ _ fs = err enoent

-- `os.open(name, O_RDONLY | O_NONBLOCK | O_NOFOLLOW | O_CLOEXEC, dir_fd=fd)`
unfoldable pub open_file_at : ℕ → Text → Exec ℕ
unfolding child
open_file_at fd name =
    open_call (λ fs. open_as_file (child fs fd name) (kind_at fs (child fs fd name)) fs)

-- `os.open(name, O_WRONLY | O_CREAT | O_EXCL | O_NOFOLLOW | O_CLOEXEC, 0o600, dir_fd=fd)`
abbrev pub create_new : ℕ → Text → Node → Fs → Option Node → Option ℕ → Result Errno (ℕ × Fs)
create_new fd name n fs (some (directory es)) none = ok (fs.next, add_child fs fd name n)
create_new fd name n fs (some (directory es)) (some i) = err eexist
create_new fd name n fs _ _ = err enoent

unfoldable pub create_file_at : ℕ → Text → Exec ℕ
unfolding child
create_file_at fd name =
    open_call (λ fs. create_new fd name (regular []) fs (fs.node fd) (child fs fd name))

-- A new directory has its own two entries.
abbrev pub new_directory : Fs → ℕ → Node
new_directory fs fd = directory ((dot, fs.next) ∷ (dotdot, fd) ∷ [])

-- `os.mkdir(name, 0o700, dir_fd=fd)`
unfoldable pub mkdir_at : ℕ → Text → Exec ℕ
unfolding child
mkdir_at fd name =
    syscall (λ fs. create_new fd name (new_directory fs fd) fs (fs.node fd) (child fs fd name))

abbrev pub appended : ℕ → Bytes → Fs → Option Node → Result Errno (Unit {0} × Fs)
appended fd chunk fs (some (regular content)) = ok (tt, set_node fs fd (regular (content ++ chunk)))
appended fd chunk fs _ = err other_errno

-- A write to a file that was opened for writing.
unfoldable pub write_to : ℕ → Bytes → Exec (Unit {0})
write_to fd chunk = syscall (λ fs. appended fd chunk fs (fs.node fd))

-- `os.fstat(fd).st_mode`
abbrev pub mode_of : Fs → Option Node → Result Errno (Node × Fs)
mode_of fs (some n) = ok (n, fs)
mode_of fs none = err enoent

unfoldable pub fstat : ℕ → Exec Node
fstat fd = syscall (λ fs. mode_of fs (fs.node fd))

-- `os.stat(name, dir_fd=fd, follow_symlinks=False).st_mode`
unfoldable pub stat_at : ℕ → Text → Exec Node
unfolding child
stat_at fd name = syscall (λ fs. mode_of fs (kind_at fs (child fs fd name)))

abbrev pub relinked : ℕ → Text → Text → ℕ → Fs → Fs
relinked fd old new i fs =
    set_node fs fd (directory ((new, i) ∷ without new (without old (entries_of (fs.node fd)))))

-- A directory replaces nothing here: the source is always a file that was staged.
abbrev pub replaced :
    ℕ → Text → Text → Fs → Option ℕ → Option Node → Option Node → Result Errno (Unit {0} × Fs)
replaced fd old new fs none source target = err enoent
replaced fd old new fs (some i) (some (directory es)) target = err other_errno
replaced fd old new fs (some i) source (some (directory es)) = err eisdir
replaced fd old new fs (some i) source target = ok (tt, relinked fd old new i fs)

-- `os.replace(old, new, src_dir_fd=fd, dst_dir_fd=fd)`
unfoldable pub replace_at : ℕ → Text → Text → Exec (Unit {0})
unfolding child
replace_at fd old new = syscall (λ fs.
    replaced fd old new fs (child fs fd old) (kind_at fs (child fs fd old))
      (kind_at fs (child fs fd new)))

abbrev pub unlinked : ℕ → Text → Fs → Option ℕ → Option Node → Result Errno (Unit {0} × Fs)
unlinked fd name fs none kind = err enoent
unlinked fd name fs (some i) (some (directory es)) = err eisdir
unlinked fd name fs (some i) kind =
    ok (tt, set_node fs fd (directory (without name (entries_of (fs.node fd)))))

-- `os.unlink(name, dir_fd=fd)`
unfoldable pub unlink_at : ℕ → Text → Exec (Unit {0})
unfolding child
unlink_at fd name =
    syscall (λ fs. unlinked fd name fs (child fs fd name) (kind_at fs (child fs fd name)))

abbrev named : List (Text × ℕ) → List (Text × ℕ)
named es = without dot (without dotdot es)

-- `os.listdir(fd)`, which leaves `.` and `..` out; each name with its inode.
unfoldable pub listdir : ℕ → Exec (List (Text × ℕ))
listdir fd = syscall (λ fs. ok (named (entries_of (fs.node fd)), fs))
