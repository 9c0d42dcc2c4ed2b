-- ===== src/FileSystem.antt =====
-- The file system as the program sees it through the `os` module: inodes, directory descriptors, and
-- the calls that `sessions.py` and `file_helpers.py` make. A descriptor is the inode that it was
-- opened on. Any call may fail by itself: the list of faults says how the next ones do.
pub mod Calls
pub mod Descriptors
pub mod Returns
pub mod Resolve
pub mod Growth
pub mod Effects
pub mod Calm
pub mod Tame
pub mod Outcomes
pub mod Spares
pub mod Touches
use code_executor_api.Prelude.{
  ℕ, suc, ◌+◌, ◌-◌, Text, text_eq, Bool, true, false, Option, none, some, List, [], ◌∷◌, ◌++◌, ◌==◌,
  if◌then◌else◌, Result, ok, err, ◌&&◌, not, reverse,
}
use code_executor_api.Path.{dot, dotdot, PathError}

pub data Errno : Type 0 where
  enoent eloop enotdir eisdir eexist enxio enodev enospc edquot : Errno
  -- any other, such as EMFILE or EACCES
  other_errno : Errno

-- Text of a `SessionResourceLimitReached`.
pub data Limit : Type 0 where
  file_size_limit storage_limit : Limit

-- What a file operation raises. `FileNotFoundError`, `IsADirectoryError` and `NotADirectoryError`
-- are `os_error enoent`, `os_error eisdir` and `os_error enotdir`.
pub data Exception : Type 0 where
  os_error : Errno → Exception
  validation_error : PathError → Exception
  entity_too_large : Exception
  resource_limit : Limit → Exception
  -- the request's body cannot be read further
  aborted : Exception
  -- `asyncio.CancelledError`
  cancelled : Exception

abbrev pub Bytes : Type 0
Bytes = List ℕ

-- A socket cannot be opened, nor can a device with no driver behind it.
pub data Special : Type 0 where
  fifo socket device dead_device : Special

-- The entries of a directory include `.` and `..`.
pub data Node : Type 0 where
  regular : Bytes → Node
  directory : List (Text × ℕ) → Node
  symlink : Text → Node
  special : Special → Node

pub record Fs : Type 0 where
  pub node : ℕ → Option Node
  pub next : ℕ

pub record World : Type 0 where
  pub fs : Fs
  pub open fs use *
  pub faults : List (Option Errno)
  pub open_fds : ℕ

abbrev pub Exec {ℓ} : Type ℓ → Type ℓ
Exec A = World → Result Exception A × World

abbrev pub pure {ℓ} : {A : Type ℓ} → A → Exec A
pure a w = (ok a, w)

abbrev pub raise {ℓ} : {A : Type ℓ} → Exception → Exec A
raise e w = (err e, w)

abbrev pub lift {ℓ} : {A : Type ℓ} → Result Exception A → Exec A
lift r w = (r, w)

abbrev pub continue {ℓ κ} :
    {A : Type ℓ} {B : Type κ}
    → Result Exception A
    → (A → Exec B)
    → World
    → Result Exception B × World
continue (ok a) f w = f a w
continue (err e) f w = (err e, w)

infixl 5 ◌>>=◌ ◌>>◌
abbrev pub ◌>>=◌ {ℓ κ} : {A : Type ℓ} {B : Type κ} → Exec A → (A → Exec B) → Exec B
◌>>=◌ m f w = let (r, w') = m w in continue r f w'

abbrev pub ◌>>◌ {ℓ κ} : {A : Type ℓ} {B : Type κ} → Exec A → Exec B → Exec B
m >> n = m >>= λ _. n

abbrev pub handle {ℓ} :
    {A : Type ℓ} → Result Exception A → (Exception → Exec A) → World → Result Exception A × World
handle (ok a) h w = (ok a, w)
handle (err e) h w = h e w

-- `try: m except: h`
abbrev pub catch {ℓ} : {A : Type ℓ} → Exec A → (Exception → Exec A) → Exec A
catch m h w = let (r, w') = m w in handle r h w'

-- `try: m finally: c`, where `c` does not raise
abbrev pub finally {ℓ} : {A : Type ℓ} → Exec A → (World → World) → Exec A
finally m c w = let (r, w') = m w in (r, c w')

-- `except BaseException: c; raise`, where `c` does not raise
abbrev pub on_error {ℓ} : {A : Type ℓ} → Exec A → (World → World) → Exec A
on_error m c = catch m (λ e w. (err e, c w))

-- A call of the kernel: the next fault, if it is one, and else what the call does.
abbrev pub perform {ℓ} : {A : Type ℓ} → Result Errno (A × Fs) → World → Result Exception A × World
perform (ok (a, fs)) w = (ok a, record w { fs = fs })
perform (err e) w = (err (os_error e), w)

abbrev pub interrupted {ℓ} :
    {A : Type ℓ}
    → List (Option Errno)
    → (Fs → Result Errno (A × Fs))
    → World
    → Result Exception A × World
interrupted [] call w = perform (call w.fs) w
interrupted (none ∷ faults) call w = perform (call w.fs) (record w { faults = faults })
interrupted (some e ∷ faults) call w = (err (os_error e), record w { faults = faults })

unfoldable pub syscall {ℓ} : {A : Type ℓ} → (Fs → Result Errno (A × Fs)) → Exec A
syscall call w = interrupted w.faults call w

abbrev pub opened : Result Exception ℕ × World → Result Exception ℕ × World
opened (ok fd, w) = (ok fd, record w { open_fds = suc w.open_fds })
opened (err e, w) = (err e, w)

-- A call that opens a descriptor.
unfoldable pub open_call : (Fs → Result Errno (ℕ × Fs)) → Exec ℕ
unfolding syscall
open_call call w = opened (syscall call w)

-- `os.close(fd)`, which on Linux gives the descriptor up also where it reports an error; that report, an
-- `OSError`, is left out.
abbrev pub close : World → World
close w = record w { open_fds = w.open_fds - 1 }

unfoldable pub entry : Text → List (Text × ℕ) → Option ℕ
entry name [] = none
entry name ((n, i) ∷ es) = if text_eq n name then some i else entry name es

unfoldable pub without : Text → List (Text × ℕ) → List (Text × ℕ)
without name [] = []
without name ((n, i) ∷ es) =
    let rest = without name es in if text_eq n name then rest else (n, i) ∷ rest

abbrev pub entries_of : Option Node → List (Text × ℕ)
entries_of (some (directory es)) = es
entries_of _ = []

-- The inode that a name stands for in the directory `fd`.
unfoldable pub child : Fs → ℕ → Text → Option ℕ
unfolding entry
child fs fd name = entry name (entries_of (fs.node fd))

abbrev pub kind_at : Fs → Option ℕ → Option Node
kind_at fs none = none
kind_at fs (some i) = fs.node i

abbrev pub update {ℓ} : {A : Type ℓ} → (ℕ → A) → ℕ → A → ℕ → A
update f i a j = if i == j then a else f j

abbrev pub set_node : Fs → ℕ → Node → Fs
set_node fs i n = record fs { node = update fs.node i (some n) }

-- A new inode, entered in the directory `fd`.
unfoldable pub add_child : Fs → ℕ → Text → Node → Fs
add_child fs fd name n = record {
  node =
      update (update fs.node fd (some (directory ((name, fs.next) ∷ entries_of (fs.node fd)))))
        fs.next (some n);
  next = suc fs.next;
}
