-- ===== src/FileSystem/Calm.antt =====
-- A file system in which no call fails by itself: what the calls return.
use code_executor_api.Prelude.{
  ℕ, suc, Text, ◌≡◌, refl, Option, none, some, List, [], ◌++◌, ok, err, Option-cases, inl, inr,
}
use code_executor_api.FileSystem.{
  eexist, os_error, Bytes, Node, regular, directory, symlink, special, Fs, World, child, kind_at,
  add_child, set_node, syscall, open_call,
}
use code_executor_api.FileSystem.Calls.{
  open_root, open_directory_at, open_file_at, fstat, mkdir_at, create_file_at, write_to, replace_at,
  replaced, relinked,
}
use code_executor_api.FileSystem.Resolve.{
  IsDirectory, IsFile, IsNoDirectory, Enters, child-IsDirectory,
}
use code_executor_api.FileSystem.Effects.{Holds}

abbrev pub calm : Fs → ℕ → World
calm fs n = record { fs = fs; faults = []; open_fds = n }

pub open_root-calm :
    (fs : Fs) (n root : ℕ)
    → IsDirectory fs root
    → open_root root (calm fs n) ≡ (ok root, calm fs (suc n))
unfolding open_root open_call
open_root-calm fs n root (es, d) = rw d refl

pub open_directory_at-calm :
    (fs : Fs) (n fd i : ℕ) (name : Text)
    → Enters fs fd name i
    → open_directory_at fd name (calm fs n) ≡ (ok i, calm fs (suc n))
unfolding open_directory_at open_call
open_directory_at-calm fs n fd i name (c, (es, d)) = rw (c, d) refl

pub open_file_at-calm :
    (fs : Fs) (n fd i : ℕ) (name : Text) (b : Bytes)
    → Holds fs fd name i b
    → open_file_at fd name (calm fs n) ≡ (ok i, calm fs (suc n))
unfolding open_file_at open_call
open_file_at-calm fs n fd i name b (c, r) = rw (c, r) refl

pub fstat-calm :
    (fs : Fs) (n i : ℕ) (b : Bytes)
    → IsFile fs i b
    → fstat i (calm fs n) ≡ (ok (regular b), calm fs n)
unfolding fstat syscall
fstat-calm fs n i b r = rw r refl

pub mkdir_at-calm :
    (fs : Fs) (n fd i : ℕ) (name : Text)
    → Enters fs fd name i
    → mkdir_at fd name (calm fs n) ≡ (err (os_error eexist), calm fs n)
unfolding mkdir_at syscall
mkdir_at-calm fs n fd i name (c, k) =
    let (es, d) = child-IsDirectory fs fd i name c in rw (c, d) refl

pub create_file_at-calm :
    (fs : Fs) (n fd : ℕ) (name : Text)
    → IsDirectory fs fd
    → child fs fd name ≡ none
    → create_file_at fd name (calm fs n)
      ≡ (ok fs.next, calm (add_child fs fd name (regular [])) (suc n))
unfolding create_file_at open_call syscall
create_file_at-calm fs n fd name (es, d) c = rw (c, d) refl

pub write_to-calm :
    (fs : Fs) (n i : ℕ) (b chunk : Bytes)
    → IsFile fs i b
    → write_to i chunk (calm fs n) ≡ (ok tt, calm (set_node fs i (regular (b ++ chunk))) n)
unfolding write_to syscall
write_to-calm fs n i b chunk r = rw r refl

replaced-ok :
    (fd i : ℕ) (old new : Text) (fs : Fs) (b : Bytes) (k : Option Node)
    → ((es : List (Text × ℕ)) → k ≡ some (directory es) → ⊥)
    → replaced fd old new fs (some i) (some (regular b)) k ≡ ok (tt, relinked fd old new i fs)
replaced-ok fd i old new fs b none t = refl
replaced-ok fd i old new fs b (some (regular c)) t = refl
replaced-ok fd i old new fs b (some (symlink l)) t = refl
replaced-ok fd i old new fs b (some (special s)) t = refl
replaced-ok fd i old new fs b (some (directory es)) t = absurd (t es refl)

-- The kind of node that a name stands for, if it is no directory's.
kind-IsNoDirectory :
    (fs : Fs) (fd : ℕ) (name : Text)
    → IsNoDirectory fs fd name
    → (es : List (Text × ℕ)) → kind_at fs (child fs fd name) ≡ some (directory es)
    → ⊥
kind-IsNoDirectory fs fd name t es h = elim (Option-cases (child fs fd name)) [
  | inl e ↦ let p = rw e at h in cc
  | inr (j, e) ↦ t j (e, (es, rw e at h))
]

pub replace_at-calm :
    (fs : Fs) (n fd i : ℕ) (old new : Text) (b : Bytes)
    → Holds fs fd old i b
    → IsNoDirectory fs fd new
    → replace_at fd old new (calm fs n) ≡ (ok tt, calm (relinked fd old new i fs) n)
unfolding replace_at syscall
replace_at-calm fs n fd i old new b (c, r) t =
    let p =
      replaced-ok fd i old new fs b (kind_at fs (child fs fd new))
        (kind-IsNoDirectory fs fd new t) in
    rw (c, r, p) refl
