-- ===== src/Session/Deletes.antt =====
-- `Session.delete_file` and then `Session.read_file`, where no call fails.
use code_executor_api.Prelude.{
  ℕ, suc, Text, text_eq, split, ◌≡◌, refl, false, Bool-cases, inl, inr, none, List, [], ◌∷◌, ok,
  err,
}
use code_executor_api.Path.{slash, normalize_sub_path}
use code_executor_api.FileSystem.{
  enoent, os_error, Bytes, Fs, child, entry, without, entries_of, regular, directory, set_node,
  syscall, open_call,
}
use code_executor_api.FileSystem.Calls.{stat_at, unlink_at, open_file_at}
use code_executor_api.FileSystem.Resolve.{
  IsFresh, IsDirectory, IsNoDirectory, Resolves, Resolves-Grows, Grows, child-IsDirectory,
}
use code_executor_api.FileSystem.Growth.{==_refl}
use code_executor_api.FileSystem.Effects.{Holds}
use code_executor_api.FileSystem.Spares.{unlinked-Grows}
use code_executor_api.FileSystem.Calm.{calm, open_root-calm}
use code_executor_api.Session.{init, last, with_parent, read_file, delete_file}
use code_executor_api.Session.Walks.{descend-calm, less_one}
use code_executor_api.Session.RoundTrip.{Serves, resolved-IsDirectory}

-- The directory without the name.
abbrev pub gone : Fs → ℕ → Text → Fs
gone fs d name = set_node fs d (directory (without name (entries_of (fs.node d))))

entry-without_self : (es : List (Text × ℕ)) (name : Text) → entry name (without name es) ≡ none
unfolding entry without
entry-without_self [] name = refl
entry-without_self ((m, i) ∷ es) name = elim (Bool-cases (text_eq m name)) [
  | inl t ↦ rw t (entry-without_self es name)
  | inr t ↦ rw (t, t) (entry-without_self es name)
]

child-gone : (fs : Fs) (d : ℕ) (name : Text) → child (gone fs d name) d name ≡ none
unfolding child
child-gone fs d name = rw (==_refl d) (entry-without_self (entries_of (fs.node d)) name)

gone-Grows :
    (fs : Fs) (d i : ℕ) (name : Text) (c : Bytes)
    → IsFresh fs
    → Holds fs d name i c
    → Grows fs (gone fs d name)
gone-Grows fs d i name c f (k, r) =
    let (es, dir) = child-IsDirectory fs d i name k in
    let no_name : IsNoDirectory fs d name = λ j (e, (es', q)). let same : j ≡ i = cc in cc in
    unlinked-Grows fs d name es f dir no_name

unlink_at-calm :
    (fs : Fs) (n d i : ℕ) (name : Text) (c : Bytes)
    → Holds fs d name i c
    → unlink_at d name (calm fs n) ≡ (ok tt, calm (gone fs d name) n)
unfolding unlink_at syscall
unlink_at-calm fs n d i name c (k, r) = rw (k, r) refl

stat_at-calm :
    (fs : Fs) (n d i : ℕ) (name : Text) (c : Bytes)
    → Holds fs d name i c
    → stat_at d name (calm fs n) ≡ (ok (regular c), calm fs n)
unfolding stat_at syscall
stat_at-calm fs n d i name c (k, r) = rw (k, r) refl

delete_file-calm :
    (fs : Fs) (n root d i : ℕ) (sub_path path : Text) (c : Bytes)
    → normalize_sub_path sub_path ≡ ok path
    → Resolves fs root (init (split slash path)) d
    → Holds fs d (last (split slash path)) i c
    → delete_file root sub_path (calm fs n) ≡ (ok tt, calm (gone fs d (last (split slash path))) n)
unfolding delete_file with_parent
delete_file-calm fs n root d i sub_path path c e r k =
    let name : Text = last (split slash path) in
    let top = resolved-IsDirectory fs root d _ r (child-IsDirectory fs d i name k.0) in
    rw
      (
        e,
        open_root-calm fs n root top,
        descend-calm fs n root d (init (split slash path)) false r,
        stat_at-calm fs (suc n) d i name c k,
        unlink_at-calm fs (suc n) d i name c k,
        less_one n,
      )
      refl

open_file_at-missing :
    (fs : Fs) (n d : ℕ) (name : Text)
    → child fs d name ≡ none
    → open_file_at d name (calm fs n) ≡ (err (os_error enoent), calm fs n)
unfolding open_file_at open_call syscall
open_file_at-missing fs n d name h = rw h refl

-- A name that is not there is not found.
pub read_file-missing :
    (fs : Fs) (n root d : ℕ) (sub_path path : Text)
    → normalize_sub_path sub_path ≡ ok path
    → Resolves fs root (init (split slash path)) d
    → IsDirectory fs d
    → child fs d (last (split slash path)) ≡ none
    → read_file root sub_path (calm fs n) ≡ (err (os_error enoent), calm fs n)
unfolding read_file with_parent
read_file-missing fs n root d sub_path path e r dir h =
    let top = resolved-IsDirectory fs root d _ r dir in
    rw
      (
        e,
        open_root-calm fs n root top,
        descend-calm fs n root d (init (split slash path)) false r,
        open_file_at-missing fs (suc n) d (last (split slash path)) h,
        less_one n,
      )
      refl

-- A file that is served can be deleted, and is not found after.
pub delete_file-read_file :
    (fs : Fs) (root : ℕ) (sub_path path : Text) (c : Bytes)
    → IsFresh fs
    → normalize_sub_path sub_path ≡ ok path
    → Serves fs root path (last (split slash path)) c
    → (fs' : Fs) × ((n : ℕ) → delete_file root sub_path (calm fs n) ≡ (ok tt, calm fs' n))
      × ((m : ℕ) → read_file root sub_path (calm fs' m) ≡ (err (os_error enoent), calm fs' m))
delete_file-read_file fs root sub_path path c f e (d, i, r, k) =
    let name : Text = last (split slash path) in
    let fs' : Fs = gone fs d name in
    let g = gone-Grows fs d i name c f k in
    (
      fs',
      λ n. delete_file-calm fs n root d i sub_path path c e r k,
      λ m.
          read_file-missing fs' m root d sub_path path e
            (Resolves-Grows fs fs' root d (init (split slash path)) g r)
            (without name (entries_of (fs.node d)), rw (==_refl d) refl) (child-gone fs d name),
    )
