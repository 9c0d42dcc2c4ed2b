-- ===== src/Session/Closes.antt =====
-- The file operations close every descriptor that they open, on every path, faults included.
use code_executor_api.Prelude.{
  ℕ, suc, Text, Bool, true, false, List, [], ◌∷◌, arith, split, Result, ok, err, strip, Bool-cases,
  inl, inr,
}
use code_executor_api.Path.{slash, is_slash, is_empty, normalize_sub_path}
use code_executor_api.FileSystem.{
  eloop, enotdir, eexist, Exception, os_error, Exec, close, World, Node,
}
use code_executor_api.FileSystem.Calls.{open_root, open_directory_at, mkdir_at, listdir, stat_at}
use code_executor_api.FileSystem.Descriptors.{
  After, Moves-lift, Moves, Moves-pure, Moves-raise, Moves-syscall, Moves-open, Moves-finally-close,
  Moves-on_error-close, Moves-bind, Moves-catch,
}
use code_executor_api.Session.Listing.{
  Attributes, Entry, entry_of, skip_failed, list_names, sort_entries, list_open, as_not_a_directory,
  list_directory,
}
use code_executor_api.Session.{
  checked, ignore_exists, as_not_found, open_next, descend, init, last, with_parent,
}

open_directory_at-Moves : (a fd : ℕ) (name : Text) → Moves a (suc a) a (open_directory_at fd name)
unfolding open_directory_at
open_directory_at-Moves a fd name = Moves-open a _

mkdir_at-Moves : (a fd : ℕ) (name : Text) → Moves a a a (mkdir_at fd name)
unfolding mkdir_at
mkdir_at-Moves a fd name = Moves-syscall a _

ignore_exists-Moves : (a : ℕ) (x : Exception) → Moves a a a (ignore_exists x)
ignore_exists-Moves a (os_error eexist) = Moves-pure a a 0
ignore_exists-Moves a (os_error _) = Moves-raise a a _
ignore_exists-Moves a _ = Moves-raise a a _

as_not_found-Moves : (a b : ℕ) (x : Exception) → Moves a b a (as_not_found x)
as_not_found-Moves a b (os_error eloop) = Moves-raise a b _
as_not_found-Moves a b (os_error enotdir) = Moves-raise a b _
as_not_found-Moves a b (os_error _) = Moves-raise a b _
as_not_found-Moves a b _ = Moves-raise a b _

open_next-Moves :
    (a fd : ℕ) (part : Text) (create_dir : Bool) → Moves a (suc a) a (open_next fd part create_dir)
unfolding open_next
open_next-Moves a fd part false =
    Moves-catch a (suc a) a a _ _ (open_directory_at-Moves a fd part) (as_not_found-Moves a (suc a))
open_next-Moves a fd part true =
    Moves-bind a a (suc a) a _ _
      (Moves-catch a a a a _ _ (mkdir_at-Moves a fd part) (ignore_exists-Moves a))
      λ _.
        Moves-catch a (suc a) a a _ _ (open_directory_at-Moves a fd part)
          (as_not_found-Moves a (suc a))

-- Closing the descriptor held before the rest of the walk.
close-Moves :
    (a : ℕ) (m : Exec ℕ)
    → Moves (suc a) (suc a) a m
    → Moves (suc (suc a)) (suc a) a (λ w. m (close w))
close-Moves a m k = record { at = λ w n h. k.at (close w) n (omega arith) }

descend-Moves :
    (a fd : ℕ) (parts : List Text) (create_dir : Bool)
    → Moves (suc a) (suc a) a (descend fd parts create_dir)
unfolding descend
descend-Moves a fd [] create_dir = Moves-pure (suc a) a fd
descend-Moves a fd (part ∷ parts) create_dir =
    Moves-bind (suc a) (suc (suc a)) (suc a) a _ _
      (Moves-on_error-close (suc a) (suc (suc a)) a _ (open_next-Moves (suc a) fd part create_dir))
      λ next_fd. close-Moves a _ (descend-Moves a next_fd parts create_dir)

open_root-Moves : (root : ℕ) → Moves 0 1 0 (open_root root)
unfolding open_root
open_root-Moves root = Moves-open 0 _

pub with_parent-Moves {ℓ} :
    {A : Type ℓ} (b root : ℕ) (path : Text) (create_dir : Bool) (body : ℕ → Text → Exec A)
    → ((fd : ℕ) (name : Text) → Moves 1 (suc b) 1 (body fd name))
    → Moves 0 b 0 (with_parent root path create_dir body)
unfolding with_parent
with_parent-Moves b root path create_dir body k =
    Moves-bind 0 1 b 0 _ _ (open_root-Moves root) λ fd.
      Moves-bind 1 1 b 0 _ _ (descend-Moves 0 fd (init (split slash path)) create_dir)
        λ parent_fd. Moves-finally-close 1 b 0 _ (k parent_fd (last (split slash path)))

listdir-Moves : (a fd : ℕ) → Moves a a a (listdir fd)
unfolding listdir
listdir-Moves a fd = Moves-syscall a _

skip_failed-Moves :
    (attributes : Attributes) (a : ℕ) (name : Text) (found : List Entry) (r : Result Exception Node)
    → Moves a a a (skip_failed attributes name found r)
skip_failed-Moves attributes a name found (ok n) =
    Moves-pure a a (entry_of attributes name n ∷ found)
skip_failed-Moves attributes a name found (err (os_error e)) = Moves-pure a a found
skip_failed-Moves attributes a name found (err _) = Moves-raise a a _

-- What an action that fails has opened is told by the value that it fails with.
reified-Moves {ℓ} :
    {A : Type ℓ} (a : ℕ) (m : Exec A)
    → Moves a a a m
    → Moves {A = Result Exception A} a a a (λ w. (ok (m w).0, (m w).1))
reified-Moves {A} a m k = record { at = λ w n h. from n (m w) (k.at w n h) }
  where
    from : (n : ℕ) (x : Result Exception A × World) → After a a n x → After a a n (ok x.0, x.1)
    from n (ok b, w) p = p
    from n (err e, w) p = p

list_names-Moves :
    (attributes : Attributes) (a fd : ℕ) (names : List (Text × ℕ))
    → Moves a a a (list_names attributes fd names)
unfolding list_names stat_at
list_names-Moves attributes a fd [] = Moves-pure a a []
list_names-Moves attributes a fd ((name, i) ∷ names) =
    Moves-bind a a a a _ _ (reified-Moves a _ (Moves-syscall a _)) λ r.
      Moves-bind a a a a _ _ (list_names-Moves attributes a fd names)
        λ found. skip_failed-Moves attributes a name found r

list_open-Moves :
    (attributes : Attributes) (path : Text) (fd : ℕ) → Moves 1 0 0 (list_open attributes path fd)
unfolding list_open
list_open-Moves attributes path fd =
    Moves-bind 1 0 0 0 _ _
      (Moves-finally-close 1 0 0 _
        (Moves-bind 1 1 1 1 _ _ (listdir-Moves 1 fd) (list_names-Moves attributes 1 fd)))
      λ entries. Moves-pure 0 0 (path, sort_entries entries)

as_not_a_directory-Moves : (x : Exception) → Moves 1 2 1 (as_not_a_directory x)
as_not_a_directory-Moves (os_error eloop) = Moves-raise 1 2 _
as_not_a_directory-Moves (os_error _) = Moves-raise 1 2 _
as_not_a_directory-Moves _ = Moves-raise 1 2 _

pub list_directory-Moves :
    (attributes : Attributes) (root : ℕ) (sub_path : Text)
    → Moves 0 0 0 (list_directory attributes root sub_path)
unfolding list_directory
list_directory-Moves attributes root sub_path =
    elim (Bool-cases (is_empty (strip is_slash sub_path))) [
      | inl e ↦ rw e (Moves-bind 0 1 0 0 _ _ (open_root-Moves root) (list_open-Moves attributes []))
      | inr e ↦ rw e (
          Moves-bind 0 0 0 0 _ _ (Moves-lift 0 (checked (normalize_sub_path sub_path))) λ path.
            Moves-bind 0 1 0 0 _ _
              (with_parent-Moves 1 root path false _ λ parent_fd name.
                Moves-catch 1 2 1 1 _ _ (open_directory_at-Moves 1 parent_fd name)
                  as_not_a_directory-Moves)
              (list_open-Moves attributes path))
    ]
