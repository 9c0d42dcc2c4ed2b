-- ===== src/FileSystem/Effects.antt =====
-- What the calls that return have found, and what they have changed.
use code_executor_api.Prelude.{
  ℕ, Text, ◌≡◌, refl, sym, subst, Option, none, some, List, [], ◌++◌, ok, err,
}
use code_executor_api.FileSystem.{
  Exception, Bytes, Node, regular, directory, symlink, special, Fs, World, child, kind_at, set_node,
  add_child,
}
use code_executor_api.FileSystem.Calls.{
  open_root, open_directory_at, create_file_at, mkdir_at, write_to, replace_at, open_as_directory,
  create_new, new_directory, appended, relinked, replaced,
}
use code_executor_api.FileSystem.Returns.{syscall_ok, syscall_err, open_call_ok}
use code_executor_api.FileSystem.Resolve.{
  child-IsDirectory, IsFresh, IsDirectory, IsFile, IsNoDirectory, Enters, Grows,
}
use code_executor_api.FileSystem.Growth.{
  ==_refl, file-apart, add_child-Grows, add_child-Finds, set_node-Grows, relinked-Grows,
  relinked-Finds,
}

pub found :
    (o : Option ℕ) (k : Option Node) (fs fs' : Fs) (fd : ℕ)
    → open_as_directory o k fs ≡ ok (fd, fs')
    → (o ≡ some fd) × (fs ≡ fs') × ((es : List (Text × ℕ)) × (k ≡ some (directory es)))
found (some i) (some (directory es)) fs fs' fd h = (cc, cc, (es, refl))
found (some i) (some (symlink t)) fs fs' fd h = cc
found (some i) (some (regular b)) fs fs' fd h = cc
found (some i) (some (special s)) fs fs' fd h = cc
found (some i) none fs fs' fd h = cc
found none k fs fs' fd h = cc

pub open_root_ok :
    (root fd : ℕ) (w w1 : World)
    → open_root root w ≡ (ok fd, w1)
    → (root ≡ fd) × (w.fs ≡ w1.fs) × IsDirectory w.fs root
unfolding open_root
open_root_ok root fd w w1 h =
    let (e, same, es) =
      found (some root) (w.fs.node root) w.fs w1.fs fd (open_call_ok _ w w1 fd h) in
    (cc, same, es)

pub open_directory_at_ok :
    (fd i : ℕ) (name : Text) (w w1 : World)
    → open_directory_at fd name w ≡ (ok i, w1)
    → (w.fs ≡ w1.fs) × Enters w.fs fd name i
unfolding open_directory_at child
open_directory_at_ok fd i name w w1 h =
    let (e, same, (es, k)) =
      found (child w.fs fd name) (kind_at w.fs (child w.fs fd name)) w.fs w1.fs i
        (open_call_ok _ w w1 i h) in
    (same, (e, (es, subst (λ o. kind_at w.fs o ≡ some (directory es)) e k)))

-- A call that creates an entry does so in a directory that has none of the name.
pub created :
    (fd i : ℕ) (name : Text) (n : Node) (fs fs' : Fs) (k : Option Node) (o : Option ℕ)
    → create_new fd name n fs k o ≡ ok (i, fs')
    → ((es : List (Text × ℕ)) × (k ≡ some (directory es)))
      × (o ≡ none)
      × (fs.next ≡ i)
      × (add_child fs fd name n ≡ fs')
created fd i name n fs fs' (some (directory es)) none h = ((es, refl), refl, cc, cc)
created fd i name n fs fs' (some (directory es)) (some j) h = cc
created fd i name n fs fs' (some (regular b)) o h = cc
created fd i name n fs fs' (some (symlink t)) o h = cc
created fd i name n fs fs' (some (special s)) o h = cc
created fd i name n fs fs' none o h = cc

pub mkdir_at_ok :
    (fd i : ℕ) (name : Text) (w w1 : World)
    → IsFresh w.fs
    → mkdir_at fd name w ≡ (ok i, w1)
    → Grows w.fs w1.fs
unfolding mkdir_at child
mkdir_at_ok fd i name w w1 f h =
    let ((es, k), o, n, same) =
      created fd i name (new_directory w.fs fd) w.fs w1.fs (w.fs.node fd) (child w.fs fd name)
        (syscall_ok _ w w1 i h) in
    subst (λ x. Grows w.fs x) same (add_child-Grows w.fs fd name (new_directory w.fs fd) es f k o)

pub mkdir_at_err :
    (fd : ℕ) (name : Text) (w w1 : World) (e : Exception)
    → mkdir_at fd name w ≡ (err e, w1)
    → w.fs ≡ w1.fs
unfolding mkdir_at
mkdir_at_err fd name w w1 e h = syscall_err _ w w1 e h

-- `name` is the file `i` in the directory `fd`, with this content.
abbrev pub Holds : Fs → ℕ → Text → ℕ → Bytes → Type 0
Holds fs fd name i b = (child fs fd name ≡ some i) × IsFile fs i b

pub create_file_at_ok :
    (fd i : ℕ) (name : Text) (w w1 : World)
    → IsFresh w.fs
    → create_file_at fd name w ≡ (ok i, w1)
    → Grows w.fs w1.fs × Holds w1.fs fd name i []
unfolding create_file_at child
create_file_at_ok fd i name w w1 f h =
    let ((es, k), o, n, same) =
      created fd i name (regular []) w.fs w1.fs (w.fs.node fd) (child w.fs fd name)
        (open_call_ok _ w w1 i h) in
    let (c, r) = add_child-Finds w.fs fd name (regular []) es f k in
    (
      subst (λ x. Grows w.fs x) same (add_child-Grows w.fs fd name (regular []) es f k o),
      subst (λ x. Holds x fd name i []) same
          (subst (λ j. Holds (add_child w.fs fd name (regular [])) fd name j []) n (c, r)),
    )

written :
    (fd : ℕ) (chunk : Bytes) (fs fs' : Fs) (b : Bytes) (k : Option Node) (u : Unit {0})
    → k ≡ some (regular b)
    → appended fd chunk fs k ≡ ok (u, fs')
    → set_node fs fd (regular (b ++ chunk)) ≡ fs'
written fd chunk fs fs' b (some (regular c)) u e h =
    let same : c ≡ b = cc in subst (λ x. set_node fs fd (regular (x ++ chunk)) ≡ fs') same cc
written fd chunk fs fs' b (some (directory es)) u e h = cc
written fd chunk fs fs' b (some (symlink t)) u e h = cc
written fd chunk fs fs' b (some (special s)) u e h = cc
written fd chunk fs fs' b none u e h = cc

pub write_to_ok :
    (fd i : ℕ) (name : Text) (b chunk : Bytes) (w w1 : World) (u : Unit {0})
    → IsFresh w.fs
    → Holds w.fs fd name i b
    → write_to i chunk w ≡ (ok u, w1)
    → Grows w.fs w1.fs × Holds w1.fs fd name i (b ++ chunk)
unfolding write_to child
write_to_ok fd i name b chunk w w1 u f (c, r) h =
    let same = written i chunk w.fs w1.fs b (w.fs.node i) u r (syscall_ok _ w w1 u h) in
    let (es, d) = child-IsDirectory w.fs fd i name c in
    subst (λ x. Grows w.fs x × Holds x fd name i (b ++ chunk)) same
      (
        set_node-Grows w.fs i b (b ++ chunk) f r,
        (rw (file-apart w.fs i fd b es r d) c, rw (==_refl i) refl),
      )

pub moved :
    (fd i : ℕ) (old new : Text) (fs fs' : Fs) (b : Bytes) (k t : Option Node) (o : Option ℕ)
    (u : Unit {0})
    → o ≡ some i
    → k ≡ some (regular b)
    → replaced fd old new fs o k t ≡ ok (u, fs')
    → (relinked fd old new i fs ≡ fs') × ((es : List (Text × ℕ)) → t ≡ some (directory es) → ⊥)
moved fd i old new fs fs' b k t none u e r h = cc
moved fd i old new fs fs' b (some (regular c)) (some (directory es)) (some j) u e r h = cc
moved fd i old new fs fs' b (some (regular c)) none (some j) u e r h =
    let same : j ≡ i = cc in (subst (λ x. relinked fd old new x fs ≡ fs') same cc, λ es q. cc)
moved fd i old new fs fs' b (some (regular c)) (some (regular d)) (some j) u e r h =
    let same : j ≡ i = cc in (subst (λ x. relinked fd old new x fs ≡ fs') same cc, λ es q. cc)
moved fd i old new fs fs' b (some (regular c)) (some (symlink d)) (some j) u e r h =
    let same : j ≡ i = cc in (subst (λ x. relinked fd old new x fs ≡ fs') same cc, λ es q. cc)
moved fd i old new fs fs' b (some (regular c)) (some (special d)) (some j) u e r h =
    let same : j ≡ i = cc in (subst (λ x. relinked fd old new x fs ≡ fs') same cc, λ es q. cc)
moved fd i old new fs fs' b (some (directory es)) t (some j) u e r h = cc
moved fd i old new fs fs' b (some (symlink s)) t (some j) u e r h = cc
moved fd i old new fs fs' b (some (special s)) t (some j) u e r h = cc
moved fd i old new fs fs' b none t (some j) u e r h = cc

pub replace_at_ok :
    (fd i : ℕ) (old new : Text) (b : Bytes) (w w1 : World) (u : Unit {0})
    → IsFresh w.fs
    → Holds w.fs fd old i b
    → replace_at fd old new w ≡ (ok u, w1)
    → Grows w.fs w1.fs × Holds w1.fs fd new i b
unfolding replace_at child
replace_at_ok fd i old new b w w1 u f (c, r) h =
    let (es, d) = child-IsDirectory w.fs fd i old c in
    let (same, target) =
      moved fd i old new w.fs w1.fs b (kind_at w.fs (child w.fs fd old))
        (kind_at w.fs (child w.fs fd new)) (child w.fs fd old) u c
        (subst (λ o. kind_at w.fs o ≡ some (regular b)) (sym c) r) (syscall_ok _ w w1 u h) in
    let no_old : IsNoDirectory w.fs fd old = λ j (e, (es', q)). let here : j ≡ i = cc in cc in
    let no_new : IsNoDirectory w.fs fd new = λ j (e, (es', q)).
      target es' (subst (λ o. kind_at w.fs o ≡ some (directory es')) (sym e) q) in
    subst (λ x. Grows w.fs x × Holds x fd new i b) same
      (
        relinked-Grows w.fs fd i old new es f d no_old no_new,
        relinked-Finds w.fs fd i old new b es d r,
      )
