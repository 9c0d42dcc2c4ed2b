-- ===== src/FileSystem/Touches.antt =====
-- The calls that change the file system: how each may end, and what it spares.
use code_executor_api.Prelude.{
  ℕ, ◌==◌, Text, ◌≡◌, refl, sym, subst, ◌∙◌, false, Option, none, some, List, [], ◌++◌, ok,
}
use code_executor_api.FileSystem.{
  Bytes, Node, regular, directory, symlink, special, Fs, World, entries_of, child, kind_at, without,
  set_node,
}
use code_executor_api.FileSystem.Calls.{
  open_root, open_directory_at, create_file_at, mkdir_at, write_to, replace_at, unlink_at,
  new_directory, appended, unlinked,
}
use code_executor_api.FileSystem.Resolve.{IsFresh, IsNoDirectory, child-IsDirectory}
use code_executor_api.FileSystem.Effects.{Holds, created, found, moved}
use code_executor_api.FileSystem.Outcomes.{Ends, syscall-Ends, open_call-Ends}
use code_executor_api.FileSystem.Spares.{
  Spares, Every, add_child-Spares, set_node-Spares, relinked-Spares, unlinked-Spares,
}

module _ (E : Fs → Type 0) where
  pub create_file_at-Ends :
      (Q : ℕ → Fs → Type 0) (fd : ℕ) (name : Text) (w : World)
      → IsFresh w.fs
      → E w.fs
      → ((fs : Fs) → child w.fs fd name ≡ none → Spares Every w.fs fs → Q w.fs.next fs)
      → Ends E Q (create_file_at fd name w)
  unfolding create_file_at
  create_file_at-Ends Q fd name w f e q = open_call-Ends E Q _ w e (λ i fs h.
      let ((es, k), o, n, same) =
        created fd i name (regular []) w.fs fs (w.fs.node fd) (child w.fs fd name) h in
      subst (λ x. Q x fs) n
        (q fs o
          (subst (Spares Every w.fs) same (add_child-Spares w.fs fd name (regular []) es f k o))))

  pub mkdir_at-Ends :
      (Q : ℕ → Fs → Type 0) (fd : ℕ) (name : Text) (w : World)
      → IsFresh w.fs
      → E w.fs
      → ((i : ℕ) (fs : Fs) → Spares Every w.fs fs → Q i fs)
      → Ends E Q (mkdir_at fd name w)
  unfolding mkdir_at
  mkdir_at-Ends Q fd name w f e q = syscall-Ends E Q _ w e (λ i fs h.
      let ((es, k), o, n, same) =
        created fd i name (new_directory w.fs fd) w.fs fs (w.fs.node fd) (child w.fs fd name) h in
      q i fs (
        subst (Spares Every w.fs) same
          (add_child-Spares w.fs fd name (new_directory w.fs fd) es f k o)))

  pub write_to-Ends :
      (Q : Unit {0} → Fs → Type 0) (m : ℕ) (bytes : Bytes) (w : World)
      → IsFresh w.fs
      → E w.fs
      → ((fs : Fs) → Spares (λ k name i. (m == i) ≡ false) w.fs fs → Q tt fs)
      → Ends E Q (write_to m bytes w)
  unfolding write_to
  write_to-Ends Q m bytes w f e q =
      syscall-Ends E Q _ w e (λ u fs h. written (w.fs.node m) fs refl h)
    where
      written :
          (k : Option Node) (fs : Fs)
          → w.fs.node m ≡ k
          → appended m bytes w.fs k ≡ ok (tt, fs)
          → Q tt fs
      written (some (regular b)) fs d h =
          let same : set_node w.fs m (regular (b ++ bytes)) ≡ fs = cc in
          q fs (
            subst (Spares (λ k name i. (m == i) ≡ false) w.fs) same
              (set_node-Spares w.fs m b (b ++ bytes) f d))
      written (some (directory es)) fs d h = cc
      written (some (symlink t)) fs d h = cc
      written (some (special s)) fs d h = cc
      written none fs d h = cc

  pub unlink_at-Ends :
      (Q : Unit {0} → Fs → Type 0) (fd : ℕ) (name : Text) (w : World)
      → IsFresh w.fs
      → E w.fs
      → ((fs : Fs) → Spares (λ k nm i. (fd ≡ k) → (name ≡ nm) → ⊥) w.fs fs → Q tt fs)
      → Ends E Q (unlink_at fd name w)
  unfolding unlink_at child
  unlink_at-Ends Q fd name w f e q =
      syscall-Ends E Q _ w e
        (λ u fs h. taken (child w.fs fd name) (kind_at w.fs (child w.fs fd name)) fs refl refl h)
    where
      after : Fs
      after = set_node w.fs fd (directory (without name (entries_of (w.fs.node fd))))

      removed :
          (i : ℕ) (k : Option Node) (fs : Fs)
          → child w.fs fd name ≡ some i
          → kind_at w.fs (child w.fs fd name) ≡ k
          → ((es : List (Text × ℕ)) → k ≡ some (directory es) → ⊥)
          → after ≡ fs
          → Q tt fs
      removed i k fs c d no_dir same =
          let (es, top) = child-IsDirectory w.fs fd i name c in
          let no_name : IsNoDirectory w.fs fd name = λ j (p, (es', r)).
            no_dir es' (sym d ∙ subst (λ o. kind_at w.fs o ≡ some (directory es')) (sym p) r) in
          q fs (
            subst (Spares (λ k nm i. (fd ≡ k) → (name ≡ nm) → ⊥) w.fs) same
              (unlinked-Spares w.fs fd name es f top no_name))

      taken :
          (o : Option ℕ) (k : Option Node) (fs : Fs)
          → child w.fs fd name ≡ o
          → kind_at w.fs (child w.fs fd name) ≡ k
          → unlinked fd name w.fs o k ≡ ok (tt, fs)
          → Q tt fs
      taken none k fs c d h = cc
      taken (some i) (some (directory es)) fs c d h = cc
      taken (some i) (some (regular b)) fs c d h =
          removed i (some (regular b)) fs c d (λ es p. cc) cc
      taken (some i) (some (symlink t)) fs c d h =
          removed i (some (symlink t)) fs c d (λ es p. cc) cc
      taken (some i) (some (special s)) fs c d h =
          removed i (some (special s)) fs c d (λ es p. cc) cc
      taken (some i) none fs c d h = removed i none fs c d (λ es p. cc) cc

  -- A file that is renamed.
  pub replace_at-Ends :
      (Q : Unit {0} → Fs → Type 0) (fd m : ℕ) (old new : Text) (b : Bytes) (w : World)
      → IsFresh w.fs
      → Holds w.fs fd old m b
      → E w.fs
      → ((fs : Fs)
          → Spares (λ k nm i. (fd ≡ k) → ((old ≡ nm) → ⊥) × ((new ≡ nm) → ⊥)) w.fs fs
          → Q tt fs)
      → Ends E Q (replace_at fd old new w)
  unfolding replace_at child
  replace_at-Ends Q fd m old new b w f (c, r) e q = syscall-Ends E Q _ w e (λ u fs h.
      let (es, d) = child-IsDirectory w.fs fd m old c in
      let (same, target) =
        moved fd m old new w.fs fs b (kind_at w.fs (child w.fs fd old))
          (kind_at w.fs (child w.fs fd new)) (child w.fs fd old) u c
          (subst (λ o. kind_at w.fs o ≡ some (regular b)) (sym c) r) h in
      let no_old : IsNoDirectory w.fs fd old = λ j (p, (es', q)). let here : j ≡ m = cc in cc in
      let no_new : IsNoDirectory w.fs fd new = λ j (p, (es', q)).
        target es' (subst (λ o. kind_at w.fs o ≡ some (directory es')) (sym p) q) in
      q fs (
        subst (Spares (λ k nm i. (fd ≡ k) → ((old ≡ nm) → ⊥) × ((new ≡ nm) → ⊥)) w.fs) same
          (relinked-Spares w.fs fd m old new es f d no_old no_new)))

  -- A call that opens a directory changes nothing.
  pub open_directory_at-Ends :
      (fd : ℕ) (name : Text) (w : World) → E w.fs → Ends E (λ i. E) (open_directory_at fd name w)
  unfolding open_directory_at child
  open_directory_at-Ends fd name w e =
      open_call-Ends E (λ i. E) _ w e
        (λ i fs h.
          let (c, same, d) =
            found (child w.fs fd name) (kind_at w.fs (child w.fs fd name)) w.fs fs i h in
          subst E same e)

  pub open_root-Ends : (root : ℕ) (w : World) → E w.fs → Ends E (λ i. E) (open_root root w)
  unfolding open_root
  open_root-Ends root w e =
      open_call-Ends E (λ i. E) _ w e
        (λ i fs h.
          let (c, same, d) = found (some root) (w.fs.node root) w.fs fs i h in subst E same e)
