-- ===== src/FileSystem/Spares.antt =====
-- The files that a change leaves as they are.
use code_executor_api.Prelude.{
  ℕ, ◌==◌, ==_iff, Text, text_eq, text_eq_iff, ◌≡◌, refl, sym, subst, ◌∙◌, false, Bool-cases, inl,
  inr, none, some, List, ◌∷◌, arith,
}
use code_executor_api.FileSystem.{
  Bytes, Node, regular, directory, Fs, entry, without, entries_of, child, add_child, set_node,
}
use code_executor_api.FileSystem.Calls.{relinked}
use code_executor_api.FileSystem.Resolve.{
  IsFresh, IsFile, IsNoDirectory, Grows, Grows-refl, fresh-apart, child-IsDirectory,
}
use code_executor_api.FileSystem.Growth.{
  file-apart, entry-add, entry-without, add_child-Grows, set_node-Grows, relinked-Grows,
}
use code_executor_api.FileSystem.Effects.{Holds}

-- Directories stay where they are, and so do the files that `Other` picks by directory, name and
-- inode, with what they hold.
pub record Spares (Other : ℕ → Text → ℕ → Type 0) (fs fs' : Fs) : Type 0 where
  pub grows : Grows fs fs'
  pub files :
      (k i : ℕ) (name : Text) (b : Bytes)
      → Other k name i
      → Holds fs k name i b
      → Holds fs' k name i b

abbrev pub Every : ℕ → Text → ℕ → Type 0
Every k name i = Unit

pub Spares-same : (fs fs' : Fs) → fs ≡ fs' → IsFresh fs → Spares Every fs fs'
Spares-same fs fs' s f =
    subst (Spares Every fs) s (record { grows = Grows-refl fs f; files = λ k i name b o h. h })

-- A file in use is not the next inode.
pub held-apart :
    (fs : Fs) (k i : ℕ) (name : Text) (b : Bytes)
    → IsFresh fs
    → Holds fs k name i b
    → ((fs.next == i) ≡ false) × ((fs.next == k) ≡ false)
held-apart fs k i name b f (c, r) =
    let (es, d) = child-IsDirectory fs k i name c in
    (fresh-apart fs i (regular b) f r, fresh-apart fs k (directory es) f d)

pub add_child-Spares :
    (fs : Fs) (fd : ℕ) (name : Text) (n : Node) (es : List (Text × ℕ))
    → IsFresh fs
    → fs.node fd ≡ some (directory es)
    → child fs fd name ≡ none
    → Spares Every fs (add_child fs fd name n)
unfolding add_child child
add_child-Spares fs fd name n es f d c = record {
  grows = add_child-Grows fs fd name n es f d c;
  files = λ k i nm b o h.
      let (ai, ak) = held-apart fs k i nm b f h in
      (
        rw ak (elim (Bool-cases (fd == k)) [
          | inl t ↦ rw t (
              let same = (==_iff fd k).0 t in
              entry-add (entries_of (fs.node fd)) name nm i fs.next c
                (subst (λ x. child fs x nm ≡ some i) (sym same) h.0))
          | inr t ↦ rw t h.0
        ]),
        rw ai (elim (Bool-cases (fd == i)) [
          | inl t ↦ let same = (==_iff fd i).0 t in let r = h.1 in absurd cc
          | inr t ↦ rw t h.1
        ]),
      );
}

-- A write changes the file that it writes to.
pub set_node-Spares :
    (fs : Fs) (m : ℕ) (b c : Bytes)
    → IsFresh fs
    → IsFile fs m b
    → Spares (λ k name i. (m == i) ≡ false) fs (set_node fs m (regular c))
unfolding child
set_node-Spares fs m b c f d = record {
  grows = set_node-Grows fs m b c f d;
  files = λ k i nm b' o h.
      let (es, r) = child-IsDirectory fs k i nm h.0 in
      (rw (file-apart fs m k b es d r) h.0, rw o h.1);
}

-- A name that is none of those taken out or put in.
different : (a b : Text) → ((a ≡ b) → ⊥) → text_eq a b ≡ false
different a b h = elim (Bool-cases (text_eq a b)) [
  | inl t ↦ absurd (h ((text_eq_iff a b).0 t))
  | inr t ↦ t
]

-- A directory whose entry of a name is the same in its new entries.
set_directory-file :
    (fs : Fs) (fd k i : ℕ) (nm : Text) (b : Bytes) (es es' : List (Text × ℕ))
    → fs.node fd ≡ some (directory es)
    → ((fd ≡ k) → entry nm es' ≡ entry nm es)
    → Holds fs k nm i b
    → Holds (set_node fs fd (directory es')) k nm i b
unfolding child
set_directory-file fs fd k i nm b es es' d same (c, r) = (
  elim (Bool-cases (fd == k)) [
    | inl t ↦
        let at_fd : fd ≡ k = (==_iff fd k).0 t in
        rw t (same at_fd ∙ here (subst (λ x. fs.node x ≡ some (directory es)) at_fd d) c)
    | inr t ↦ rw t c
  ],
  elim (Bool-cases (fd == i)) [
    | inl t ↦ let at_fd = (==_iff fd i).0 t in absurd cc
    | inr t ↦ rw t r
  ],
)
  where
    here :
        fs.node k ≡ some (directory es)
        → entry nm (entries_of (fs.node k)) ≡ some i
        → entry nm es ≡ some i
    here p q = rw p at q

-- A rename touches its two names.
pub relinked-Spares :
    (fs : Fs) (fd m : ℕ) (old new : Text) (es : List (Text × ℕ))
    → IsFresh fs
    → fs.node fd ≡ some (directory es)
    → IsNoDirectory fs fd old
    → IsNoDirectory fs fd new
    → Spares
        (λ k nm i. (fd ≡ k) → ((old ≡ nm) → ⊥) × ((new ≡ nm) → ⊥))
        fs
        (relinked fd old new m fs)
unfolding entry
relinked-Spares fs fd m old new es f d ho hn = record {
  grows = relinked-Grows fs fd m old new es f d ho hn;
  files = λ k i nm b o h.
      set_directory-file fs fd k i nm b es
        ((new, m) ∷ without new (without old (entries_of (fs.node fd)))) d
        (λ same.
          let (no_old, no_new) = o same in
          let e = different new nm no_new in
          rw (d, e)
            (entry-without (without old es) new nm e
              ∙ entry-without es old nm (different old nm no_old)))
        h;
}

pub unlinked-Grows :
    (fs : Fs) (fd : ℕ) (name : Text) (es : List (Text × ℕ))
    → IsFresh fs
    → fs.node fd ≡ some (directory es)
    → IsNoDirectory fs fd name
    → Grows fs (set_node fs fd (directory (without name (entries_of (fs.node fd)))))
unfolding child
unlinked-Grows fs fd name es f d h = record {
  is_fresh = λ k l. let q = f k in let r = f fd in ground arith;
  keeps = λ k j nm (e, (es', r)). (
    elim (Bool-cases (fd == k)) [
      | inl t ↦ rw t (
          let here = subst (λ x. child fs x nm ≡ some j) (sym ((==_iff fd k).0 t)) e in
          entry-without (entries_of (fs.node fd)) name nm (
            different name nm
              (λ same. h j (subst (λ x. child fs fd x ≡ some j) (sym same) here, (es', r))))
          ∙ here)
      | inr t ↦ rw t e
    ],
    elim (Bool-cases (fd == j)) [
      | inl t ↦ rw t (without name (entries_of (fs.node fd)), refl)
      | inr t ↦ rw t (es', r)
    ],
  );
}

-- A name that is taken away is the only one touched.
pub unlinked-Spares :
    (fs : Fs) (fd : ℕ) (name : Text) (es : List (Text × ℕ))
    → IsFresh fs
    → fs.node fd ≡ some (directory es)
    → IsNoDirectory fs fd name
    → Spares
        (λ k nm i. (fd ≡ k) → (name ≡ nm) → ⊥)
        fs
        (set_node fs fd (directory (without name (entries_of (fs.node fd)))))
unlinked-Spares fs fd name es f d h = record {
  grows = unlinked-Grows fs fd name es f d h;
  files = λ k i nm b o held.
      set_directory-file fs fd k i nm b es (without name (entries_of (fs.node fd))) d
        (λ same. rw d (entry-without es name nm (different name nm (o same)))) held;
}
