-- ===== src/FileSystem/Growth.antt =====
-- The changes that keep every directory where it is, and what is found under a new name.
use code_executor_api.Prelude.{
  ℕ, ◌==◌, ==_iff, Text, text_eq, text_eq_iff, text_eq_refl, ◌≡◌, refl, sym, subst, ap, true, false,
  Option, none, some, List, [], ◌∷◌, if◌then◌else◌, arith, Bool-cases, inl, inr,
}
use code_executor_api.FileSystem.{
  Bytes, Node, regular, directory, Fs, entry, without, entries_of, child, set_node, add_child,
}
use code_executor_api.FileSystem.Calls.{relinked}
use code_executor_api.FileSystem.Resolve.{
  IsFresh, IsFile, Enters, IsNoDirectory, Grows, fresh-apart, child-IsDirectory,
}

pub entry-add :
    (es : List (Text × ℕ)) (name nm : Text) (j next : ℕ)
    → entry name es ≡ none
    → entry nm es ≡ some j
    → entry nm ((name, next) ∷ es) ≡ some j
unfolding entry
entry-add es name nm j next c e = elim (Bool-cases (text_eq name nm)) [
  | inl t ↦ let same = (text_eq_iff name nm).0 t in cc
  | inr t ↦ rw t e
]

pub add_child-Grows :
    (fs : Fs) (fd : ℕ) (name : Text) (n : Node) (es : List (Text × ℕ))
    → IsFresh fs
    → fs.node fd ≡ some (directory es)
    → child fs fd name ≡ none
    → Grows fs (add_child fs fd name n)
unfolding add_child child
add_child-Grows fs fd name n es f d c = record {
  is_fresh = λ i l. let q = f i in let r = f fd in ground arith;
  keeps = λ i j nm (e, (es', k)).
      let (es0, k0) = child-IsDirectory fs i j nm e in
      (
        rw (fresh-apart fs i (directory es0) f k0) (elim (Bool-cases (fd == i)) [
          | inl t ↦ rw t (
              let same = (==_iff fd i).0 t in
              entry-add (entries_of (fs.node fd)) name nm j fs.next c
                (subst (λ x. child fs x nm ≡ some j) (sym same) e))
          | inr t ↦ rw t e
        ]),
        rw (fresh-apart fs j (directory es') f k) (elim (Bool-cases (fd == j)) [
          | inl t ↦ rw t (((name, fs.next) ∷ entries_of (fs.node fd)), refl)
          | inr t ↦ rw t (es', k)
        ]),
      );
}

pub ==_refl : (i : ℕ) → (i == i) ≡ true
==_refl i = ground arith

pub set_node-IsFile : (fs : Fs) (i : ℕ) (b : Bytes) → IsFile (set_node fs i (regular b)) i b
set_node-IsFile fs i b = rw (==_refl i) refl

pub file-apart :
    (fs : Fs) (i k : ℕ) (b : Bytes) (es : List (Text × ℕ))
    → IsFile fs i b
    → fs.node k ≡ some (directory es)
    → (i == k) ≡ false
file-apart fs i k b es f d = elim (Bool-cases (i == k)) [
  | inl t ↦ let same = (==_iff i k).0 t in cc
  | inr t ↦ t
]

-- The new inode is found under its name.
pub add_child-Finds :
    (fs : Fs) (fd : ℕ) (name : Text) (n : Node) (es : List (Text × ℕ))
    → IsFresh fs
    → fs.node fd ≡ some (directory es)
    → (child (add_child fs fd name n) fd name ≡ some fs.next)
      × ((add_child fs fd name n).node fs.next ≡ some n)
unfolding add_child child entry
add_child-Finds fs fd name n es f d = (
  rw (fresh-apart fs fd (directory es) f d, ==_refl fd) (rw (text_eq_refl name) refl),
  rw (==_refl fs.next) refl,
)

-- What a write to an open file changes.
pub set_node-Grows :
    (fs : Fs) (i : ℕ) (b c : Bytes)
    → IsFresh fs
    → IsFile fs i b
    → Grows fs (set_node fs i (regular c))
unfolding child entry
set_node-Grows fs i b c f d = record {
  is_fresh = λ k l. let q = f k in let r = f i in ground arith;
  keeps = λ k j nm (e, (es', r)).
      let (es0, r0) = child-IsDirectory fs k j nm e in
      (rw (file-apart fs i k b es0 d r0) e, rw (file-apart fs i j b es' d r) (es', r));
}

pub entry-without :
    (es : List (Text × ℕ)) (name nm : Text)
    → text_eq name nm ≡ false
    → entry nm (without name es) ≡ entry nm es
unfolding entry without
entry-without [] name nm h = refl
entry-without ((m, i) ∷ es) name nm h =
    let rest = entry-without es name nm h in
    elim (Bool-cases (text_eq m name)) [
      | inl t ↦
          let same : m ≡ name = (text_eq_iff m name).0 t in
          rw (t, subst (λ x. text_eq x nm ≡ false) (sym same) h) rest
      | inr t ↦ rw t (ap (λ (o : Option ℕ). if text_eq m nm then some i else o) rest)
    ]

entry-relinked :
    (fs : Fs) (fd i j : ℕ) (old new nm : Text)
    → IsNoDirectory fs fd old
    → IsNoDirectory fs fd new
    → Enters fs fd nm j
    → entry nm ((new, i) ∷ without new (without old (entries_of (fs.node fd)))) ≡ some j
unfolding child entry
entry-relinked fs fd i j old new nm ho hn h =
    let es = entries_of (fs.node fd) in
    elim (Bool-cases (text_eq new nm)) [
      | inl t ↦ absurd (hn j (subst (λ x. Enters fs fd x j) (sym ((text_eq_iff new nm).0 t)) h))
      | inr t ↦
          rw (t, entry-without (without old es) new nm t)
            (elim (Bool-cases (text_eq old nm)) [
              | inl u ↦
                  absurd (ho j (subst (λ x. Enters fs fd x j) (sym ((text_eq_iff old nm).0 u)) h))
              | inr u ↦ rw (entry-without es old nm u) h.0
            ])
    ]

pub relinked-Grows :
    (fs : Fs) (fd i : ℕ) (old new : Text) (es : List (Text × ℕ))
    → IsFresh fs
    → fs.node fd ≡ some (directory es)
    → IsNoDirectory fs fd old
    → IsNoDirectory fs fd new
    → Grows fs (relinked fd old new i fs)
unfolding child
relinked-Grows fs fd i old new es f d ho hn = record {
  is_fresh = λ k l. let q = f k in let r = f fd in ground arith;
  keeps = λ k j nm (e, (es', r)). (
    elim (Bool-cases (fd == k)) [
      | inl t ↦ rw t (
          let same : fd ≡ k = (==_iff fd k).0 t in
          entry-relinked fs fd i j old new nm ho hn
            (subst (λ x. Enters fs x nm j) (sym same) (e, (es', r))))
      | inr t ↦ rw t e
    ],
    elim (Bool-cases (fd == j)) [
      | inl t ↦ rw t (((new, i) ∷ without new (without old (entries_of (fs.node fd)))), refl)
      | inr t ↦ rw t (es', r)
    ],
  );
}

-- The file that is moved is found under its new name.
pub relinked-Finds :
    (fs : Fs) (fd i : ℕ) (old new : Text) (b : Bytes) (es : List (Text × ℕ))
    → fs.node fd ≡ some (directory es)
    → IsFile fs i b
    → (child (relinked fd old new i fs) fd new ≡ some i) × IsFile (relinked fd old new i fs) i b
unfolding child entry
relinked-Finds fs fd i old new b es d h = (
  rw (==_refl fd) (rw (text_eq_refl new) refl),
  elim (Bool-cases (fd == i)) [ inl t ↦ let same = (==_iff fd i).0 t in cc | inr t ↦ rw t h ],
)
