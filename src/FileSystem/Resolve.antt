-- ===== src/FileSystem/Resolve.antt =====
-- What paths lead to in a file system.
use code_executor_api.Prelude.{
  ℕ, ◌≤◌, ◌==◌, Text, ◌≡◌, refl, sym, subst, ◌∙◌, false, Option, none, some, List, [], ◌∷◌, arith,
}
use code_executor_api.FileSystem.{
  Bytes, Node, regular, directory, symlink, special, Fs, entry, entries_of, child,
}

-- No inode is in use at or past the next.
abbrev pub IsFresh : Fs → Type 0
IsFresh fs = (i : ℕ) → fs.next ≤ i → fs.node i ≡ none

abbrev pub IsDirectory : Fs → ℕ → Type 0
IsDirectory fs i = (es : List (Text × ℕ)) × (fs.node i ≡ some (directory es))

abbrev pub IsFile : Fs → ℕ → Bytes → Type 0
IsFile fs i b = fs.node i ≡ some (regular b)

-- `name` is a directory `j` in the directory `i`.
abbrev pub Enters : Fs → ℕ → Text → ℕ → Type 0
Enters fs i name j = (child fs i name ≡ some j) × IsDirectory fs j

abbrev pub Resolves : Fs → ℕ → List Text → ℕ → Type 0
Resolves fs i [] d = i ≡ d
Resolves fs i (p ∷ ps) d = (j : ℕ) × Enters fs i p j × Resolves fs j ps d

-- A name that is not a directory's.
abbrev pub IsNoDirectory : Fs → ℕ → Text → Type 0
IsNoDirectory fs fd name = (j : ℕ) → Enters fs fd name j → ⊥

-- The new state is fresh, and directories are found where they were.
pub record Grows (fs fs' : Fs) : Type 0 where
  pub is_fresh : IsFresh fs'
  pub keeps : (i j : ℕ) (name : Text) → Enters fs i name j → Enters fs' i name j

pub Grows-refl : (fs : Fs) → IsFresh fs → Grows fs fs
Grows-refl fs f = record { is_fresh = f; keeps = λ i j name e. e }

pub Grows-trans : (fs fs' fs'' : Fs) → Grows fs fs' → Grows fs' fs'' → Grows fs fs''
Grows-trans fs fs' fs'' g h = record {
  is_fresh = h.is_fresh;
  keeps = λ i j name e. h.keeps i j name (g.keeps i j name e);
}

pub Resolves-Grows :
    (fs fs' : Fs) (i d : ℕ) (ps : List Text)
    → Grows fs fs'
    → Resolves fs i ps d
    → Resolves fs' i ps d
Resolves-Grows fs fs' i d [] g r = r
Resolves-Grows fs fs' i d (p ∷ ps) g (j, e, r) =
    (j, g.keeps i j p e, Resolves-Grows fs fs' j d ps g r)

-- A path leads to one directory.
pub Resolves-unique :
    (fs : Fs) (i d d' : ℕ) (ps : List Text) → Resolves fs i ps d → Resolves fs i ps d' → d ≡ d'
Resolves-unique fs i d d' [] r s = sym r ∙ s
Resolves-unique fs i d d' (p ∷ ps) (j, e, r) (k, f, s) =
    let same : j ≡ k = cc in
    Resolves-unique fs j d d' ps r (subst (λ x. Resolves fs x ps d') (sym same) s)

-- An inode in use is not the next one.
pub fresh-apart :
    (fs : Fs) (i : ℕ) (n : Node) → IsFresh fs → fs.node i ≡ some n → (fs.next == i) ≡ false
fresh-apart fs i n f h = let q = f i in ground arith

pub child-IsDirectory :
    (fs : Fs) (i j : ℕ) (name : Text) → child fs i name ≡ some j → IsDirectory fs i
unfolding child entry
child-IsDirectory fs i j name h = from (fs.node i) refl h
  where
    from : (o : Option Node) → fs.node i ≡ o → entry name (entries_of o) ≡ some j → IsDirectory fs i
    from none e p = cc
    from (some (regular b)) e p = cc
    from (some (symlink t)) e p = cc
    from (some (special s)) e p = cc
    from (some (directory es)) e p = (es, e)
