-- ===== src/Session/Entries.antt =====
-- The entries of a directory, as `Session.list_directory` gathers and sorts them.
use code_executor_api.Prelude.{
  ℕ, Text, text_eq, text_eq_iff, ◌≡◌, refl, sym, subst, ap, ◌∙◌, Bool, true, false, not, ◌&&◌, ◌||◌,
  Bool-cases, Option-cases, inl, inr, Option, none, some, List, [], ◌∷◌, All, ok, arith,
}
use code_executor_api.Prelude.Order.{has, sorted, place, text_leb, has-sorted}
use code_executor_api.Path.{dot, dotdot}
use code_executor_api.FileSystem.{
  Node, directory, regular, symlink, special, Fs, child, entry, without, kind_at, syscall,
}
use code_executor_api.FileSystem.Calls.{stat_at}
use code_executor_api.FileSystem.Calm.{calm}
use code_executor_api.Session.Listing.{
  EntryType, file_type, directory_type, symlink_type, other_type, entry_type, Attributes, Entry,
  entry_of, list_names, place_entry, sort_entries,
}

-- The type of each kind of thing.
abbrev pub HasType : Node → EntryType → Type 0
HasType (regular content) k = k ≡ file_type
HasType (directory es) k = k ≡ directory_type
HasType (symlink t) k = k ≡ symlink_type
HasType (special s) k = k ≡ other_type

-- The entry has the name's own type, size and time.
abbrev pub Describes : Attributes → Fs → ℕ → Entry → Type 0
Describes attributes fs d e =
    (n : Node) × (kind_at fs (child fs d e.name) ≡ some n)
    × HasType n e.kind
    × ((e.size, e.modified_at) ≡ attributes e.name n)

-- What a name stands for, as an entry of the listing.
abbrev pub described : Attributes → Text → Option Node → Option Entry
described attributes name none = none
described attributes name (some n) = some (entry_of attributes name n)

abbrev pub describe : Attributes → Fs → ℕ → Text → Option Entry
describe attributes fs d name = described attributes name (kind_at fs (child fs d name))

abbrev pub is_some {ℓ} : {A : Type ℓ} → Option A → Bool
is_some none = false
is_some (some a) = true

abbrev also {ℓ} : {A : Type ℓ} → Option A → List A → List A
also none l = l
also (some a) l = a ∷ l

unfoldable pub gathered : Attributes → Fs → ℕ → List (Text × ℕ) → List Entry
gathered attributes fs d [] = []
gathered attributes fs d ((name, i) ∷ names) =
    also (describe attributes fs d name) (gathered attributes fs d names)

pub list_names-calm :
    (attributes : Attributes) (fs : Fs) (n d : ℕ) (names : List (Text × ℕ))
    → list_names attributes d names (calm fs n) ≡ (ok (gathered attributes fs d names), calm fs n)
unfolding list_names gathered stat_at syscall
list_names-calm attributes fs n d [] = refl
list_names-calm attributes fs n d ((name, i) ∷ names) =
    elim (Option-cases (kind_at fs (child fs d name))) [
      | inl e ↦ rw (e, list_names-calm attributes fs n d names) refl
      | inr (k, e) ↦ rw (e, list_names-calm attributes fs n d names) refl
    ]

abbrev pub names_of : List Entry → List Text
names_of [] = []
names_of (e ∷ es) = e.name ∷ names_of es

names-place :
    (e : Entry) (es : List Entry) → names_of (place_entry e es) ≡ place e.name (names_of es)
unfolding place_entry place
names-place e [] = refl
names-place e (f ∷ es) = elim (Bool-cases (text_leb e.name f.name)) [
  | inl t ↦ rw t refl
  | inr t ↦ rw t (ap (λ l. f.name ∷ l) (names-place e es))
]

pub names-sort : (es : List Entry) → names_of (sort_entries es) ≡ sorted (names_of es)
unfolding sort_entries sorted
names-sort [] = refl
names-sort (e ∷ es) = names-place e (sort_entries es) ∙ ap (place e.name) (names-sort es)

-- A directory's entries have the name.
unfoldable listed : Text → List (Text × ℕ) → Bool
listed p [] = false
listed p ((name, i) ∷ names) = text_eq name p || listed p names

listed-without :
    (p name : Text) (es : List (Text × ℕ))
    → listed p (without name es) ≡ (not (text_eq name p) && listed p es)
unfolding listed without
listed-without p name [] = ground arith
listed-without p name ((m, i) ∷ es) =
    let rest = listed-without p name es in
    elim (Bool-cases (text_eq m name)) [
      | inl t ↦
          let same : m ≡ name = (text_eq_iff m name).0 t in
          rw t (
            rest
            ∙ subst
                (λ x.
                  (not (text_eq name p) && listed p es)
                  ≡ (not (text_eq name p) && (text_eq x p || listed p es)))
                (sym same) (ground arith))
      | inr t ↦ rw t (elim (Bool-cases (text_eq name p)) [
        | inl u ↦
            let same : name ≡ p = (text_eq_iff name p).0 u in
            let apart : text_eq m p ≡ false = subst (λ x. text_eq m x ≡ false) same t in
            rw (u, apart) (rest ∙ rw u refl)
        | inr u ↦ rw (rest, u) refl
      ])
    ]

is_some-entry : (p : Text) (es : List (Text × ℕ)) → is_some (entry p es) ≡ listed p es
unfolding listed entry
is_some-entry p [] = refl
is_some-entry p ((m, i) ∷ es) = elim (Bool-cases (text_eq m p)) [
  | inl t ↦ rw t refl
  | inr t ↦ rw t (is_some-entry p es)
]

abbrev kind_of : Option Entry → EntryType
kind_of none = other_type
kind_of (some e) = e.kind

abbrev attributes_of : Option Entry → ℕ × ℕ
attributes_of none = (0, 0)
attributes_of (some e) = (e.size, e.modified_at)

module _ (attributes : Attributes) (fs : Fs) (d : ℕ) where
  abbrev IsDescribed : Entry → Type 0
  IsDescribed e = describe attributes fs d e.name ≡ some e

  entry_of-IsDescribed :
      (name : Text) (k : Node)
      → kind_at fs (child fs d name) ≡ some k
      → IsDescribed (entry_of attributes name k)
  unfolding entry_of
  entry_of-IsDescribed name k e = rw e refl

  pub gathered-IsDescribed :
      (names : List (Text × ℕ)) → All IsDescribed (gathered attributes fs d names)
  unfolding gathered
  gathered-IsDescribed [] = tt
  gathered-IsDescribed ((name, i) ∷ names) = elim (Option-cases (kind_at fs (child fs d name))) [
    | inl e ↦ rw e (gathered-IsDescribed names)
    | inr (k, e) ↦ rw e (entry_of-IsDescribed name k e, gathered-IsDescribed names)
  ]

  place-IsDescribed :
      (e : Entry) (es : List Entry)
      → IsDescribed e
      → All IsDescribed es
      → All IsDescribed (place_entry e es)
  unfolding place_entry
  place-IsDescribed e [] h hs = (h, tt)
  place-IsDescribed e (f ∷ es) h hs = elim (Bool-cases (text_leb e.name f.name)) [
    | inl t ↦ rw t (h, hs)
    | inr t ↦ rw t (hs.0, place-IsDescribed e es h hs.1)
  ]

  pub sort-IsDescribed : (es : List Entry) → All IsDescribed es → All IsDescribed (sort_entries es)
  unfolding sort_entries
  sort-IsDescribed [] h = tt
  sort-IsDescribed (e ∷ es) h = place-IsDescribed e (sort_entries es) h.0 (sort-IsDescribed es h.1)

  describe-Describes : (e : Entry) → IsDescribed e → Describes attributes fs d e
  unfolding entry_of entry_type
  describe-Describes e h = from (kind_at fs (child fs d e.name)) refl h
    where
      from :
          (o : Option Node)
          → kind_at fs (child fs d e.name) ≡ o
          → described attributes e.name o ≡ some e
          → Describes attributes fs d e
      from none p q = cc
      from (some (regular b)) p q = (
        regular b,
        p,
        sym (ap (λ (x : Option Entry). kind_of x) q),
        sym (ap (λ (x : Option Entry). attributes_of x) q),
      )
      from (some (directory es)) p q = (
        directory es,
        p,
        sym (ap (λ (x : Option Entry). kind_of x) q),
        sym (ap (λ (x : Option Entry). attributes_of x) q),
      )
      from (some (symlink t)) p q = (
        symlink t,
        p,
        sym (ap (λ (x : Option Entry). kind_of x) q),
        sym (ap (λ (x : Option Entry). attributes_of x) q),
      )
      from (some (special s)) p q = (
        special s,
        p,
        sym (ap (λ (x : Option Entry). kind_of x) q),
        sym (ap (λ (x : Option Entry). attributes_of x) q),
      )

  pub All-Described : (es : List Entry) → All IsDescribed es → All (Describes attributes fs d) es
  All-Described [] h = tt
  All-Described (e ∷ es) (h, hs) = (describe-Describes e h, All-Described es hs)

  -- The names that the directory has, and that stand for something.
  has-gathered :
      (p : Text) (names : List (Text × ℕ))
      → has p (names_of (gathered attributes fs d names))
        ≡ (listed p names && is_some (describe attributes fs d p))
  unfolding gathered has listed entry_of
  has-gathered p [] = refl
  has-gathered p ((name, i) ∷ names) = elim (Bool-cases (text_eq name p)) [
    | inl t ↦
        let same : name ≡ p = (text_eq_iff name p).0 t in
        elim (Option-cases (kind_at fs (child fs d name))) [
          | inl e ↦
              let e2 = subst (λ x. kind_at fs (child fs d x) ≡ none) same e in
              rw (e, t, e2) (has-gathered p names ∙ rw e2 (ground arith))
          | inr (k, e) ↦
              let e2 = subst (λ x. kind_at fs (child fs d x) ≡ some k) same e in rw (e, t, e2) refl
        ]
    | inr t ↦ elim (Option-cases (kind_at fs (child fs d name))) [
      | inl e ↦ rw (e, t) (has-gathered p names)
      | inr (k, e) ↦ rw (e, t) (has-gathered p names)
    ]
  ]

  -- A name that stands for something is one of the directory's.
  named-described :
      (p : Text) (es : List (Text × ℕ))
      → fs.node d ≡ some (directory es)
      → (listed p es && is_some (describe attributes fs d p)) ≡ is_some (describe attributes fs d p)
  unfolding child
  named-described p es h = elim (Option-cases (entry p es)) [
    | inl e ↦ rw (h, e) (ground arith)
    | inr (j, e) ↦ let l : listed p es ≡ true = sym (is_some-entry p es) ∙ ap is_some e in rw l refl
  ]

  -- The entries are those of the directory, but for its own two.
  pub has-listing :
      (p : Text) (es : List (Text × ℕ))
      → fs.node d ≡ some (directory es)
      → has p (names_of (sort_entries (gathered attributes fs d (without dot (without dotdot es)))))
        ≡ (not (text_eq dot p) && (not (text_eq dotdot p) && is_some (describe attributes fs d p)))
  has-listing p es h =
      let names : List (Text × ℕ) = without dot (without dotdot es) in
      ap (has p) (names-sort (gathered attributes fs d names))
      ∙ has-sorted p (names_of (gathered attributes fs d names))
      ∙ has-gathered p names
      ∙ rw (listed-without p dot (without dotdot es), listed-without p dotdot es)
          (ground (arith, named-described p es h))
