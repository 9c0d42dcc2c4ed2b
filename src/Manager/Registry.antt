-- ===== src/Manager/Registry.antt =====
-- The dictionary of sessions, seen through lookups and counts.
use code_executor_api.Prelude.{
  ℕ, ◌+◌, ◌≤◌, Text, text_eq, text_eq_iff, ◌≡◌, ◌≢◌, refl, Option, none, some, List, [], ◌∷◌, arith,
  ◌==◌, if◌then◌else◌, length, inl, inr, Bool-cases, some_inj, ap, sym, ◌∙◌,
}
use code_executor_api.Manager.{Session, lookup, pop, insert}

-- 1 where the session has the project id, 0 where it has not.
abbrev pub has_id : ℕ → Option ℕ → ℕ
has_id n none = 0
has_id n (some k) = if k == n then 1 else 0

-- How many of the sessions have the project id.
unfoldable pub count_ids : ℕ → List Session → ℕ
count_ids n [] = 0
count_ids n (s ∷ l) = has_id n s.project_id + count_ids n l

-- How often a number stands in a list.
unfoldable pub count : ℕ → List ℕ → ℕ
count n [] = 0
count n (k ∷ l) = (if k == n then 1 else 0) + count n l

-- How many of the frames are of the session with this identity.
unfoldable pub count_refs : ℕ → List Session → ℕ
count_refs r [] = 0
count_refs r (s ∷ l) = (if s.ref == r then 1 else 0) + count_refs r l

abbrev pub Unique : List Session → Type 0
Unique [] = Unit
Unique (s ∷ l) = (lookup s.id l ≡ none) × Unique l

pub count_ids-pop :
    (n : ℕ) (k : Text) (l : List Session) (s : Session)
    → lookup k l ≡ some s
    → count_ids n (pop k l) + has_id n s.project_id ≡ count_ids n l
unfolding lookup pop count_ids
count_ids-pop n k [] s h = cc
count_ids-pop n k (t ∷ l) s h = elim (Bool-cases (text_eq t.id k)) [
  | inl e ↦ rw e (omega (arith, ap (λ (x : Session). has_id n x.project_id) (some_inj (rw e at h))))
  | inr e ↦ rw e (omega (arith, count_ids-pop n k l s (rw e at h)))
]

pub length-pop : (k : Text) (l : List Session) → length (pop k l) ≤ length l
unfolding pop
length-pop k [] = omega arith
length-pop k (t ∷ l) = ground (arith, length-pop k l)

pub length-insert : (t : Session) (l : List Session) → length (insert t l) ≤ length l + 1
unfolding insert
length-insert t [] = omega arith
length-insert t (s ∷ l) = ground (arith, length-insert t l)

pub lookup-pop_ne : (j k : Text) (l : List Session) → j ≢ k → lookup j (pop k l) ≡ lookup j l
unfolding lookup pop
lookup-pop_ne j k [] h = refl
lookup-pop_ne j k (t ∷ l) h =
    ground (arith, lookup-pop_ne j k l h, text_eq_iff t.id k, text_eq_iff t.id j)

pub lookup-pop_self : (k : Text) (l : List Session) → Unique l → lookup k (pop k l) ≡ none
unfolding lookup pop
lookup-pop_self k [] u = refl
lookup-pop_self k (t ∷ l) u = ground (arith, lookup-pop_self k l u.1, text_eq_iff t.id k)

pub lookup-insert :
    (j : Text) (t : Session) (l : List Session)
    → lookup j (insert t l) ≡ (if text_eq t.id j then some t else lookup j l)
unfolding lookup insert
lookup-insert j t [] = refl
lookup-insert j t (s ∷ l) =
    ground
      (arith, lookup-insert j t l, text_eq_iff s.id t.id, text_eq_iff s.id j, text_eq_iff t.id j)

pub count_refs-pop : (r : ℕ) (k : Text) (l : List Session) → count_refs r (pop k l) ≤ count_refs r l
unfolding pop count_refs
count_refs-pop r k [] = omega arith
count_refs-pop r k (t ∷ l) = ground (arith, count_refs-pop r k l)

pub count_refs-insert :
    (r : ℕ) (t : Session) (l : List Session)
    → count_refs r (insert t l) ≤ (if t.ref == r then 1 else 0) + count_refs r l
unfolding insert count_refs
count_refs-insert r t [] = omega arith
count_refs-insert r t (s ∷ l) = ground (arith, count_refs-insert r t l)

pub count_refs-lookup :
    (k : Text) (l : List Session) (f : Session) → lookup k l ≡ some f → 1 ≤ count_refs f.ref l
unfolding lookup count_refs
count_refs-lookup k [] f h = cc
count_refs-lookup k (t ∷ l) f h = elim (Bool-cases (text_eq t.id k)) [
  | inl e ↦ rw (some_inj (rw e at h)) (ground arith)
  | inr e ↦ omega (arith, count_refs-lookup k l f (rw e at h))
]

-- A new key is a new entry.
pub count_ids-insert :
    (n : ℕ) (t : Session) (l : List Session)
    → lookup t.id l ≡ none
    → count_ids n (insert t l) ≡ has_id n t.project_id + count_ids n l
unfolding lookup insert count_ids
count_ids-insert n t [] h = refl
count_ids-insert n t (s ∷ l) h = ground (arith, count_ids-insert n t l)

pub pop-Unique : (k : Text) (l : List Session) → Unique l → Unique (pop k l)
unfolding pop
pop-Unique k [] u = tt
pop-Unique k (t ∷ l) u =
    ground (arith, pop-Unique k l u.1, lookup-pop_ne t.id k l, text_eq_iff t.id k)

pub insert-Unique : (t : Session) (l : List Session) → Unique l → Unique (insert t l)
unfolding insert lookup
insert-Unique t [] u = (refl, tt)
insert-Unique t (s ∷ l) u = ground (
  arith,
  insert-Unique t l u.1,
  lookup-insert s.id t l,
  text_eq_iff s.id t.id,
  text_eq_iff t.id s.id,
)

pub count_ids-found :
    (n : ℕ) (k : Text) (l : List Session) (s : Session)
    → lookup k l ≡ some s
    → has_id n s.project_id ≤ count_ids n l
count_ids-found n k l s h = omega (arith, count_ids-pop n k l s h)

-- Two keys that find sessions with one project id make it count twice.
pub count_ids-two :
    (n : ℕ) (j k : Text) (l : List Session) (s t : Session)
    → j ≢ k
    → lookup j l ≡ some s
    → lookup k l ≡ some t
    → has_id n s.project_id + has_id n t.project_id ≤ count_ids n l
unfolding lookup count_ids
count_ids-two n j k [] s t h p q = cc
count_ids-two n j k (r ∷ l) s t h p q = elim (Bool-cases (text_eq r.id j)) [
  | inl e ↦ elim (Bool-cases (text_eq r.id k)) [
    | inl f ↦ absurd (h (sym ((text_eq_iff r.id j).0 e) ∙ (text_eq_iff r.id k).0 f))
    | inr f ↦ omega (
      arith,
      ap (λ (x : Session). has_id n x.project_id) (some_inj (rw e at p)),
      count_ids-found n k l t (rw f at q),
    )
  ]
  | inr e ↦ elim (Bool-cases (text_eq r.id k)) [
    | inl f ↦ omega (
      arith,
      ap (λ (x : Session). has_id n x.project_id) (some_inj (rw f at q)),
      count_ids-found n j l s (rw e at p),
    )
    | inr f ↦ omega (arith, count_ids-two n j k l s t h (rw e at p) (rw f at q))
  ]
]

pub has_id_self : (n : ℕ) (id : Option ℕ) → id ≡ some n → has_id n id ≡ 1
has_id_self n id e = rw e (ground arith)
