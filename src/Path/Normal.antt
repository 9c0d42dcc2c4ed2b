-- ===== src/Path/Normal.antt =====
-- What `normalize_sub_path` accepts and what it returns.
use mathlib.Core.List.{reverse-reverse}
use code_executor_api.Prelude.{
  ℕ, Text, Lacks, All, All-reverse, join, join-Lacks, split, split-Lacks, split-Lacks_of, lstrip,
  contains, ◌≡◌, refl, sym, ◌∙◌, ap, subst, false, Option, none, some, List, [], ◌∷◌, reverse,
  if◌then◌else◌, Bool-cases, inl, inr, Result, ok, err, text_eq, starts_with, Option-cases,
  some_inj,
}
use code_executor_api.Path.{
  slash, is_slash, splitroot, or_dot, normpath, normalize_sub_path, PathError, null_bytes,
  above_root,
}
use code_executor_api.Path.Resolve.{IsName, resolve, resolve_names, resolve_keeps, loop-cases}
use code_executor_api.Path.Bottom.{is_refused, sunk_refused, split-join_names, join_accepted}

-- The path of the names below the session's root, or the refusal of the root itself.
abbrev pub path_of : List Text → Result PathError Text
path_of [] = err above_root
path_of (c ∷ cs) = ok (join (slash ∷ []) (c ∷ cs))

abbrev pub path_of_walk : Option (List Text) → Result PathError Text
path_of_walk none = err above_root
path_of_walk (some stack) = path_of (reverse stack)

abbrev outcome : Text → Result PathError Text
outcome q = if is_refused q then err above_root else ok q

or_dot-join :
    (c : Text) (cs : List Text)
    → is_refused (join (slash ∷ []) (c ∷ cs)) ≡ false
    → or_dot (join (slash ∷ []) (c ∷ cs)) ≡ join (slash ∷ []) (c ∷ cs)
or_dot-join c cs h = go (join (slash ∷ []) (c ∷ cs)) h
  where
    go : (q : Text) → is_refused q ≡ false → or_dot q ≡ q
    go [] r = cc
    go (d ∷ q) r = refl

outcome-names :
    (cs : List Text) → All IsName cs → outcome (or_dot (join (slash ∷ []) cs)) ≡ path_of cs
unfolding join text_eq starts_with
outcome-names [] h = refl
outcome-names (c ∷ cs) h = let a = join_accepted c cs h in rw (or_dot-join c cs a, a)

splitroot-lstrip : (s : Text) → splitroot (lstrip is_slash s) ≡ ([], lstrip is_slash s)
unfolding lstrip
splitroot-lstrip [] = refl
splitroot-lstrip (c ∷ s) = elim (Bool-cases (is_slash c)) [
  | inl e ↦ rw e (splitroot-lstrip s)
  | inr e ↦ rw e (relative c s e)
]
  where
    relative : (c : ℕ) (s : Text) → is_slash c ≡ false → splitroot (c ∷ s) ≡ ([], c ∷ s)
    relative c [] e = rw e
    relative c (d ∷ []) e = rw e
    relative c (d ∷ f ∷ s) e = rw e

lstrip_keeps : (c : ℕ) (s : Text) → is_slash c ≡ false → lstrip is_slash (c ∷ s) ≡ c ∷ s
unfolding lstrip
lstrip_keeps c s e = rw e

-- Leading slashes are empty components, which the walk skips.
resolve-lstrip :
    (s : Text) → resolve [] (split slash (lstrip is_slash s)) ≡ resolve [] (split slash s)
unfolding resolve split lstrip
resolve-lstrip [] = refl
resolve-lstrip (c ∷ s) = elim (Bool-cases (is_slash c)) [
  | inl e ↦ rw e (resolve-lstrip s)
  | inr e ↦ ap (λ t. resolve [] (split slash t)) (lstrip_keeps c s e)
]

outcome-normpath :
    (s : Text) → outcome (normpath (lstrip is_slash s)) ≡ path_of_walk (resolve [] (split slash s))
unfolding normpath
outcome-normpath s =
    rw (splitroot-lstrip s, ← resolve-lstrip s)
      (elim (loop-cases [] (split slash t) tt (split-Lacks slash t)) [
        | inl (e, names) ↦ rw e (outcome-names _ (All-reverse IsName _ names))
        | inr (e, sunk) ↦ rw (e, sunk_refused _ sunk)
      ])
  where
    t : Text
    t = lstrip is_slash s

-- `normalize_sub_path` is the walk from the root: a path with a NUL is refused, then one whose walk
-- leaves the root at any point, or ends at the root; of any other the result is the names entered.
pub normalize_sub_path-eq-walk :
    (s : Text)
    → normalize_sub_path s
      ≡ (if contains 0 s then err null_bytes else path_of_walk (resolve [] (split slash s)))
unfolding normalize_sub_path
normalize_sub_path-eq-walk s = elim (Bool-cases (contains 0 s)) [
  | inl e ↦ rw e
  | inr e ↦ rw e (outcome-normpath s)
]

All-IsName-loop :
    (s : Text) (names : List Text) → resolve [] (split slash s) ≡ some names → All IsName names
All-IsName-loop s names h = elim (loop-cases [] (split slash s) tt (split-Lacks slash s)) [
  | inl (e, good) ↦ subst (All IsName) (some_inj (sym e ∙ h)) good
  | inr (e, sunk) ↦ cc
]

-- An accepted path is one name or more below the root, joined: what the walk entered.
abbrev IsBelow : Text → Text → Type 0
IsBelow s q =
    (c : Text) × (cs : List Text) × (All IsName (c ∷ cs))
    × (q ≡ join (slash ∷ []) (c ∷ cs))
    × (contains 0 s ≡ false)
    × (resolve [] (split slash s) ≡ some (reverse (c ∷ cs)))

normalize_sub_path-IsBelow : (s q : Text) → normalize_sub_path s ≡ ok q → IsBelow s q
normalize_sub_path-IsBelow s q h = elim (Bool-cases (contains 0 s)) [
  | inl e ↦ cc (rw e at (sym (normalize_sub_path-eq-walk s) ∙ h))
  | inr e ↦ elim (Option-cases (resolve [] (split slash s))) [
    | inl n ↦ cc (rw (e, n) at (sym (normalize_sub_path-eq-walk s) ∙ h))
    | inr (stack, n) ↦
        below (reverse stack) (All-reverse IsName stack (All-IsName-loop s stack n))
          (rw (e, n) at (sym (normalize_sub_path-eq-walk s) ∙ h)) e
          (n ∙ ap some (sym (reverse-reverse stack)))
  ]
]
  where
    below :
        (names : List Text)
        → All IsName names
        → path_of names ≡ ok q
        → contains 0 s ≡ false
        → resolve [] (split slash s) ≡ some (reverse names)
        → IsBelow s q
    below [] a h e r = cc
    below (c ∷ cs) a h e r = (c, cs, a, cc, e, r)

-- Every component of an accepted path names an entry of a directory: none is empty, `.` or `..`, so
-- a walk along the path, one entry at a time, stays below the root that it starts from.
pub split-normalize_sub_path :
    (s q : Text) → normalize_sub_path s ≡ ok q → All IsName (split slash q)
split-normalize_sub_path s q h =
    let (c, cs, a, e, _, _) = normalize_sub_path-IsBelow s q h in
    rw e (subst (All IsName) (sym (split-join_names c cs a)) a)

Lacks-nul-IsBelow : (s q : Text) → IsBelow s q → Lacks 0 q
Lacks-nul-IsBelow s q (c, cs, a, e, n, w) = subst (Lacks 0) (sym e) (
    join-Lacks 0 slash (c ∷ cs) refl (
      subst (All (Lacks 0)) (reverse-reverse (c ∷ cs)) (
        All-reverse (Lacks 0) (reverse (c ∷ cs))
          (resolve_keeps (Lacks 0) [] (split slash s) tt (split-Lacks_of 0 slash s n) w))))

-- Normalising a path that was normalised changes nothing.
pub normalize_sub_path_idem :
    (s q : Text) → normalize_sub_path s ≡ ok q → normalize_sub_path q ≡ ok q
normalize_sub_path_idem s q h =
    let b : IsBelow s q = normalize_sub_path-IsBelow s q h in
    let (c, cs, a, e, n, w) = b in
    normalize_sub_path-eq-walk q
    ∙ rw (Lacks-nul-IsBelow s q b, e, split-join_names c cs a, resolve_names [] (c ∷ cs) a)
        (ap path_of (reverse-reverse (c ∷ cs)))
