-- ===== src/Path/Resolve.antt =====
-- What a sub_path means, read as a walk from the session's root: the reference that
-- `normalize_sub_path` is held to.
use mathlib.Core.List.{reverse_aux}
use code_executor_api.Prelude.{
  Text, text_eq, Lacks, All, ◌≡◌, refl, ◌⊎◌, inl, inr, false, ◌||◌, Option, none, some, List, [],
  ◌∷◌, arith, if◌then◌else◌, text_eq_iff, text_eq_refl, Bool-cases, subst, some_inj, Option-cases,
}
use code_executor_api.Path.{slash, dot, dotdot, is_empty, normpath_step, normpath_loop}

-- One component of a walk: none, if it would leave the root.
unfoldable pub resolve_step : List Text → Text → Option (List Text)
resolve_step stack comp =
    if is_empty comp || text_eq comp dot
    then some stack
    else if text_eq comp dotdot
    then (elim stack [ [] ↦ none | name ∷ above ↦ some above ])
    else some (comp ∷ stack)

-- The directories entered, the last one first.
unfoldable pub resolve : List Text → List Text → Option (List Text)
unfolding resolve_step
resolve stack [] = some stack
resolve stack (comp ∷ comps) = elim (resolve_step stack comp) [
  | none ↦ none
  | some stack' ↦ resolve stack' comps
]

-- A name that is the entry of a directory: not empty, neither `.` nor `..`, and without a slash.
pub record IsName (c : Text) : Type 0 where
  pub not_empty : is_empty c ≡ false
  pub not_dot : text_eq c dot ≡ false
  pub not_dotdot : text_eq c dotdot ≡ false
  pub no_slash : Lacks slash c

-- The first component left the root: the loop keeps `..` at the bottom of its stack.
abbrev pub IsSunk : List Text → Type 0
IsSunk [] = ⊥
IsSunk (c ∷ []) = c ≡ dotdot
IsSunk (c ∷ d ∷ s) = IsSunk (d ∷ s)

-- A round of the loop over a stack of names does what the walk does, or sinks.
abbrev Step-cases : List Text → Text → Type 0
Step-cases stack comp =
    ((resolve_step stack comp ≡ some (normpath_step false stack comp))
      × All IsName (normpath_step false stack comp))
    ⊎ ((resolve_step stack comp ≡ none) × IsSunk (normpath_step false stack comp))

IsName-of_tests :
    (comp : Text)
    → (is_empty comp || text_eq comp dot) ≡ false
    → text_eq comp dotdot ≡ false
    → Lacks slash comp
    → IsName comp
IsName-of_tests comp e f l = ground arith

step-cases :
    (stack : List Text) (comp : Text) → All IsName stack → Lacks slash comp → Step-cases stack comp
unfolding resolve_step normpath_step
step-cases [] comp h l = elim (Bool-cases (is_empty comp || text_eq comp dot)) [
  | inl e ↦ rw e (inl (refl, tt))
  | inr e ↦ rw e (elim (Bool-cases (text_eq comp dotdot)) [
    | inl f ↦ rw f (inr (refl, (text_eq_iff comp dotdot).0 f))
    | inr f ↦ rw f (inl (refl, (IsName-of_tests comp e f l, tt)))
  ])
]
step-cases (name ∷ above) comp h l = elim (Bool-cases (is_empty comp || text_eq comp dot)) [
  | inl e ↦ rw e (inl (refl, h))
  | inr e ↦ rw e (elim (Bool-cases (text_eq comp dotdot)) [
    | inl f ↦ rw (f, h.0.not_dotdot) (inl (refl, h.1))
    | inr f ↦ rw f (inl (refl, (IsName-of_tests comp e f l, h)))
  ])
]

step-IsSunk :
    (stack : List Text) (comp : Text) → IsSunk stack → IsSunk (normpath_step false stack comp)
unfolding normpath_step
step-IsSunk [] comp h = absurd h
step-IsSunk (c ∷ []) comp h = rw (h, text_eq_refl) (ground arith)
step-IsSunk (c ∷ d ∷ s) comp h = ground arith

loop-IsSunk : (stack comps : List Text) → IsSunk stack → IsSunk (normpath_loop false stack comps)
unfolding normpath_loop
loop-IsSunk stack [] h = h
loop-IsSunk stack (comp ∷ comps) h =
    loop-IsSunk (normpath_step false stack comp) comps (step-IsSunk stack comp h)

-- The loop of `normpath` over a path with no root is the walk, or sinks where the walk fails.
abbrev pub Loop-cases : List Text → List Text → Type 0
Loop-cases stack comps =
    ((resolve stack comps ≡ some (normpath_loop false stack comps))
      × All IsName (normpath_loop false stack comps))
    ⊎ ((resolve stack comps ≡ none) × IsSunk (normpath_loop false stack comps))

pub loop-cases :
    (stack comps : List Text) → All IsName stack → All (Lacks slash) comps → Loop-cases stack comps
unfolding resolve normpath_loop
loop-cases stack [] h l = inl (refl, h)
loop-cases stack (comp ∷ comps) h l = elim (step-cases stack comp h l.0) [
  | inl (e, names) ↦ rw (e, resolve) (loop-cases (normpath_step false stack comp) comps names l.1)
  | inr (e, sunk) ↦
      inr (rw (e, resolve) refl, loop-IsSunk (normpath_step false stack comp) comps sunk)
]

resolve_step_name :
    (stack : List Text) (n : Text) → IsName n → resolve_step stack n ≡ some (n ∷ stack)
unfolding resolve_step
resolve_step_name stack n h = rw (h.not_empty, h.not_dot, h.not_dotdot)

-- Over names alone the walk enters each.
pub resolve_names :
    (stack names : List Text)
    → All IsName names
    → resolve stack names ≡ some (reverse_aux names stack)
unfolding resolve
resolve_names stack [] h = refl
resolve_names stack (n ∷ names) h =
    rw (resolve_step_name stack n h.0, resolve) (resolve_names (n ∷ stack) names h.1)

module _ (P : Text → Type 0) where
  step_keeps :
      (stack : List Text) (c : Text) {t : List Text}
      → All P stack
      → P c
      → resolve_step stack c ≡ some t
      → All P t
  unfolding resolve_step
  step_keeps [] c hs hc e = ground arith
  step_keeps (n ∷ stack) c hs hc e = ground arith

  -- A walk makes no component up: what holds of the path's components holds of those it keeps.
  pub resolve_keeps :
      (stack comps : List Text) {s : List Text}
      → All P stack
      → All P comps
      → resolve stack comps ≡ some s
      → All P s
  unfolding resolve
  resolve_keeps stack [] hs hc e = subst (All P) (some_inj e) hs
  resolve_keeps stack (c ∷ comps) hs hc e = elim (Option-cases (resolve_step stack c)) [
    | inl n ↦ cc (rw (n, resolve) at e)
    | inr (t, n) ↦ resolve_keeps t comps (step_keeps stack c hs hc.0 n) hc.1 (rw (n, resolve) at e)
  ]
