-- ===== src/Path/Bottom.antt =====
-- What becomes of a stack when `normpath` joins it: the texts that `normalize_sub_path` refuses
-- are those of a sunk or an empty stack.
use mathlib.Core.List.{reverse-append}
use code_executor_api.Prelude.{
  Text, text_eq, text_eq_iff, Lacks, All, join, split, split-join, starts_with, ◌≡◌, ◌≢◌, refl, sym,
  Bool, true, false, ◌||◌, List, [], ◌∷◌, ◌++◌, reverse, arith, Bool-cases, inl, inr, subst,
}
use code_executor_api.Path.{slash, dot, dotdot, is_empty, or_dot}
use code_executor_api.Path.Resolve.{IsName, IsSunk}

-- The test by which `normalize_sub_path` refuses a normalised path.
abbrev pub is_refused : Text → Bool
is_refused q =
    is_empty q || text_eq q dot || text_eq q dotdot || starts_with q (dotdot ++ slash ∷ [])

-- The first component is `..`.
abbrev pub Escapes : List Text → Type 0
Escapes [] = ⊥
Escapes (c ∷ cs) = c ≡ dotdot

Escapes-append : (xs ys : List Text) → Escapes xs → Escapes (xs ++ ys)
Escapes-append [] ys h = absurd h
Escapes-append (x ∷ xs) ys h = h

IsSunk-Escapes : (s : List Text) → IsSunk s → Escapes (reverse s)
IsSunk-Escapes [] h = absurd h
IsSunk-Escapes (c ∷ []) h = h
IsSunk-Escapes (c ∷ d ∷ s) h =
    subst Escapes (sym (reverse-append (c ∷ []) (d ∷ s)))
      (Escapes-append (reverse (d ∷ s)) (c ∷ []) (IsSunk-Escapes (d ∷ s) h))

Escapes-is_refused :
    (cs : List Text) → Escapes cs → is_refused (or_dot (join (slash ∷ []) cs)) ≡ true
unfolding join starts_with text_eq
Escapes-is_refused [] h = absurd h
Escapes-is_refused (c ∷ []) h = rw h
Escapes-is_refused (c ∷ d ∷ cs) h = rw h

pub sunk_refused :
    (s : List Text) → IsSunk s → is_refused (or_dot (join (slash ∷ []) (reverse s))) ≡ true
sunk_refused s h = Escapes-is_refused (reverse s) (IsSunk-Escapes s h)

starts_with-eq : (s p : Text) → starts_with s p ≡ true → (r : Text) × (s ≡ p ++ r)
unfolding starts_with
starts_with-eq s [] h = (s, refl)
starts_with-eq [] (d ∷ p) h = cc
starts_with-eq (c ∷ s) (d ∷ p) h =
    let (r, e) = starts_with-eq s p (ground arith) in (r, ground (arith, e))

text_eq-false : (s t : Text) → s ≢ t → text_eq s t ≡ false
text_eq-false s t h = elim (Bool-cases (text_eq s t)) [
  | inl e ↦ absurd (h ((text_eq_iff s t).0 e))
  | inr e ↦ e
]

-- No text whose split is names equals one that splits otherwise.
abbrev SplitsToNames : Text → Type 0
SplitsToNames q = All IsName (split slash q)

not_empty : ¬ SplitsToNames []
unfolding split
not_empty h = cc (h.0.not_empty)

not_dot : ¬ SplitsToNames dot
unfolding split text_eq
not_dot h = cc (h.0.not_dot)

not_dotdot : ¬ SplitsToNames dotdot
unfolding split text_eq
not_dotdot h = cc (h.0.not_dotdot)

not_above : (r : Text) → ¬ SplitsToNames (dotdot ++ slash ∷ r)
unfolding split text_eq
not_above r h = cc (h.0.not_dotdot)

names_not_empty : (q : Text) → SplitsToNames q → is_empty q ≡ false
names_not_empty [] h = absurd (not_empty h)
names_not_empty (c ∷ q) h = refl

names_not_above : (q : Text) → SplitsToNames q → starts_with q (dotdot ++ slash ∷ []) ≡ false
names_not_above q h = elim (Bool-cases (starts_with q (dotdot ++ slash ∷ []))) [
  | inl e ↦ let (r, p) = starts_with-eq q _ e in absurd (not_above r (subst SplitsToNames p h))
  | inr e ↦ e
]

-- A text whose split is names is accepted.
names_accepted : (q : Text) → SplitsToNames q → is_refused q ≡ false
names_accepted q h = rw (
  names_not_empty q h,
  text_eq-false q dot (λ e. not_dot (subst SplitsToNames e h)),
  text_eq-false q dotdot (λ e. not_dotdot (subst SplitsToNames e h)),
  names_not_above q h,
)

All-no_slash : (cs : List Text) → All IsName cs → All (Lacks slash) cs
All-no_slash [] h = tt
All-no_slash (c ∷ cs) h = (h.0.no_slash, All-no_slash cs h.1)

-- The join of one name or more splits into the names again.
pub split-join_names :
    (c : Text) (cs : List Text)
    → All IsName (c ∷ cs)
    → split slash (join (slash ∷ []) (c ∷ cs)) ≡ c ∷ cs
split-join_names c cs h = split-join slash c cs (All-no_slash (c ∷ cs) h)

-- So it is accepted.
pub join_accepted :
    (c : Text) (cs : List Text)
    → All IsName (c ∷ cs)
    → is_refused (join (slash ∷ []) (c ∷ cs)) ≡ false
join_accepted c cs h = names_accepted _ (subst (All IsName) (sym (split-join_names c cs h)) h)
