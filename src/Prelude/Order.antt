-- ===== src/Prelude/Order.antt =====
-- The order of Python's strings, `sorted` over it, and membership.
use mathlib.Core.Path.{◌≡◌, refl}
use mathlib.Core.Bool.{Bool, true, false, ◌&&◌, ◌||◌}
use mathlib.Core.List.{List, [], ◌∷◌}
use native.Mathlib.Omega.{arith}
use code_executor_api.Prelude.Tests.{ltb, ◌==◌, if◌then◌else◌}
use code_executor_api.Prelude.Strings.{Text, text_eq}

-- `s <= t`, by code points
unfoldable pub text_leb : Text → Text → Bool
text_leb [] t = true
text_leb (c ∷ s) [] = false
text_leb (c ∷ s) (d ∷ t) = ltb c d || ((c == d) && text_leb s t)

-- `p in names`
unfoldable pub has : Text → List Text → Bool
has p [] = false
has p (q ∷ names) = text_eq q p || has p names

unfoldable pub place : Text → List Text → List Text
place p [] = p ∷ []
place p (q ∷ names) = if text_leb p q then p ∷ q ∷ names else q ∷ place p names

-- `sorted(names)`
unfoldable pub sorted : List Text → List Text
sorted [] = []
sorted (p ∷ names) = place p (sorted names)

abbrev pub IsSorted : List Text → Type 0
IsSorted [] = Unit
IsSorted (p ∷ []) = Unit
IsSorted (p ∷ q ∷ names) = (text_leb p q ≡ true) × IsSorted (q ∷ names)

text_leb_total : (s t : Text) → text_leb s t ≡ false → text_leb t s ≡ true
unfolding text_leb
text_leb_total [] t h = cc
text_leb_total (c ∷ s) [] h = refl
text_leb_total (c ∷ s) (d ∷ t) h = ground (arith, text_leb_total s t)

has-place : (p q : Text) (names : List Text) → has p (place q names) ≡ (text_eq q p || has p names)
unfolding has place
has-place p q [] = refl
has-place p q (r ∷ names) = ground (arith, has-place p q names)

-- Sorting keeps the members.
pub has-sorted : (p : Text) (names : List Text) → has p (sorted names) ≡ has p names
unfolding has sorted
has-sorted p [] = refl
has-sorted p (q ∷ names) = rw (has-place p q (sorted names), has-sorted p names)

place-IsSorted : (p : Text) (names : List Text) → IsSorted names → IsSorted (place p names)
unfolding place
place-IsSorted p [] h = tt
place-IsSorted p (q ∷ []) h = ground (arith, text_leb_total p q)
place-IsSorted p (q ∷ r ∷ names) h =
    ground (arith, text_leb_total p q, place-IsSorted p (r ∷ names) h.1)

pub sorted-IsSorted : (names : List Text) → IsSorted (sorted names)
unfolding sorted
sorted-IsSorted [] = tt
sorted-IsSorted (p ∷ names) = place-IsSorted p (sorted names) (sorted-IsSorted names)
