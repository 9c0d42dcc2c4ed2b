-- ===== src/Prelude/SplitJoin.antt =====
-- `split` and `join` undo one another, and what they keep of a text's characters.
use code_executor_api.Prelude.Tests.{◌==◌, Bool-cases}
use code_executor_api.Prelude.Lists.{All}
use code_executor_api.Prelude.Strings.{Text, contains, split, join, push_head}
use Prim.Native.Nat.{ℕ}
use mathlib.Core.Path.{◌≡◌, refl, ap, ◌∙◌}
use mathlib.Core.Logic.{inl, inr}
use mathlib.Core.Bool.{false}
use mathlib.Core.List.{List, [], ◌∷◌, ◌++◌}
use native.Mathlib.Omega.{arith}

abbrev pub Lacks : ℕ → Text → Type 0
Lacks c s = contains c s ≡ false

pub Lacks-append : (c : ℕ) (s t : Text) → Lacks c s → Lacks c t → Lacks c (s ++ t)
unfolding contains
Lacks-append c [] t hs ht = ht
Lacks-append c (d ∷ s) t hs ht = ground (arith, Lacks-append c s t)

All-Lacks-push_head :
    (c d : ℕ) (ws : List Text)
    → (c == d) ≡ false
    → All (Lacks c) ws
    → All (Lacks c) (push_head d ws)
unfolding contains
All-Lacks-push_head c d [] h hs = ground arith
All-Lacks-push_head c d (w ∷ ws) h hs = ground arith

-- The pieces of a split hold no separator.
pub split-Lacks : (sep : ℕ) (s : Text) → All (Lacks sep) (split sep s)
unfolding split contains
split-Lacks sep [] = (refl, tt)
split-Lacks sep (c ∷ s) = elim (Bool-cases (c == sep)) [
  | inl e ↦ rw e (refl, split-Lacks sep s)
  | inr e ↦ rw e (All-Lacks-push_head sep c (split sep s) (ground arith) (split-Lacks sep s))
]

-- Nor any character that the text lacks.
pub split-Lacks_of : (c sep : ℕ) (s : Text) → Lacks c s → All (Lacks c) (split sep s)
unfolding split contains
split-Lacks_of c sep [] h = (refl, tt)
split-Lacks_of c sep (d ∷ s) h = elim (Bool-cases (d == sep)) [
  | inl e ↦ rw e (refl, split-Lacks_of c sep s (ground arith))
  | inr e ↦
      rw e (
        All-Lacks-push_head c d (split sep s) (ground arith)
          (split-Lacks_of c sep s (ground arith)))
]

pub join-Lacks :
    (c sep : ℕ) (ws : List Text)
    → (c == sep) ≡ false
    → All (Lacks c) ws
    → Lacks c (join (sep ∷ []) ws)
unfolding join contains
join-Lacks c sep [] h hs = refl
join-Lacks c sep (w ∷ []) h hs = hs.0
join-Lacks c sep (w ∷ v ∷ ws) h hs =
    Lacks-append c w (sep ∷ join (sep ∷ []) (v ∷ ws)) hs.0 (rw h (join-Lacks c sep (v ∷ ws) h hs.1))

split_piece : (sep : ℕ) (w : Text) → Lacks sep w → split sep w ≡ w ∷ []
unfolding split contains
split_piece sep [] h = refl
split_piece sep (c ∷ w) h = ground (arith, split_piece sep w)

split-append : (sep : ℕ) (w s : Text) → Lacks sep w → split sep (w ++ sep ∷ s) ≡ w ∷ split sep s
unfolding split contains
split-append sep [] s h = ground arith
split-append sep (c ∷ w) s h = ground (arith, split-append sep w s)

-- Splitting a join of pieces without the separator gives the pieces back.
pub split-join :
    (sep : ℕ) (w : Text) (ws : List Text)
    → All (Lacks sep) (w ∷ ws)
    → split sep (join (sep ∷ []) (w ∷ ws)) ≡ w ∷ ws
unfolding join
split-join sep w [] h = split_piece sep w h.0
split-join sep w (v ∷ ws) h =
    split-append sep w (join (sep ∷ []) (v ∷ ws)) h.0 ∙ ap (λ r. w ∷ r) (split-join sep v ws h.1)
