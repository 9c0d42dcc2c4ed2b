-- ===== src/Manager/Frames.antt =====
-- Lists of frames: what finding and removing one does to counts, and how the frames' sessions stay
-- registered while others come and go.
use code_executor_api.Prelude.{
  ℕ, suc, ◌+◌, ◌≤◌, Text, text_eq_iff, ◌≡◌, ◌≢◌, sym, ◌∙◌, subst, ap, inl, inr, none, some,
  some_inj, List, [], ◌∷◌, All, arith, Bool-cases, ◌==◌, if◌then◌else◌, text_eq,
}
use code_executor_api.Manager.{Session, lookup, pop, insert}
use code_executor_api.Manager.Registry.{count_refs, lookup-pop_ne, lookup-insert}
use code_executor_api.Manager.System.{find, remove}

-- The dictionary has the very session under its id.
abbrev pub Registered : List Session → Session → Type 0
Registered l s = lookup s.id l ≡ some s

pub id-lookup : (k : Text) (l : List Session) (s : Session) → lookup k l ≡ some s → s.id ≡ k
unfolding lookup
id-lookup k [] s h = cc
id-lookup k (t ∷ l) s h = ground (arith, id-lookup k l s, text_eq_iff t.id k)

pub lookup-Registered :
    (k : Text) (l : List Session) (s : Session) → lookup k l ≡ some s → Registered l s
lookup-Registered k l s h = ap (λ j. lookup j l) (id-lookup k l s h) ∙ h

pub ref-find : (r : ℕ) (l : List Session) (s : Session) → find r l ≡ some s → s.ref ≡ r
unfolding find
ref-find r [] s h = cc
ref-find r (t ∷ l) s h = ground (arith, ref-find r l s)

pub find-found :
    (r : ℕ) (l : List Session) (s : Session) → find r l ≡ some s → find s.ref l ≡ some s
find-found r l s h = ap (λ q. find q l) (ref-find r l s h) ∙ h

pub count_refs-remove :
    (q r : ℕ) (l : List Session) (s : Session)
    → find r l ≡ some s
    → count_refs q (remove r l) + (if s.ref == q then 1 else 0) ≡ count_refs q l
unfolding find remove count_refs
count_refs-remove q r [] s h = cc
count_refs-remove q r (t ∷ l) s h = elim (Bool-cases (t.ref == r)) [
  | inl e ↦ rw e (
      omega
        (arith, ap {B = ℕ} (λ (x : Session). if x.ref == q then 1 else 0) (some_inj (rw e at h))))
  | inr e ↦ rw e (omega (arith, count_refs-remove q r l s (rw e at h)))
]

-- Removing the frame that was found leaves one fewer of its session.
pub count_refs-remove_found :
    (r : ℕ) (l : List Session) (s : Session)
    → find r l ≡ some s
    → suc (count_refs s.ref (remove s.ref l)) ≡ count_refs s.ref l
count_refs-remove_found r l s h =
    ground (arith, count_refs-remove s.ref s.ref l s (find-found r l s h))

pub count_refs-remove_le : (q r : ℕ) (l : List Session) → count_refs q (remove r l) ≤ count_refs q l
unfolding remove count_refs
count_refs-remove_le q r [] = omega arith
count_refs-remove_le q r (t ∷ l) = ground (arith, count_refs-remove_le q r l)

module _ (P : Session → Type 0) where
  pub All-remove : (r : ℕ) (l : List Session) → All P l → All P (remove r l)
  unfolding remove
  All-remove r [] h = tt
  All-remove r (t ∷ l) h = ground (arith, All-remove r l h.1)

  pub All-find : (r : ℕ) (l : List Session) (s : Session) → All P l → find r l ≡ some s → P s
  unfolding find
  All-find r [] s h e = cc
  All-find r (t ∷ l) s h e = elim (Bool-cases (t.ref == r)) [
    | inl f ↦ subst P (some_inj (rw f at e)) h.0
    | inr f ↦ All-find r l s h.1 (rw f at e)
  ]

pub same-Registered :
    {l l' : List Session} (frames : List Session)
    → l' ≡ l
    → All (Registered l) frames
    → All (Registered l') frames
same-Registered frames e h = subst (λ x. All (Registered x) frames) (sym e) h

-- A new entry leaves the registered sessions registered.
pub insert-Registered :
    (s : Session) (l frames : List Session)
    → lookup s.id l ≡ none
    → All (Registered l) frames
    → All (Registered (insert s l)) frames
insert-Registered s l [] n h = tt
insert-Registered s l (t ∷ frames) n h = (keep, insert-Registered s l frames n h.1)
  where
    keep : Registered (insert s l) t
    keep = rw lookup-insert (elim (Bool-cases (text_eq s.id t.id)) [
      | inl e ↦ cc (sym n ∙ ap (λ j. lookup j l) ((text_eq_iff s.id t.id).0 e) ∙ h.0)
      | inr e ↦ rw e h.0
    ])

-- Retiring a session leaves those registered that are not it.
pub pop-Registered :
    (s : Session) (l frames : List Session)
    → Registered l s
    → count_refs s.ref frames ≡ 0
    → All (Registered l) frames
    → All (Registered (pop s.id l)) frames
unfolding count_refs
pop-Registered s l [] r c h = tt
pop-Registered s l (t ∷ frames) r c h =
    (lookup-pop_ne t.id s.id l other ∙ h.0, pop-Registered s l frames r (ground arith) h.1)
  where
    other : t.id ≢ s.id
    other e =
        let p : t ≡ s = some_inj (sym h.0 ∙ ap (λ j. lookup j l) e ∙ r) in
        ground (arith, ap (λ (x : Session). x.ref) p)
