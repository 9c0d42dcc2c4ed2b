-- ===== src/Routes/Attachments.antt =====
-- The split of a run's changed files into the attachments of the answer and the files that it only
-- names.
use code_executor_api.Prelude.{
  ℕ, Text, ◌≡◌, refl, leb, length, length-append, false, Option, none, some, List, [], ◌∷◌, ◌++◌,
  ok, Bool-cases, inl, inr, arith, ◌≤◌, sym, ap, subst,
}
use code_executor_api.Config.{Limits}
use code_executor_api.FileSystem.{Bytes}
use code_executor_api.Routes.{Local}
use code_executor_api.Routes.Inversion.{bind_ok, ok_inj}
use code_executor_api.Routes.Execute.{read_payload, placed, attach}

-- The second and third list together are the first one, each in its order.
pub data Splits : List Text → List Text → List Text → Type 0 where
  split_end : Splits [] [] []
  split_left :
      {p : Text} {paths left right : List Text}
      → Splits paths left right
      → Splits (p ∷ paths) (p ∷ left) right
  split_right :
      {p : Text} {paths left right : List Text}
      → Splits paths left right
      → Splits (p ∷ paths) left (p ∷ right)

abbrev pub names : List (Text × Bytes) → List Text
names [] = []
names ((p, b) ∷ payloads) = p ∷ names payloads

-- Attached and omitted files so far, and at the end.
abbrev Extends :
    Limits → List Text → List (Text × Bytes) × List Text → List (Text × Bytes) × List Text → Type 0
Extends limits paths acc r =
    (payloads : List (Text × Bytes)) × (omitted : List Text) × (r
      ≡ (acc.0 ++ payloads, acc.1 ++ omitted))
    × Splits paths (names payloads) omitted
    × (length acc.0 ≤ limits.max_result_attachments
        → length (acc.0 ++ payloads) ≤ limits.max_result_attachments)

append_one {ℓ} : {A : Type ℓ} (xs ys : List A) (x : A) → (xs ++ x ∷ []) ++ ys ≡ xs ++ x ∷ ys
append_one [] ys x = refl
append_one (z ∷ xs) ys x = rw (append_one xs ys x) refl

append_nil {ℓ} : {A : Type ℓ} (xs : List A) → xs ++ [] ≡ xs
append_nil [] = refl
append_nil (z ∷ xs) = ap (λ ys. z ∷ ys) (append_nil xs)

omit-Extends :
    (limits : Limits) (p : Text) (paths : List Text) (acc r : List (Text × Bytes) × List Text)
    → Extends limits paths (placed p none acc) r
    → Extends limits (p ∷ paths) acc r
omit-Extends limits p paths (xs, ys) r (payloads, omitted, e, sp, le) =
    (payloads, p ∷ omitted, rw e (rw (append_one ys omitted p) refl), split_right sp, le)

keep-Extends :
    (limits : Limits) (p : Text) (b : Bytes) (paths : List Text)
    (acc r : List (Text × Bytes) × List Text)
    → leb limits.max_result_attachments (length acc.0) ≡ false
    → Extends limits paths (placed p (some b) acc) r
    → Extends limits (p ∷ paths) acc r
keep-Extends limits p b paths (xs, ys) r n (payloads, omitted, e, sp, le) = (
  (p, b) ∷ payloads,
  omitted,
  rw e (rw (append_one xs payloads (p, b)) refl),
  split_left sp,
  λ h.
      subst (λ l. length l ≤ limits.max_result_attachments) (append_one xs payloads (p, b))
        (le (ground (arith, length-append xs ((p, b) ∷ [])))),
)

placed-Extends :
    (limits : Limits) (p : Text) (b : Option Bytes) (paths : List Text)
    (acc r : List (Text × Bytes) × List Text)
    → leb limits.max_result_attachments (length acc.0) ≡ false
    → Extends limits paths (placed p b acc) r
    → Extends limits (p ∷ paths) acc r
placed-Extends limits p none paths acc r n h = omit-Extends limits p paths acc r h
placed-Extends limits p (some b) paths acc r n h = keep-Extends limits p b paths acc r n h

attach-Extends :
    (limits : Limits) (root : ℕ) (paths : List Text) (acc r : List (Text × Bytes) × List Text)
    (s t : Local)
    → attach limits root paths acc s ≡ (ok r, t)
    → Extends limits paths acc r
unfolding attach
attach-Extends limits root [] acc r s t h = (
  [],
  [],
  rw (append_nil acc.0, append_nil acc.1) (sym (ok_inj acc r s t h)),
  split_end,
  λ b. rw (append_nil acc.0) b,
)
attach-Extends limits root (p ∷ paths) acc r s t h =
    elim (Bool-cases (leb limits.max_result_attachments (length acc.0))) [
      | inl a ↦
          omit-Extends limits p paths acc r
            (attach-Extends limits root paths (placed p none acc) r s t (rw a at h))
      | inr a ↦
          let (b, f, e) =
            bind_ok (read_payload root p) (λ b. attach limits root paths (placed p b acc)) s t r
              (rw a at h) in
          placed-Extends limits p b paths acc r a
            (attach-Extends limits root paths (placed p b acc) r (read_payload root p s).1 t e)
    ]

-- When the loop over the changed files returns, every changed file is attached or named as omitted,
-- once and in the order of the run's list, and at most MAX_RESULT_ATTACHMENTS files are attached.
pub attach-Splits :
    (limits : Limits) (root : ℕ) (paths : List Text) (payloads : List (Text × Bytes))
    (omitted : List Text) (s t : Local)
    → attach limits root paths ([], []) s ≡ (ok (payloads, omitted), t)
    → Splits paths (names payloads) omitted × (length payloads ≤ limits.max_result_attachments)
attach-Splits limits root paths payloads omitted s t h =
    whole payloads omitted (attach-Extends limits root paths ([], []) (payloads, omitted) s t h)
  where
    whole :
        (ps : List (Text × Bytes)) (os : List Text)
        → Extends limits paths ([], []) (ps, os)
        → Splits paths (names ps) os × (length ps ≤ limits.max_result_attachments)
    whole ps os (xs, ys, e, sp, le) =
        rw
          (
            ap (λ (r : List (Text × Bytes) × List Text). r.0) e,
            ap (λ (r : List (Text × Bytes) × List Text). r.1) e,
          )
          (sp, le (omega arith))
