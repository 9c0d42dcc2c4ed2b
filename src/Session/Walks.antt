-- ===== src/Session/Walks.antt =====
-- `Session._open_parent`: the directory that its walk ends in.
use code_executor_api.Prelude.{
  ℕ, suc, ◌-◌, arith, Text, split, ◌≡◌, refl, sym, subst, ap, ◌∙◌, Bool, inl, inr, true, false,
  List, [], ◌∷◌, Result, ok,
}
use code_executor_api.Path.{slash}
use code_executor_api.FileSystem.{
  eloop, enotdir, eexist, Exception, os_error, Fs, World, Exec, close, catch, on_error,
}
use code_executor_api.FileSystem.Calls.{open_root, open_directory_at, mkdir_at}
use code_executor_api.FileSystem.Returns.{
  on_error-Reraises, Reraises, bind_ok, catch_ok, catch-cases, finally_ok,
}
use code_executor_api.FileSystem.Resolve.{IsFresh, Enters, Resolves, Grows, Grows-refl, Grows-trans}
use code_executor_api.FileSystem.Effects.{
  open_root_ok, open_directory_at_ok, mkdir_at_ok, mkdir_at_err,
}
use code_executor_api.FileSystem.Calm.{calm, open_directory_at-calm, mkdir_at-calm}
use code_executor_api.Session.{
  as_not_found, ignore_exists, open_next, descend, init, last, with_parent,
}

as_not_found-Reraises : Reraises as_not_found
as_not_found-Reraises (os_error eloop) w w1 a h = cc
as_not_found-Reraises (os_error enotdir) w w1 a h = cc
as_not_found-Reraises (os_error _) w w1 a h = cc
as_not_found-Reraises _ w w1 a h = cc

ignore_exists-same :
    (e : Exception) (w w1 : World) (i : ℕ) → ignore_exists e w ≡ (ok i, w1) → w ≡ w1
ignore_exists-same (os_error eexist) w w1 i h = cc
ignore_exists-same (os_error _) w w1 i h = cc
ignore_exists-same _ w w1 i h = cc

abbrev fs_of : World → Fs
fs_of w = w.fs

as_not_found_ok :
    (fd i : ℕ) (part : Text) (w w1 : World)
    → catch (open_directory_at fd part) as_not_found w ≡ (ok i, w1)
    → (w.fs ≡ w1.fs) × Enters w1.fs fd part i
as_not_found_ok fd i part w w1 h =
    let (same, e) =
      open_directory_at_ok fd i part w w1
        (catch_ok (open_directory_at fd part) as_not_found w w1 i as_not_found-Reraises h) in
    (same, subst (λ x. Enters x fd part i) same e)

made :
    (fd i : ℕ) (part : Text) (w w1 : World)
    → IsFresh w.fs
    → catch (mkdir_at fd part) ignore_exists w ≡ (ok i, w1)
    → Grows w.fs w1.fs
made fd i part w w1 f h = elim (catch-cases (mkdir_at fd part) ignore_exists w w1 i h) [
  | inl p ↦ mkdir_at_ok fd i part w w1 f p
  | inr (e, w2, p, q) ↦
      subst (λ x. Grows w.fs x)
        (mkdir_at_err fd part w w2 e p ∙ ap fs_of (ignore_exists-same e w2 w1 i q))
        (Grows-refl w.fs f)
]

-- The directory that a step of the walk opens.
open_next_ok :
    (fd i : ℕ) (part : Text) (create_dir : Bool) (w w1 : World)
    → IsFresh w.fs
    → open_next fd part create_dir w ≡ (ok i, w1)
    → Grows w.fs w1.fs × Enters w1.fs fd part i × (create_dir ≡ false → w.fs ≡ w1.fs)
unfolding open_next
open_next_ok fd i part false w w1 f h =
    let (same, e) = as_not_found_ok fd i part w w1 h in
    (subst (λ x. Grows w.fs x) same (Grows-refl w.fs f), e, λ q. same)
open_next_ok fd i part true w w1 f h =
    let (j, w2, p, q) =
      bind_ok (catch (mkdir_at fd part) ignore_exists)
        (λ j. catch (open_directory_at fd part) as_not_found) w w1 i h in
    let (same, e) = as_not_found_ok fd i part w2 w1 q in
    (subst (λ x. Grows w.fs x) same (made fd j part w w2 f p), e, λ x. cc)

-- The directory that the walk ends in.
pub descend_ok :
    (fd d : ℕ) (parts : List Text) (create_dir : Bool) (w w1 : World)
    → IsFresh w.fs
    → descend fd parts create_dir w ≡ (ok d, w1)
    → Grows w.fs w1.fs × Resolves w1.fs fd parts d × (create_dir ≡ false → w.fs ≡ w1.fs)
unfolding descend
descend_ok fd d [] create_dir w w1 f h =
    let same : w.fs ≡ w1.fs = ap (λ (x : Result Exception ℕ × World). x.1.fs) h in
    (subst (λ x. Grows w.fs x) same (Grows-refl w.fs f), cc, λ q. same)
descend_ok fd d (part ∷ parts) create_dir w w1 f h =
    let (i, w2, p, q) =
      bind_ok (on_error (open_next fd part create_dir) close)
        (λ i u. descend i parts create_dir (close u)) w w1 d h in
    let (g, e, s) =
      open_next_ok fd i part create_dir w w2 f
        (catch_ok (open_next fd part create_dir) _ w w2 i (on_error-Reraises close) p) in
    let (g', r, s') = descend_ok i d parts create_dir (close w2) w1 g.is_fresh q in
    (Grows-trans w.fs w2.fs w1.fs g g', (i, g'.keeps fd i part e, r), λ x. s x ∙ s' x)

pub less_one : (n : ℕ) → (suc n - 1) ≡ n
less_one n = omega arith

open_next-calm :
    (fs : Fs) (n fd j : ℕ) (part : Text) (create_dir : Bool)
    → Enters fs fd part j
    → open_next fd part create_dir (calm fs n) ≡ (ok j, calm fs (suc n))
unfolding open_next
open_next-calm fs n fd j part false e = rw (open_directory_at-calm fs n fd j part e) refl
open_next-calm fs n fd j part true e =
    rw (mkdir_at-calm fs n fd j part e, open_directory_at-calm fs n fd j part e) refl

pub descend-calm :
    (fs : Fs) (n fd d : ℕ) (parts : List Text) (create_dir : Bool)
    → Resolves fs fd parts d
    → descend fd parts create_dir (calm fs (suc n)) ≡ (ok d, calm fs (suc n))
unfolding descend
descend-calm fs n fd d [] create_dir r = rw r refl
descend-calm fs n fd d (part ∷ parts) create_dir (j, e, r) =
    rw (open_next-calm fs (suc n) fd j part create_dir e, less_one (suc n))
      (descend-calm fs n j d parts create_dir r)

-- The parent directory, around a body that returns.
pub with_parent_ok {ℓ} :
    {A : Type ℓ} (root : ℕ) (path : Text) (create_dir : Bool) (body : ℕ → Text → Exec A)
    (w w1 : World) (a : A)
    → IsFresh w.fs
    → with_parent root path create_dir body w ≡ (ok a, w1)
    → (d : ℕ) × (w2 : World) × (w3 : World) × Grows w.fs w2.fs
      × Resolves w2.fs root (init (split slash path)) d
      × (create_dir ≡ false → w.fs ≡ w2.fs)
      × (body d (last (split slash path)) w2 ≡ (ok a, w3))
      × (w3.fs ≡ w1.fs)
unfolding with_parent
with_parent_ok root path create_dir body w w1 a f h =
    let (fd, w0, p, q) = bind_ok (open_root root) _ w w1 a h in
    let (e, same, dir) = open_root_ok root fd w w0 p in
    let (d, w2, p2, q2) = bind_ok (descend fd (init (split slash path)) create_dir) _ w0 w1 a q in
    let (g, r, s) =
      descend_ok fd d (init (split slash path)) create_dir w0 w2 (subst IsFresh same f) p2 in
    let (w3, p3, q3) = finally_ok (body d (last (split slash path))) close w2 w1 a q2 in
    (
      d,
      w2,
      w3,
      subst (λ x. Grows x w2.fs) (sym same) g,
      subst (λ x. Resolves w2.fs x (init (split slash path)) d) (sym e) r,
      λ x. same ∙ s x,
      p3,
      ap fs_of q3,
    )
