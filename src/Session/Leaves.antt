-- ===== src/Session/Leaves.antt =====
-- What the walk of `Session._open_parent` leaves as it was, and what a body that it is around may rely
-- on.
use code_executor_api.Prelude.{
  ℕ, ◌==◌, ==_iff, Text, split, ◌≡◌, refl, sym, subst, ◌∙◌, Bool, true, false, Bool-cases, inl, inr,
  List, [], ◌∷◌, Result,
}
use code_executor_api.Path.{slash}
use code_executor_api.FileSystem.{
  eloop, enotdir, eexist, Exception, os_error, Bytes, Fs, World, Exec, close, catch, on_error,
  ◌>>=◌,
}
use code_executor_api.FileSystem.Calls.{open_root, open_directory_at, mkdir_at}
use code_executor_api.FileSystem.Outcomes.{
  Ends, Ends-both, Ends-weaken, bind-Ends, catch-Ends, finally-Ends,
}
use code_executor_api.FileSystem.Resolve.{Resolves, Grows-trans}
use code_executor_api.FileSystem.Effects.{Holds, open_root_ok}
use code_executor_api.Session.Walks.{descend_ok}
use code_executor_api.FileSystem.Spares.{Spares, Every}
use code_executor_api.FileSystem.Touches.{mkdir_at-Ends, open_root-Ends, open_directory_at-Ends}
use code_executor_api.Session.{
  as_not_found, ignore_exists, open_next, descend, init, last, with_parent,
}

-- Every file of `base` is where it was, with what it held.
abbrev pub Intact : Fs → Fs → Type 0
Intact base fs = Spares Every base fs

pub then-Intact : (base fs fs' : Fs) → Intact base fs → Spares Every fs fs' → Intact base fs'
then-Intact base fs fs' s t = record {
  grows = Grows-trans base fs fs' s.grows t.grows;
  files = λ k i name b o h. t.files k i name b tt (s.files k i name b tt h);
}

-- `base` has no file of this inode.
abbrev pub Free : Fs → ℕ → Type 0
Free base m = (k : ℕ) (name : Text) (b : Bytes) → Holds base k name m b → ⊥

-- A file that `base` does not have may change.
pub written-Intact :
    (base fs fs' : Fs) (m : ℕ)
    → Free base m
    → Intact base fs
    → Spares (λ k name i. (m == i) ≡ false) fs fs'
    → Intact base fs'
written-Intact base fs fs' m u s t = record {
  grows = Grows-trans base fs fs' s.grows t.grows;
  files = λ k i name b o (c, r).
      t.files k i name b
        (elim (Bool-cases (m == i)) [
          | inl e ↦
              absurd
                (u k name b (subst (λ x. Holds base k name x b) (sym ((==_iff m i).0 e)) (c, r)))
          | inr e ↦ e
        ])
        (s.files k i name b tt (c, r));
}

-- `base` has no file of this name in the directory `d`.
abbrev pub Unused : Fs → ℕ → Text → Type 0
Unused base d name = (i : ℕ) (b : Bytes) → Holds base d name i b → ⊥

pub unlinked-Intact :
    (base fs fs' : Fs) (d : ℕ) (name : Text)
    → Unused base d name
    → Intact base fs
    → Spares (λ k nm i. (d ≡ k) → (name ≡ nm) → ⊥) fs fs'
    → Intact base fs'
unlinked-Intact base fs fs' d name u s t = record {
  grows = Grows-trans base fs fs' s.grows t.grows;
  files = λ k i nm b o h.
      t.files k i nm b
        (λ same e.
          u i b (
            subst (λ x. Holds base d x i b) (sym e)
              (subst (λ x. Holds base x nm i b) (sym same) h)))
        (s.files k i nm b tt h);
}

-- However the action ends, every file of `base` is as it was.
abbrev pub Leaves {ℓ} : {A : Type ℓ} → Fs → Result Exception A × World → Type 0
Leaves base x = Ends (Intact base) (λ a. Intact base) x

module _ (base : Fs) where
  pub Leaves-bind {ℓ κ} :
      {A : Type ℓ} {B : Type κ} (m : Exec A) (f : A → Exec B) (w : World)
      → Leaves base (m w)
      → ((a : A) (w1 : World) → Intact base w1.fs → Leaves base (f a w1))
      → Leaves base ((m >>= f) w)
  Leaves-bind m f w = bind-Ends (Intact base) (λ a. Intact base) (λ b. Intact base) m f w

  pub Leaves-catch {ℓ} :
      {A : Type ℓ} (m : Exec A) (g : Exception → Exec A) (w : World)
      → Leaves base (m w)
      → ((e : Exception) (w1 : World) → Intact base w1.fs → Leaves base (g e w1))
      → Leaves base (catch m g w)
  Leaves-catch m g w = catch-Ends (Intact base) (Intact base) (λ a. Intact base) m g w

  -- Handlers that raise or return change nothing.
  ignore_exists-Leaves :
      (e : Exception) (w : World) → Intact base w.fs → Leaves base (ignore_exists e w)
  ignore_exists-Leaves (os_error eexist) w s = s
  ignore_exists-Leaves (os_error _) w s = s
  ignore_exists-Leaves _ w s = s

  as_not_found-Leaves :
      (e : Exception) (w : World) → Intact base w.fs → Leaves base (as_not_found e w)
  as_not_found-Leaves (os_error eloop) w s = s
  as_not_found-Leaves (os_error enotdir) w s = s
  as_not_found-Leaves (os_error _) w s = s
  as_not_found-Leaves _ w s = s

  open_existing-Leaves :
      (fd : ℕ) (part : Text) (w : World)
      → Intact base w.fs
      → Leaves base (catch (open_directory_at fd part) as_not_found w)
  open_existing-Leaves fd part w s =
      Leaves-catch (open_directory_at fd part) as_not_found w
        (open_directory_at-Ends (Intact base) fd part w s) as_not_found-Leaves

  open_next-Leaves :
      (fd : ℕ) (part : Text) (create_dir : Bool) (w : World)
      → Intact base w.fs
      → Leaves base (open_next fd part create_dir w)
  unfolding open_next
  open_next-Leaves fd part false w s = open_existing-Leaves fd part w s
  open_next-Leaves fd part true w s =
      Leaves-bind (catch (mkdir_at fd part) ignore_exists) _ w
        (Leaves-catch (mkdir_at fd part) ignore_exists w
          (mkdir_at-Ends (Intact base) (λ i. Intact base) fd part w s.grows.is_fresh s
            (λ i fs t. then-Intact base w.fs fs s t))
          ignore_exists-Leaves)
        (λ i w1 s1. open_existing-Leaves fd part w1 s1)

  descend-Leaves :
      (fd : ℕ) (parts : List Text) (create_dir : Bool) (w : World)
      → Intact base w.fs
      → Leaves base (descend fd parts create_dir w)
  unfolding descend
  descend-Leaves fd [] create_dir w s = s
  descend-Leaves fd (part ∷ parts) create_dir w s =
      Leaves-bind (on_error (open_next fd part create_dir) close) _ w
        (Leaves-catch (open_next fd part create_dir) _ w (open_next-Leaves fd part create_dir w s)
          (λ e w1 s1. s1))
        (λ i w1 s1. descend-Leaves i parts create_dir (close w1) s1)

-- The parent directory, around a body that may end in any way.
pub with_parent-Ends {ℓ} :
    {A : Type ℓ} (base : Fs) (E : Fs → Type 0) (Q : A → Fs → Type 0) (root : ℕ) (path : Text)
    (create_dir : Bool) (body : ℕ → Text → Exec A) (w : World)
    → Intact base w.fs
    → ((fs : Fs) → Intact base fs → E fs)
    → ((d : ℕ) (w1 : World)
        → Intact base w1.fs
        → Resolves w1.fs root (init (split slash path)) d
        → (create_dir ≡ false → w.fs ≡ w1.fs)
        → Ends E Q (body d (last (split slash path)) w1))
    → Ends E Q (with_parent root path create_dir body w)
unfolding with_parent
with_parent-Ends base E Q root path create_dir body w s weaken k =
    bind-Ends E (λ fd fs. Intact base fs × ((root ≡ fd) × (w.fs ≡ fs))) Q (open_root root) _ w
      (Ends-weaken (Intact base) (λ fd fs. Intact base fs × ((root ≡ fd) × (w.fs ≡ fs))) E _
        (open_root root w) weaken (λ fd fs p. p)
        (Ends-both (Intact base) (λ fd. Intact base) (λ fd fs. (root ≡ fd) × (w.fs ≡ fs))
          (open_root root) w (open_root-Ends (Intact base) root w s)
          (λ fd w1 e. let (p, q, dir) = open_root_ok root fd w w1 e in (p, q))))
      (λ fd w1 (s1, (p, q)).
        bind-Ends E (λ d fs. Intact base fs × Found w1 fd d fs) Q (descend fd parts create_dir) _ w1
          (Ends-weaken (Intact base) (λ d fs. Intact base fs × Found w1 fd d fs) E _
            (descend fd parts create_dir w1) weaken (λ d fs r. r)
            (Ends-both (Intact base) (λ d. Intact base) (Found w1 fd) (descend fd parts create_dir)
              w1 (descend-Leaves base fd parts create_dir w1 s1)
              (λ d w2 e.
                let (g, r, t) = descend_ok fd d parts create_dir w1 w2 s1.grows.is_fresh e in
                (r, t))))
          (λ d w2 (s2, (r, t)).
            finally-Ends E Q (body d (last (split slash path))) close w2 (λ u. refl)
              (k d w2 s2 (subst (λ x. Resolves w2.fs x parts d) (sym p) r) (λ x. q ∙ t x))))
  where
    parts : List Text
    parts = init (split slash path)

    Found : World → ℕ → ℕ → Fs → Type 0
    Found w1 fd d fs = Resolves fs fd parts d × (create_dir ≡ false → w1.fs ≡ fs)
