-- ===== src/FileSystem/Outcomes.antt =====
-- What holds of the file system after an action, however it ends: one rule for each way to build an
-- action.
use code_executor_api.Prelude.{
  ℕ, ◌≡◌, refl, sym, subst, Option, none, some, List, [], ◌∷◌, Result, ok, err,
}
use code_executor_api.FileSystem.{
  Errno, Exception, Fs, World, Exec, continue, handle, ◌>>=◌, catch, finally, perform, interrupted,
  syscall, opened, open_call,
}

-- `Q` holds of what is returned and of the file system then, and `E` of the file system after an
-- exception.
abbrev pub Ends {ℓ} :
    {A : Type ℓ} → (Fs → Type 0) → (A → Fs → Type 0) → Result Exception A × World → Type 0
Ends E Q (ok a, w) = Q a w.fs
Ends E Q (err e, w) = E w.fs

module _ {ℓ κ} {A : Type ℓ} {B : Type κ} (E : Fs → Type 0) (Q : A → Fs → Type 0)
    (R : B → Fs → Type 0) where
  pub bind-Ends :
      (m : Exec A) (f : A → Exec B) (w : World)
      → Ends E Q (m w)
      → ((a : A) (w1 : World) → Q a w1.fs → Ends E R (f a w1))
      → Ends E R ((m >>= f) w)
  bind-Ends m f w h k = continued (m w) h
    where
      continued : (x : Result Exception A × World) → Ends E Q x → Ends E R (continue x.0 f x.1)
      continued (ok a, w1) p = k a w1 p
      continued (err e, w1) p = p

module _ {ℓ} {A : Type ℓ} (E F : Fs → Type 0) (Q : A → Fs → Type 0) where
  pub catch-Ends :
      (m : Exec A) (g : Exception → Exec A) (w : World)
      → Ends E Q (m w)
      → ((e : Exception) (w1 : World) → E w1.fs → Ends F Q (g e w1))
      → Ends F Q (catch m g w)
  catch-Ends m g w h k = handled (m w) h
    where
      handled : (x : Result Exception A × World) → Ends E Q x → Ends F Q (handle x.0 g x.1)
      handled (ok a, w1) p = p
      handled (err e, w1) p = k e w1 p

module _ {ℓ} {A : Type ℓ} (E : Fs → Type 0) (Q : A → Fs → Type 0) where
  -- What is done in any case leaves the file system alone.
  pub finally-Ends :
      (m : Exec A) (c : World → World) (w : World)
      → ((u : World) → (c u).fs ≡ u.fs)
      → Ends E Q (m w)
      → Ends E Q (finally m c w)
  finally-Ends m c w s h = cleaned (m w) h
    where
      cleaned : (x : Result Exception A × World) → Ends E Q x → Ends E Q (x.0, c x.1)
      cleaned (ok a, w1) p = subst (Q a) (sym (s w1)) p
      cleaned (err e, w1) p = subst E (sym (s w1)) p

  pub Ends-weaken :
      (F : Fs → Type 0) (R : A → Fs → Type 0) (x : Result Exception A × World)
      → ((fs : Fs) → E fs → F fs)
      → ((a : A) (fs : Fs) → Q a fs → R a fs)
      → Ends E Q x
      → Ends F R x
  Ends-weaken F R (ok a, w) f g h = g a w.fs h
  Ends-weaken F R (err e, w) f g h = f w.fs h

  -- A call fails and changes nothing, or does what it does.
  pub syscall-Ends :
      (c : Fs → Result Errno (A × Fs)) (w : World)
      → E w.fs
      → ((a : A) (fs : Fs) → c w.fs ≡ ok (a, fs) → Q a fs)
      → Ends E Q (syscall c w)
  unfolding syscall
  syscall-Ends c w e q = met w.faults
    where
      performed :
          (r : Result Errno (A × Fs)) (u : World)
          → u.fs ≡ w.fs
          → c w.fs ≡ r
          → Ends E Q (perform r u)
      performed (ok (a, fs)) u s p = q a fs p
      performed (err x) u s p = subst E (sym s) e

      met : (faults : List (Option Errno)) → Ends E Q (interrupted faults c w)
      met [] = performed (c w.fs) w refl refl
      met (none ∷ faults) = performed (c w.fs) (record w { faults = faults }) refl refl
      met (some x ∷ faults) = e

pub open_call-Ends :
    (E : Fs → Type 0) (Q : ℕ → Fs → Type 0) (c : Fs → Result Errno (ℕ × Fs)) (w : World)
    → E w.fs
    → ((fd : ℕ) (fs : Fs) → c w.fs ≡ ok (fd, fs) → Q fd fs)
    → Ends E Q (open_call c w)
unfolding open_call
open_call-Ends E Q c w e q = counted (syscall c w) (syscall-Ends E Q c w e q)
  where
    counted : (x : Result Exception ℕ × World) → Ends E Q x → Ends E Q (opened x)
    counted (ok fd, w1) p = p
    counted (err x, w1) p = p

-- What is known of an action that returns may be added.
pub Ends-both {ℓ} :
    {A : Type ℓ} (E : Fs → Type 0) (Q R : A → Fs → Type 0) (m : Exec A) (w : World)
    → Ends E Q (m w)
    → ((a : A) (w1 : World) → m w ≡ (ok a, w1) → R a w1.fs)
    → Ends E (λ a fs. Q a fs × R a fs) (m w)
Ends-both {A} E Q R m w h k = from (m w) refl h
  where
    from :
        (x : Result Exception A × World) → m w ≡ x → Ends E Q x → Ends E (λ a fs. Q a fs × R a fs) x
    from (ok a, w1) e p = (p, k a w1 e)
    from (err x, w1) e p = p
