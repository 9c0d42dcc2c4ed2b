-- ===== src/FileSystem/Returns.antt =====
-- What an action that returns has gone through, one rule for each way to build an action.
use code_executor_api.Prelude.{
  ℕ, ◌≡◌, refl, ap, ◌∙◌, Option, none, some, List, [], ◌∷◌, Result, ok, err, inl, inr, ◌⊎◌,
}
use code_executor_api.FileSystem.{
  Errno, other_errno, Exception, Fs, World, Exec, continue, handle, ◌>>=◌, catch, finally, perform,
  interrupted, syscall, opened, open_call,
}

module _ {ℓ κ} {A : Type ℓ} {B : Type κ} where
  pub bind_ok :
      (m : Exec A) (f : A → Exec B) (w w2 : World) (b : B)
      → (m >>= f) w ≡ (ok b, w2)
      → (a : A) × (w1 : World) × (m w ≡ (ok a, w1)) × (f a w1 ≡ (ok b, w2))
  bind_ok m f w w2 b h = continued (m w) h
    where
      continued :
          (x : Result Exception A × World)
          → continue x.0 f x.1 ≡ (ok b, w2)
          → (a : A) × (w1 : World) × (x ≡ (ok a, w1)) × (f a w1 ≡ (ok b, w2))
      continued (ok a, w1) p = (a, w1, refl, p)
      continued (err e, w1) p = cc

-- A handler that raises whatever it is given.
abbrev pub Reraises {ℓ} : {A : Type ℓ} → (Exception → Exec A) → Type ℓ
Reraises {A = A} g = (e : Exception) (w w1 : World) (a : A) → g e w ≡ (ok a, w1) → ⊥

pub on_error-Reraises {ℓ} :
    {A : Type ℓ} (c : World → World) → Reraises {A = A} (λ e w. (err e, c w))
on_error-Reraises c e w w1 a h = cc

module _ {ℓ} {A : Type ℓ} where
  pub catch_ok :
      (m : Exec A) (g : Exception → Exec A) (w w1 : World) (a : A)
      → Reraises g
      → catch m g w ≡ (ok a, w1)
      → m w ≡ (ok a, w1)
  catch_ok m g w w1 a r h = handled (m w) h
    where
      handled : (x : Result Exception A × World) → handle x.0 g x.1 ≡ (ok a, w1) → x ≡ (ok a, w1)
      handled (ok b, w2) p = p
      handled (err e, w2) p = absurd (r e w2 w1 a p)

  pub catch_returns :
      (m : Exec A) (g : Exception → Exec A) (w : World) (a : A)
      → (m w).0 ≡ ok a
      → (catch m g w).0 ≡ ok a
  catch_returns m g w a h = rw h refl

  pub catch-cases :
      (m : Exec A) (g : Exception → Exec A) (w w1 : World) (a : A)
      → catch m g w ≡ (ok a, w1)
      → (m w ≡ (ok a, w1))
        ⊎ ((e : Exception) × (w2 : World) × (m w ≡ (err e, w2)) × (g e w2 ≡ (ok a, w1)))
  catch-cases m g w w1 a h = handled (m w) h
    where
      handled :
          (x : Result Exception A × World)
          → handle x.0 g x.1 ≡ (ok a, w1)
          → (x ≡ (ok a, w1))
            ⊎ ((e : Exception) × (w2 : World) × (x ≡ (err e, w2)) × (g e w2 ≡ (ok a, w1)))
      handled (ok b, w2) p = inl p
      handled (err e, w2) p = inr (e, w2, refl, p)

  pub finally_ok :
      (m : Exec A) (c : World → World) (w w2 : World) (a : A)
      → finally m c w ≡ (ok a, w2)
      → (w1 : World) × (m w ≡ (ok a, w1)) × (c w1 ≡ w2)
  finally_ok m c w w2 a h = cleaned (m w) h
    where
      cleaned :
          (x : Result Exception A × World)
          → (◌≡◌ {A = Result Exception A × World} (x.0, c x.1) (ok a, w2))
          → (w1 : World) × (x ≡ (ok a, w1)) × (c w1 ≡ w2)
      cleaned (ok b, w1) p = (w1, cc, cc)
      cleaned (err e, w1) p = cc

  abbrev fs_after : Result Exception A × World → Fs
  fs_after (r, w) = w.fs

  abbrev answer : Result Exception A × World → Result Errno (A × Fs)
  answer (ok a, w) = ok (a, w.fs)
  answer (err e, w) = err other_errno

  pub perform_ok :
      (r : Result Errno (A × Fs)) (w w1 : World) (a : A)
      → perform r w ≡ (ok a, w1)
      → r ≡ ok (a, w1.fs)
  perform_ok (ok (b, fs)) w w1 a h = ap answer h
  perform_ok (err e) w w1 a h = cc

  pub syscall_ok :
      (c : Fs → Result Errno (A × Fs)) (w w1 : World) (a : A)
      → syscall c w ≡ (ok a, w1)
      → c w.fs ≡ ok (a, w1.fs)
  unfolding syscall
  syscall_ok c w w1 a h = met w.faults h
    where
      met :
          (faults : List (Option Errno))
          → interrupted faults c w ≡ (ok a, w1)
          → c w.fs ≡ ok (a, w1.fs)
      met [] p = perform_ok (c w.fs) w w1 a p
      met (none ∷ faults) p = perform_ok (c w.fs) (record w { faults = faults }) w1 a p
      met (some e ∷ faults) p = cc

  -- A call that fails changes nothing.
  pub syscall_err :
      (c : Fs → Result Errno (A × Fs)) (w w1 : World) (e : Exception)
      → syscall c w ≡ (err e, w1)
      → w.fs ≡ w1.fs
  unfolding syscall
  syscall_err c w w1 e h = met w.faults h
    where
      failed : (r : Result Errno (A × Fs)) (u : World) → perform r u ≡ (err e, w1) → u.fs ≡ w1.fs
      failed (ok (b, fs)) u p = cc
      failed (err x) u p = ap fs_after p

      met : (faults : List (Option Errno)) → interrupted faults c w ≡ (err e, w1) → w.fs ≡ w1.fs
      met [] p = failed (c w.fs) w p
      met (none ∷ faults) p = failed (c w.fs) (record w { faults = faults }) p
      met (some x ∷ faults) p = ap fs_after p

pub open_call_ok :
    (c : Fs → Result Errno (ℕ × Fs)) (w w1 : World) (fd : ℕ)
    → open_call c w ≡ (ok fd, w1)
    → c w.fs ≡ ok (fd, w1.fs)
unfolding open_call
open_call_ok c w w1 fd h = opened_ok (syscall c w) refl h
  where
    opened_ok :
        (x : Result Exception ℕ × World)
        → syscall c w ≡ x
        → opened x ≡ (ok fd, w1)
        → c w.fs ≡ ok (fd, w1.fs)
    opened_ok (ok i, w2) e p = syscall_ok c w w2 i e ∙ ap answer p
    opened_ok (err x, w2) e p = cc
