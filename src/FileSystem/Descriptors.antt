-- ===== src/FileSystem/Descriptors.antt =====
-- How an action changes the number of open descriptors, one rule for each way to build an action.
use code_executor_api.Prelude.{ℕ, suc, ◌+◌, ◌≡◌, Result, ok, err, arith}
use code_executor_api.FileSystem.{
  Errno, Exception, Fs, World, Exec, pure, raise, lift, ◌>>=◌, ◌>>◌, catch, finally, on_error,
  close, syscall, open_call,
}

-- `b` descriptors are open after a return and `e` after a raise, beside the `n` others.
abbrev pub After {ℓ} : {A : Type ℓ} → ℕ → ℕ → ℕ → Result Exception A × World → Type 0
After b e n (ok x, w) = w.open_fds ≡ n + b
After b e n (err x, w) = w.open_fds ≡ n + e

-- From `a` descriptors the action goes to `b` if it returns, and to `e` if it raises.
pub record Moves {ℓ} {A : Type ℓ} (a b e : ℕ) (m : Exec A) : Type ℓ where
  pub at : (w : World) (n : ℕ) → w.open_fds ≡ n + a → After b e n (m w)

module _ {ℓ} {A : Type ℓ} where
  pub Moves-pure : (a e : ℕ) (x : A) → Moves a a e (pure x)
  Moves-pure a e x = record { at = λ w n h. h }

  pub Moves-raise : (a b : ℕ) (x : Exception) → Moves a b a (raise {A = A} x)
  Moves-raise a b x = record { at = λ w n h. h }

  pub Moves-lift : (a : ℕ) (r : Result Exception A) → Moves a a a (lift r)
  Moves-lift a (ok x) = record { at = λ w n h. h }
  Moves-lift a (err x) = record { at = λ w n h. h }

  pub Moves-syscall : (a : ℕ) (c : Fs → Result Errno (A × Fs)) → Moves a a a (syscall c)
  unfolding syscall
  Moves-syscall a c = record { at = λ w n h. ground arith }

  pub Moves-finally-close :
      (a b e : ℕ) (m : Exec A) → Moves a (suc b) (suc e) m → Moves a b e (finally m close)
  Moves-finally-close a b e m k = record { at = λ w n h. let q = k.at w n h in ground arith }

  pub Moves-on_error-close :
      (a b e : ℕ) (m : Exec A) → Moves a b (suc e) m → Moves a b e (on_error m close)
  Moves-on_error-close a b e m k = record { at = λ w n h. let q = k.at w n h in ground arith }

pub Moves-open : (a : ℕ) (c : Fs → Result Errno (ℕ × Fs)) → Moves a (suc a) a (open_call c)
unfolding open_call
Moves-open a c = record { at = λ w n h. let q = (Moves-syscall a c).at w n h in ground arith }

module _ {ℓ κ} {A : Type ℓ} {B : Type κ} where
  pub Moves-bind :
      (a b c e : ℕ) (m : Exec A) (f : A → Exec B)
      → Moves a b e m
      → ((x : A) → Moves b c e (f x))
      → Moves a c e (m >>= f)
  Moves-bind a b c e m f k l = record { at = λ w n h. go n (m w) (k.at w n h) }
    where
      go :
          (n : ℕ) (r : Result Exception A × World)
          → After b e n r
          → After c e n (let (s, w') = r in code_executor_api.FileSystem.continue s f w')
      go n (ok x, w) q = (l x).at w n q
      go n (err x, w) q = q

module _ {ℓ} {A : Type ℓ} where
  pub Moves-catch :
      (a b d e : ℕ) (m : Exec A) (g : Exception → Exec A)
      → Moves a b d m
      → ((x : Exception) → Moves d b e (g x))
      → Moves a b e (catch m g)
  Moves-catch a b d e m g k l = record { at = λ w n h. go n (m w) (k.at w n h) }
    where
      go :
          (n : ℕ) (r : Result Exception A × World)
          → After b d n r
          → After b e n (let (s, w') = r in code_executor_api.FileSystem.handle s g w')
      go n (ok x, w) q = q
      go n (err x, w) q = (l x).at w n q
