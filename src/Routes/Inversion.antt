-- ===== src/Routes/Inversion.antt =====
-- What an action that returns has gone through.
use code_executor_api.Prelude.{◌≡◌, refl, Result, ok, err}
use code_executor_api.Languages.{Invalid}
use code_executor_api.Routes.{Failure, Local, Handler, ◌>>=◌, finally, checked, continue, resume}

pub ok_inj {ℓ} :
    {A : Type ℓ} (a b : A) (s t : Local)
    → (◌≡◌ {A = Result Failure A × Local} (ok a, s) (ok b, t))
    → a ≡ b
ok_inj a b s t h = cc

pub bind_ok {ℓ κ} :
    {A : Type ℓ} {B : Type κ} (m : Handler A) (f : A → Handler B) (s t : Local) (b : B)
    → (m >>= f) s ≡ (ok b, t)
    → (a : A) × ((m s).0 ≡ ok a) × (f a (m s).1 ≡ (ok b, t))
unfolding ◌>>=◌
bind_ok {A = A} {B = B} m f s t b h = continued (m s).0 (m s).1 h
  where
    continued :
        (r : Result Failure A) (u : Local)
        → continue r f u ≡ (ok b, t)
        → (a : A) × (r ≡ ok a) × (f a u ≡ (ok b, t))
    continued (ok a) u p = (a, refl, p)
    continued (err e) u p = cc

pub finally_ok {ℓ} :
    {A : Type ℓ} (m : Handler A) (c : Handler (Unit {0})) (s t : Local) (a : A)
    → finally m c s ≡ (ok a, t)
    → ((m s).0 ≡ ok a) × ((c (m s).1).1 ≡ t)
unfolding finally
finally_ok {A = A} m c s t a h = resumed (m s).0 (c (m s).1).0 (c (m s).1).1 h
  where
    resumed :
        (r : Result Failure A) (q : Result Failure (Unit {0})) (u : Local)
        → (◌≡◌ {A = Result Failure A × Local} (resume r q, u) (ok a, t))
        → (r ≡ ok a) × (u ≡ t)
    resumed (ok b) (ok v) u p = (cc, cc)
    resumed (ok b) (err e) u p = cc
    resumed (err f) (ok v) u p = cc
    resumed (err f) (err e) u p = cc

pub checked_ok {ℓ} :
    {A : Type ℓ} (r : Result Invalid A) (s : Local) (a : A) → (checked r s).0 ≡ ok a → r ≡ ok a
unfolding checked
checked_ok (ok b) s a h = cc
checked_ok (err e) s a h = cc

-- A check changes nothing.
pub checked_same {ℓ} : {A : Type ℓ} (r : Result Invalid A) (s : Local) → (checked r s).1 ≡ s
unfolding checked
checked_same (ok a) s = refl
checked_same (err e) s = refl
