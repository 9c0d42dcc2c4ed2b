-- ===== src/Routes/Resources.antt =====
-- What a handler takes from the session manager, it gives back: the lock, the slot and the ephemeral
-- session, by a machine that reads the calls.
use code_executor_api.Prelude.{
  ℕ, Text, ◌≡◌, refl, Bool, true, false, Option, none, some, List, [], ◌∷◌, Result, ok, err,
  Bool-cases, inl, inr, arith, codes,
}
use code_executor_api.Config.{Limits}
use code_executor_api.Manager.{SessionError}
use code_executor_api.FileSystem.{Exec}
use code_executor_api.Routes.{
  Failure, Call, creates, deletes, locks, unlocks, takes_slot, drops_slot, Local, Handler, pure,
  ◌>>=◌, ◌>>◌, catch, finally, continue, handle, files, checked, with_lock, with_slot,
}
use code_executor_api.Languages.{Invalid, validate_language, validate_code}
use code_executor_api.Routes.Uploads.{
  Part, Fields, Progress, goes_on, returns, decoded_text, stage_part, as_unsupported, as_malformed,
  validated, is_named, proceed, read_text_part, take_part, read_parts, commit_all, discard_all,
  take_uploads,
}

-- An ephemeral session, the lock, a slot.
abbrev pub Held : Type 0
Held = Bool × Bool × Bool

abbrev pub nothing_held : Held
nothing_held = (false, false, false)

-- A call in order: a session is created and deleted outside the lock, a slot is held only under it.
abbrev pub advance : Call → Option Held → Option Held
advance creates (some (false, false, false)) = some (true, false, false)
advance deletes (some (true, false, false)) = some (false, false, false)
advance locks (some (e, false, false)) = some (e, true, false)
advance unlocks (some (e, true, false)) = some (e, false, false)
advance takes_slot (some (e, true, false)) = some (e, true, true)
advance drops_slot (some (e, true, true)) = some (e, true, false)
advance _ _ = none

-- What is held after the calls; none if one was out of order.
unfoldable pub held : List Call → Option Held
held [] = some nothing_held
held (c ∷ calls) = advance c (held calls)

abbrev pub Restores {ℓ} : {A : Type ℓ} → Held → Handler A → Type 0
Restores h m = (s : Local) → held s.calls ≡ some h → held (m s).1.calls ≡ some h

module _ {ℓ} {A : Type ℓ} (h : Held) where
  pub Restores-pure : (a : A) → Restores h (pure a)
  Restores-pure a s e = e

  pub Restores-files : (m : Exec A) → Restores h (files m)
  unfolding files
  Restores-files m s e = e

  pub Restores-catch :
      (m : Handler A) (c : Failure → Handler A)
      → Restores h m
      → ((f : Failure) → Restores h (c f))
      → Restores h (catch m c)
  unfolding catch
  Restores-catch m c hm hc s e = handled (m s).0 (m s).1 (hm s e)
    where
      handled :
          (r : Result Failure A) (t : Local)
          → held t.calls ≡ some h
          → held (handle r c t).1.calls ≡ some h
      handled (ok a) t p = p
      handled (err f) t p = hc f t p

  pub Restores-finally :
      (m : Handler A) (c : Handler (Unit {0}))
      → Restores h m
      → Restores h c
      → Restores h (finally m c)
  unfolding finally
  Restores-finally m c hm hc s e = hc (m s).1 (hm s e)

module _ {ℓ κ} {A : Type ℓ} {B : Type κ} (h : Held) where
  pub Restores-bind :
      (m : Handler A) (f : A → Handler B)
      → Restores h m
      → ((a : A) → Restores h (f a))
      → Restores h (m >>= f)
  unfolding ◌>>=◌
  Restores-bind m f hm hf s e = continued (m s).0 (m s).1 (hm s e)
    where
      continued :
          (r : Result Failure A) (t : Local)
          → held t.calls ≡ some h
          → held (continue r f t).1.calls ≡ some h
      continued (ok a) t p = hf a t p
      continued (err x) t p = p

pub Restores-then {ℓ κ} :
    {A : Type ℓ} {B : Type κ} (h : Held) (m : Handler A) (n : Handler B)
    → Restores h m
    → Restores h n
    → Restores h (m >> n)
unfolding ◌>>◌
Restores-then h m n hm hn = Restores-bind h m (λ _. n) hm (λ _. hn)

pub Restores-checked {ℓ} : {A : Type ℓ} (h : Held) (r : Result Invalid A) → Restores h (checked r)
unfolding checked
Restores-checked h (ok a) s e = e
Restores-checked h (err x) s e = e

pub Restores-with_slot {ℓ} :
    {A : Type ℓ} (b : Bool) (a : Result SessionError (Unit {0})) (body : Handler A)
    → Restores (b, true, true) body
    → Restores (b, true, false) (with_slot a body)
unfolding with_slot held ◌>>◌ ◌>>=◌ finally
Restores-with_slot b (err x) body hb s e = e
Restores-with_slot b (ok u) body hb s e =
    rw (hb (record s { calls = takes_slot ∷ s.calls }) (rw e refl)) refl

pub Restores-with_lock {ℓ} :
    {A : Type ℓ} (b : Bool) (a : Result SessionError ℕ) (body : ℕ → Handler A)
    → ((root : ℕ) → Restores (b, true, false) (body root))
    → Restores (b, false, false) (with_lock a body)
unfolding with_lock held ◌>>◌ ◌>>=◌ finally
Restores-with_lock b (err x) body hb s e = e
Restores-with_lock b (ok root) body hb s e =
    rw (hb root (record s { calls = locks ∷ s.calls }) (rw e refl)) refl

pub Restores-raising {ℓ κ} :
    {A : Type ℓ} {B : Type κ} (h : Held) (m : Handler A) (f : Result Failure A → Handler B)
    → Restores h m
    → ((r : Result Failure A) → Restores h (f r))
    → Restores h (λ s. f (m s).0 (m s).1)
Restores-raising h m f hm hf s e = hf (m s).0 (m s).1 (hm s e)

-- One lemma for each part of the handler.
module _ (h : Held) where
  Restores-read_text_part : (p : Part) (n : ℕ) → Restores h (read_text_part p n)
  unfolding read_text_part
  Restores-read_text_part p n = Restores-bind h _ _ (λ s e. e) (λ b. decoded (p.decoded b))
    where
      decoded : (o : Option Text) → Restores h (decoded_text o)
      decoded none s e = e
      decoded (some t) s e = e

  Restores-stage_part :
      (limits : Limits) (root : ℕ) (p : Part) (fields : Fields) (name : Option Text)
      → Restores h (stage_part limits root p fields name)
  Restores-stage_part limits root p fields none = λ s e. e
  Restores-stage_part limits root p fields (some name) =
      Restores-bind h _ _ (Restores-files h _) (λ entry s e. e)

  Restores-as_unsupported : (f : Failure) → Restores h (as_unsupported f)
  Restores-as_unsupported f s e = ground arith

  Restores-take_part :
      (limits : Limits) (is_space : ℕ → Bool) (root : ℕ) (p : Part) (fields : Fields)
      → Restores h (take_part limits is_space root p fields)
  unfolding take_part
  Restores-take_part limits is_space root p (language, code) =
      elim (Bool-cases (is_named (codes "language") p.name)) [
        | inl a ↦ rw a (
            Restores-bind h _ _
              (Restores-catch h _ _ (Restores-read_text_part p 64) Restores-as_unsupported)
              (λ text s e. e))
        | inr a ↦ rw a (elim (Bool-cases (is_named (codes "code") p.name)) [
          | inl b ↦ rw b (
              Restores-bind h _ _ (Restores-read_text_part p limits.max_code_length)
                (λ text s e. e))
          | inr b ↦ rw b (elim (Bool-cases (is_named (codes "attachments") p.name)) [
            | inl c ↦ rw c (Restores-stage_part limits root p (language, code) p.filename)
            | inr c ↦ rw c (λ s e. e)
          ])
        ])
      ]

  Restores-proceed :
      (f : Fields → Handler Progress)
      → ((fields : Fields) → Restores h (f fields))
      → (r : Progress) → Restores h (proceed f r)
  Restores-proceed f hf (goes_on fields) = hf fields
  Restores-proceed f hf (returns status message) = λ s e. e

  Restores-read_parts :
      (limits : Limits) (is_space : ℕ → Bool) (root : ℕ) (parts : List (Result Failure Part))
      (fields : Fields)
      → Restores h (read_parts limits is_space root parts fields)
  unfolding read_parts
  Restores-read_parts limits is_space root [] fields = λ s e. e
  Restores-read_parts limits is_space root (err f ∷ parts) fields = λ s e. e
  Restores-read_parts limits is_space root (ok p ∷ parts) fields =
      Restores-bind h _ _ (Restores-take_part limits is_space root p fields)
        (Restores-proceed _ (λ f. Restores-read_parts limits is_space root parts f))

  Restores-commit_all :
      (root : ℕ) (staged : List (Text × Text)) → Restores h (commit_all root staged)
  unfolding commit_all
  Restores-commit_all root [] = λ s e. e
  Restores-commit_all root ((path, name) ∷ rest) =
      Restores-then h _ _ (Restores-then h _ _ (Restores-files h _) (λ s e. e))
        (Restores-commit_all root rest)

  Restores-discard_all :
      (root : ℕ) (staged : List (Text × Text)) → Restores h (discard_all root staged)
  unfolding discard_all
  Restores-discard_all root [] = λ s e. e
  Restores-discard_all root ((path, name) ∷ rest) =
      Restores-then h _ _ (Restores-files h _) (Restores-discard_all root rest)

  Restores-as_malformed : (f : Failure) → Restores h (as_malformed f)
  Restores-as_malformed f s e = ground arith

  Restores-validated : (root : ℕ) (r : Progress) → Restores h (validated root r)
  Restores-validated root (returns status message) = λ s e. e
  Restores-validated root (goes_on (language, code)) =
      Restores-bind h _ _ (Restores-checked h (validate_language language)) (λ l.
        Restores-bind h _ _ (Restores-checked h (validate_code code))
          (λ c. Restores-then h _ _ (λ s. Restores-commit_all root s.staged s) (λ s e. e)))

  pub Restores-take_uploads :
      (limits : Limits) (is_space : ℕ → Bool) (root : ℕ) (parts : List (Result Failure Part))
      → Restores h (take_uploads limits is_space root parts)
  unfolding take_uploads
  Restores-take_uploads limits is_space root parts =
      Restores-finally h _ _
        (Restores-bind h _ _
          (Restores-catch h _ _ (Restores-read_parts limits is_space root parts (none, none))
            Restores-as_malformed)
          (Restores-validated root))
        (λ s. Restores-discard_all root s.staged s)
