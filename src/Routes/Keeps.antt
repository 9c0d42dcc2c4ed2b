-- ===== src/Routes/Keeps.antt =====
-- Reading the parts of a request keeps every file of the session, and what it stages is none of them.
use code_executor_api.Prelude.{
  ℕ, Text, codes, split, Bool, true, false, Option, none, some, List, [], ◌∷◌, ◌++◌, All,
  All-append, Result, ok, err, if◌then◌else◌,
}
use code_executor_api.Config.{Limits}
use code_executor_api.Path.{slash}
use code_executor_api.FileSystem.{Exception, entity_too_large, Fs, World}
use code_executor_api.FileSystem.Outcomes.{Ends}
use code_executor_api.FileSystem.Resolve.{Resolves-Grows, Grows}
use code_executor_api.Content.{read_content}
use code_executor_api.Session.{init, stage_file}
use code_executor_api.Session.Leaves.{Intact, then-Intact}
use code_executor_api.Session.Stages.{Vacant, Unused-Intact, stage_file-Ends}
use code_executor_api.Routes.{
  Failure, of_files, malformed, bad_http, Local, Handler, raised, continue, handle, ◌>>=◌, catch,
  files,
}
use code_executor_api.Routes.Uploads.{
  Part, Fields, Progress, goes_on, returns, decoded_text, read_text_part, as_unsupported, is_named,
  stage_part, take_part, proceed, read_parts, as_malformed,
}

module _ (base : Fs) (root : ℕ) where
  -- Every file of `base` is as it was, and what is staged is none of its files.
  abbrev pub Kept : Local → Type 0
  Kept s =
      Intact base s.world.fs
      × All (λ (x : Text × Text). Vacant base root x.0 x.1 s.world.fs) s.staged

  -- The action keeps that, however it ends.
  abbrev pub Keeps {ℓ} : {A : Type ℓ} → Handler A → Type 0
  Keeps m = (s : Local) → Kept s → Kept (m s).1

  Keeps-bind {ℓ κ} :
      {A : Type ℓ} {B : Type κ} (m : Handler A) (f : A → Handler B)
      → Keeps m
      → ((a : A) → Keeps (f a))
      → Keeps (m >>= f)
  unfolding ◌>>=◌
  Keeps-bind {A} {B} m f h k s v = continued (m s) (h s v)
    where
      continued : (x : Result Failure A × Local) → Kept x.1 → Kept (continue x.0 f x.1).1
      continued (ok a, t) p = k a t p
      continued (err e, t) p = p

  pub Keeps-catch {ℓ} :
      {A : Type ℓ} (m : Handler A) (g : Failure → Handler A)
      → Keeps m
      → ((e : Failure) → Keeps (g e))
      → Keeps (catch m g)
  unfolding catch
  Keeps-catch {A} m g h k s v = handled (m s) (h s v)
    where
      handled : (x : Result Failure A × Local) → Kept x.1 → Kept (handle x.0 g x.1).1
      handled (ok a, t) p = p
      handled (err e, t) p = k e t p

  pub Vacant-Grows :
      (fs fs' : Fs) (l : List (Text × Text))
      → Grows fs fs'
      → All (λ (x : Text × Text). Vacant base root x.0 x.1 fs) l
      → All (λ (x : Text × Text). Vacant base root x.0 x.1 fs') l
  Vacant-Grows fs fs' [] g h = tt
  Vacant-Grows fs fs' ((path, name) ∷ l) g ((d, r, u), hs) = (
    (d, Resolves-Grows fs fs' root d (init (split slash path)) g r, u),
    Vacant-Grows fs fs' l g hs,
  )

  stage_part-Keeps :
      (limits : Limits) (p : Part) (fields : Fields) (o : Option Text)
      → Keeps (stage_part limits root p fields o)
  unfolding ◌>>=◌ files
  stage_part-Keeps limits p fields none s v = v
  stage_part-Keeps limits p fields (some filename) s (v, l) =
      staged (stage_file limits.container_ulimit_fsize root filename p.content p.token s.world) (
        stage_file-Ends limits.container_ulimit_fsize root filename p.content p.token s.world
          v.grows.is_fresh)
    where
      staged :
          (x : Result Exception (Text × Text) × World)
          → Ends
              (Intact s.world.fs)
              (λ y fs. Intact s.world.fs fs × Vacant s.world.fs root y.0 y.1 fs)
              x
          → Kept
              (continue
                (raised x.0)
                (λ entry t. (ok (goes_on fields), record t { staged = t.staged ++ entry ∷ [] }))
                (record s { world = x.1 })).1
      staged (ok y, w) (t, (d, r, u)) = (
        then-Intact base s.world.fs w.fs v t,
        All-append (λ (x : Text × Text). Vacant base root x.0 x.1 w.fs) s.staged (y ∷ [])
            (Vacant-Grows s.world.fs w.fs s.staged t.grows l)
            ((d, r, Unused-Intact base s.world.fs d y.1 v u), tt),
      )
      staged (err e, w) t =
          (then-Intact base s.world.fs w.fs v t, Vacant-Grows s.world.fs w.fs s.staged t.grows l)

  as_unsupported-Keeps : (e : Failure) → Keeps (as_unsupported e)
  as_unsupported-Keeps (of_files entity_too_large) s v = v
  as_unsupported-Keeps (of_files _) s v = v
  as_unsupported-Keeps _ s v = v

  pub as_malformed-Keeps : (e : Failure) → Keeps (as_malformed e)
  as_malformed-Keeps malformed s v = v
  as_malformed-Keeps bad_http s v = v
  as_malformed-Keeps _ s v = v

  decoded_text-Keeps : (o : Option Text) → Keeps (decoded_text o)
  decoded_text-Keeps none s v = v
  decoded_text-Keeps (some t) s v = v

  read_text_part-Keeps : (p : Part) (n : ℕ) → Keeps (read_text_part p n)
  unfolding read_text_part
  read_text_part-Keeps p n =
      Keeps-bind (λ s. (raised (read_content p.content n), s)) (λ b. decoded_text (p.decoded b))
        (λ s v. v) (λ b. decoded_text-Keeps (p.decoded b))

  if-Keeps {ℓ} :
      {A : Type ℓ} (b : Bool) (m n : Handler A) → Keeps m → Keeps n → Keeps (if b then m else n)
  if-Keeps true m n h k = h
  if-Keeps false m n h k = k

  take_part-Keeps :
      (limits : Limits) (is_space : ℕ → Bool) (p : Part) (fields : Fields)
      → Keeps (take_part limits is_space root p fields)
  unfolding take_part
  take_part-Keeps limits is_space p (language, code) =
      if-Keeps (is_named (codes "language") p.name) _ _
        (Keeps-bind (catch (read_text_part p 64) as_unsupported) _
          (Keeps-catch (read_text_part p 64) as_unsupported (read_text_part-Keeps p 64)
            as_unsupported-Keeps)
          (λ t s v. v))
        (if-Keeps (is_named (codes "code") p.name) _ _
          (Keeps-bind (read_text_part p limits.max_code_length) _
            (read_text_part-Keeps p limits.max_code_length) (λ t s v. v))
          (if-Keeps (is_named (codes "attachments") p.name) _ _
            (stage_part-Keeps limits p (language, code) p.filename) (λ s v. v)))

  proceed-Keeps :
      (f : Fields → Handler Progress)
      → ((x : Fields) → Keeps (f x))
      → (x : Progress) → Keeps (proceed f x)
  proceed-Keeps f h (goes_on fields) = h fields
  proceed-Keeps f h (returns status message) = λ s v. v

  pub read_parts-Keeps :
      (limits : Limits) (is_space : ℕ → Bool) (parts : List (Result Failure Part)) (fields : Fields)
      → Keeps (read_parts limits is_space root parts fields)
  unfolding read_parts
  read_parts-Keeps limits is_space [] fields = λ s v. v
  read_parts-Keeps limits is_space (err e ∷ parts) fields = λ s v. v
  read_parts-Keeps limits is_space (ok p ∷ parts) fields =
      Keeps-bind (take_part limits is_space root p fields) _
        (take_part-Keeps limits is_space p fields)
        (proceed-Keeps _ (read_parts-Keeps limits is_space parts))
