-- ===== src/Routes/Rejected.antt =====
-- A request whose body is rejected changes no file of the session.
use code_executor_api.Prelude.{
  ℕ, Text, Bool, ◌≡◌, refl, sym, subst, none, List, [], ◌∷◌, All, Result, ok, err, ◌⊎◌, inl, inr,
}
use code_executor_api.Config.{Limits}
use code_executor_api.FileSystem
use code_executor_api.FileSystem.{Exception, Fs, World, Exec}
use code_executor_api.FileSystem.Outcomes.{Ends}
use code_executor_api.FileSystem.Resolve.{IsFresh, Grows-refl}
use code_executor_api.Languages.{Invalid, validate_language, validate_code}
use code_executor_api.Session.{commit_staged_file, discard_staged_file, ignore_os_error}
use code_executor_api.Session.Leaves.{Intact}
use code_executor_api.Session.Stages.{Vacant}
use code_executor_api.Session.Discards.{IntactGrown, discard-Ends}
use code_executor_api.Routes.{
  Failure, of_files, of_manager, invalid, malformed, bad_http, Local, Handler, pure, raised,
  continue, ◌>>=◌, ◌>>◌, catch, finally, resume, files, checked,
}
use code_executor_api.Routes.Uploads.{
  Part, Ready, Progress, goes_on, returns, read_parts, as_malformed, pop_staged, commit_all,
  discard_all, validated, take_uploads,
}
use code_executor_api.Routes.Keeps.{
  Kept, Keeps-catch, Vacant-Grows, as_malformed-Keeps, read_parts-Keeps,
}

abbrev IsOfFiles : Failure → Type 0
IsOfFiles (of_files e) = Unit {0}
IsOfFiles (of_manager e) = ⊥
IsOfFiles (invalid e) = ⊥
IsOfFiles malformed = ⊥
IsOfFiles bad_http = ⊥

abbrev pub IsInvalid : Failure → Type 0
IsInvalid (of_files e) = ⊥
IsInvalid (of_manager e) = ⊥
IsInvalid (invalid e) = Unit {0}
IsInvalid malformed = ⊥
IsInvalid bad_http = ⊥

of_files-apart : (e : Failure) → IsOfFiles e → IsInvalid e → ⊥
of_files-apart (of_files e) p q = q
of_files-apart (of_manager e) p q = q
of_files-apart (invalid e) p q = p
of_files-apart malformed p q = q
of_files-apart bad_http p q = q

-- What is raised comes from the file system.
abbrev RaisesFiles {ℓ} : {A : Type ℓ} → Result Failure A → Type 0
RaisesFiles (ok a) = Unit {0}
RaisesFiles (err e) = IsOfFiles e

bind-RaisesFiles {ℓ κ} :
    {A : Type ℓ} {B : Type κ} (m : Handler A) (f : A → Handler B) (s : Local)
    → RaisesFiles (m s).0
    → ((a : A) (t : Local) → RaisesFiles (f a t).0)
    → RaisesFiles ((m >>= f) s).0
unfolding ◌>>=◌
bind-RaisesFiles {A} {B} m f s h k = continued (m s) h
  where
    continued :
        (x : Result Failure A × Local) → RaisesFiles x.0 → RaisesFiles (continue x.0 f x.1).0
    continued (ok a, t) p = k a t
    continued (err e, t) p = p

files-RaisesFiles {ℓ} : {A : Type ℓ} (m : Exec A) (s : Local) → RaisesFiles (files m s).0
unfolding files
files-RaisesFiles {A} m s = from (m s.world)
  where
    from : (x : Result Exception A × World) → RaisesFiles (raised x.0)
    from (ok a, w) = tt
    from (err e, w) = tt

commit_all-RaisesFiles :
    (root : ℕ) (l : List (Text × Text)) (s : Local) → RaisesFiles (commit_all root l s).0
unfolding commit_all ◌>>◌
commit_all-RaisesFiles root [] s = tt
commit_all-RaisesFiles root ((path, name) ∷ rest) s =
    bind-RaisesFiles (files (commit_staged_file root path name) >> pop_staged rest) _ s
      (bind-RaisesFiles (files (commit_staged_file root path name)) (λ u. pop_staged rest) s
        (files-RaisesFiles (commit_staged_file root path name) s) (λ u t. tt))
      (λ u t. commit_all-RaisesFiles root rest t)

discard_all-RaisesFiles :
    (root : ℕ) (l : List (Text × Text)) (s : Local) → RaisesFiles (discard_all root l s).0
unfolding discard_all ◌>>◌
discard_all-RaisesFiles root [] s = tt
discard_all-RaisesFiles root ((path, name) ∷ rest) s =
    bind-RaisesFiles (files (FileSystem.catch (discard_staged_file root path name) ignore_os_error))
      _ s (files-RaisesFiles _ s) (λ u t. discard_all-RaisesFiles root rest t)

-- What is still staged is discarded, and every file is as it was.
discard_all-Intact :
    (base : Fs) (root : ℕ) (l : List (Text × Text)) (s : Local)
    → Intact base s.world.fs
    → All (λ (x : Text × Text). Vacant base root x.0 x.1 s.world.fs) l
    → Intact base (discard_all root l s).1.world.fs
unfolding discard_all ◌>>◌ ◌>>=◌ files
discard_all-Intact base root [] s i v = i
discard_all-Intact base root ((path, name) ∷ rest) s i (v, vs) =
    discarded (discard_all-Intact base root rest)
      (FileSystem.catch (discard_staged_file root path name) ignore_os_error s.world)
      (discard-Ends base root path name s.world i v)
  where
    discarded :
        ((t : Local)
          → Intact base t.world.fs
          → All (λ (x : Text × Text). Vacant base root x.0 x.1 t.world.fs) rest
          → Intact base (discard_all root rest t).1.world.fs)
        → (x : Result Exception (Unit {0}) × World)
        → Ends (IntactGrown base s.world.fs) (λ u. IntactGrown base s.world.fs) x
        → Intact base
            (continue
              (raised x.0)
              (λ u. discard_all root rest)
              (record s { world = x.1 })).1.world.fs
    discarded k (ok u, w) (j, g) =
        k (record s { world = w }) j (Vacant-Grows base root s.world.fs w.fs rest g vs)
    discarded k (err e, w) (j, g) = j

-- The request is answered with a status, or it is invalid.
abbrev pub IsRejected : Result Failure Ready → Type 0
IsRejected (ok (ok fields)) = ⊥
IsRejected (ok (err answer)) = Unit {0}
IsRejected (err e) = IsInvalid e

-- Nothing has been committed when a request is rejected.
validated-same :
    (root : ℕ) (x : Progress) (s : Local)
    → IsRejected (validated root x s).0
    → (validated root x s).1 ≡ s
unfolding ◌>>=◌ ◌>>◌ checked
validated-same root (returns status message) s h = refl
validated-same root (goes_on (language, code)) s h =
    from (validate_language language) (validate_code code) h
  where
    committed :
        (l c : Text) (x : Result Failure (Unit {0}) × Local)
        → RaisesFiles x.0
        → IsRejected (continue x.0 (λ u. pure {A = Ready} (ok (l, c))) x.1).0
        → ⊥
    committed l c (ok u, t) r h = h
    committed l c (err e, t) r h = of_files-apart e r h

    from :
        (l c : Result Invalid Text)
        → IsRejected
            ((checked l >>= λ language'. checked c >>= λ code'.
                (λ t. commit_all root t.staged t) >> pure {A = Ready} (ok (language', code')))
              s).0
        → ((checked l >>= λ language'. checked c >>= λ code'.
              (λ t. commit_all root t.staged t) >> pure {A = Ready} (ok (language', code')))
            s).1
          ≡ s
    from (err e) c h = refl
    from (ok l) (err e) h = refl
    from (ok l) (ok c) h =
        absurd
          (committed l c (commit_all root s.staged s) (commit_all-RaisesFiles root s.staged s) h)

-- Reading the parts keeps every file.
parts_Kept :
    (limits : Limits) (is_space : ℕ → Bool) (root : ℕ) (parts : List (Result Failure Part))
    (s : Local)
    → IsFresh s.world.fs
    → s.staged ≡ []
    → Kept s.world.fs root
        (catch (read_parts limits is_space root parts (none, none)) as_malformed s).1
parts_Kept limits is_space root parts s f e =
    (Keeps-catch s.world.fs root (read_parts limits is_space root parts (none, none)) as_malformed
      (read_parts-Keeps s.world.fs root limits is_space parts (none, none))
      (as_malformed-Keeps s.world.fs root) s
      (
        record { grows = Grows-refl s.world.fs f; files = λ k i nm b o p. p },
        subst (All (λ (x : Text × Text). Vacant s.world.fs root x.0 x.1 s.world.fs)) (sym e) tt,
      ))

-- An error of the input or a status is not what a commit can end in; and no commit is begun if the
-- reading of the parts raises.
abbrev pub IsRefused : Limits → (ℕ → Bool) → ℕ → List (Result Failure Part) → Local → Type 0
IsRefused limits is_space root parts s =
    IsRejected (take_uploads limits is_space root parts s).0
    ⊎ ((e : Failure) × ((catch (read_parts limits is_space root parts (none, none)) as_malformed
            s).0
          ≡ err e))

-- A request that is refused before its first commit leaves every file under its name with its content,
-- whatever calls fail, also a file that an upload is for: one whose uploads end in a status to answer
-- with or in an error of its input, or one of whose parts cannot be read or staged, for any reason. A
-- commit that fails after others is not meant. No inode is in use past the next one at the start, and
-- nothing is staged then.
pub take_uploads-rejected :
    (limits : Limits) (is_space : ℕ → Bool) (root : ℕ) (parts : List (Result Failure Part))
    (s : Local)
    → IsFresh s.world.fs
    → s.staged ≡ []
    → IsRefused limits is_space root parts s
    → Intact s.world.fs (take_uploads limits is_space root parts s).1.world.fs
unfolding take_uploads finally ◌>>=◌
take_uploads-rejected limits is_space root parts s f e (inl h) =
    read (catch (read_parts limits is_space root parts (none, none)) as_malformed s)
      (parts_Kept limits is_space root parts s f e) h
  where
    discarded :
        (r : Result Failure Ready) (t : Local) (q : Result Failure (Unit {0}))
        → RaisesFiles q
        → IsRejected (resume r q)
        → IsRejected r
    discarded r t (ok u) p h = h
    discarded r t (err x) p h = absurd (of_files-apart x p h)

    rejected :
        (x : Result Failure Ready × Local)
        → (IsRejected x.0 → Kept s.world.fs root x.1)
        → IsRejected (resume x.0 (discard_all root x.1.staged x.1).0)
        → Intact s.world.fs (discard_all root x.1.staged x.1).1.world.fs
    rejected (r, t) k h =
        let (i, v) = k (
          discarded r t (discard_all root t.staged t).0 (discard_all-RaisesFiles root t.staged t)
            h) in
        discard_all-Intact s.world.fs root t.staged t i v

    read :
        (x : Result Failure Progress × Local)
        → Kept s.world.fs root x.1
        → IsRejected (
            resume
              (continue x.0 (validated root) x.1).0
              (discard_all root
                (continue x.0 (validated root) x.1).1.staged
                (continue x.0 (validated root) x.1).1).0)
        → Intact s.world.fs
            (discard_all root
              (continue x.0 (validated root) x.1).1.staged
              (continue x.0 (validated root) x.1).1).1.world.fs
    read (ok p, t) v h =
        rejected (validated root p t)
          (λ r. subst (Kept s.world.fs root) (sym (validated-same root p t r)) v) h
    read (err x, t) v h = rejected (err x, t) (λ r. v) h
take_uploads-rejected limits is_space root parts s f e (inr (x, h)) =
    from (catch (read_parts limits is_space root parts (none, none)) as_malformed s)
      (parts_Kept limits is_space root parts s f e) h
  where
    from :
        (y : Result Failure Progress × Local)
        → Kept s.world.fs root y.1
        → y.0 ≡ err x
        → Intact s.world.fs
            (discard_all root
              (continue y.0 (validated root) y.1).1.staged
              (continue y.0 (validated root) y.1).1).1.world.fs
    from (ok p, t) v h = cc
    from (err z, t) (i, v) h = discard_all-Intact s.world.fs root t.staged t i v
