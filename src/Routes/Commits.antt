-- ===== src/Routes/Commits.antt =====
-- The code runs only when the body has been accepted as a whole.
use code_executor_api.Prelude.{
  ℕ, Text, ◌≡◌, ◌≢◌, refl, Bool, false, Option, none, some, List, [], ◌∷◌, Result, ok, contains,
  err, arith, sym, subst, ap, ◌∙◌,
}
use code_executor_api.Config.{Limits}
use code_executor_api.Languages.{
  LanguageRuntime, runtime_of, validate_language, validate_code, known,
}
use code_executor_api.FileSystem.{Exception, World}
use code_executor_api.Session.{commit_staged_file}
use code_executor_api.Routes.{
  raised, continue, Failure, Local, Handler, ◌>>=◌, ◌>>◌, files, pure, checked, catch,
}
use code_executor_api.Routes.Inversion.{checked_same, bind_ok, finally_ok, checked_ok}
use code_executor_api.Routes.Uploads.{
  Part, Ready, Progress, goes_on, returns, commit_all, discard_all, pop_staged, validated,
  read_parts, as_malformed, take_uploads,
}

known_lem :
    (l language : Text) (r : Option LanguageRuntime)
    → r ≡ runtime_of l
    → known l r ≡ ok language
    → runtime_of language ≢ none
known_lem l language none e h = cc
known_lem l language (some r) e h = λ n. cc

validate_language_lem :
    (o : Option Text) (language : Text)
    → validate_language o ≡ ok language
    → runtime_of language ≢ none
unfolding validate_language
validate_language_lem none language h = cc
validate_language_lem (some l) language h = known_lem l language (runtime_of l) refl h

validate_code_lem :
    (o : Option Text) (code : Text) → validate_code o ≡ ok code → contains 0 code ≡ false
unfolding validate_code
validate_code_lem none code h = cc
validate_code_lem (some c) code h = ground arith

pop_staged_lem :
    (m : Handler (Unit {0})) (rest : List (Text × Text)) (s t : Local)
    → (m >> pop_staged rest) s ≡ (ok tt, t)
    → t.staged ≡ rest
unfolding ◌>>◌
pop_staged_lem m rest s t h =
    let (u, f, g) = bind_ok m (λ _. pop_staged rest) s t tt h in
    ap (λ (x : Result Failure (Unit {0}) × Local). x.1.staged) (sym g)

commit_all-empties :
    (root : ℕ) (entries : List (Text × Text)) (s t : Local)
    → s.staged ≡ entries
    → commit_all root entries s ≡ (ok tt, t)
    → t.staged ≡ []
unfolding commit_all ◌>>◌
commit_all-empties root [] s t e h =
    ap (λ (x : Result Failure (Unit {0}) × Local). x.1.staged) (sym h) ∙ e
commit_all-empties root ((path, name) ∷ rest) s t e h =
    let (u, f, g) =
      bind_ok (files (commit_staged_file root path name) >> pop_staged rest)
        (λ _. commit_all root rest) s t tt h in
    commit_all-empties root rest
      ((files (commit_staged_file root path name) >> pop_staged rest) s).1 t
      (pop_staged_lem (files (commit_staged_file root path name)) rest s _ (
        ap
          (λ (r : Result Failure (Unit {0})).
            (r, ((files (commit_staged_file root path name) >> pop_staged rest) s).1))
          f))
      g

-- The entries are committed in their order, each by a commit that succeeds.
abbrev pub Commits : ℕ → List (Text × Text) → World → World → Type 0
Commits root [] w w1 = w ≡ w1
Commits root ((path, name) ∷ rest) w w1 =
    (v : World) × (commit_staged_file root path name w ≡ (ok tt, v)) × Commits root rest v w1

commit_ok :
    (root : ℕ) (path name : Text) (rest : List (Text × Text)) (s t : Local)
    → (files (commit_staged_file root path name) >> pop_staged rest) s ≡ (ok tt, t)
    → commit_staged_file root path name s.world ≡ (ok tt, t.world)
unfolding files ◌>>◌ ◌>>=◌
commit_ok root path name rest s t h = from (commit_staged_file root path name s.world) h
  where
    from :
        (x : Result Exception (Unit {0}) × World)
        → (◌≡◌ {A = Result Failure (Unit {0}) × Local}
            (continue (raised x.0) (λ _. pop_staged rest) (record s { world = x.1 }))
            (ok tt, t))
        → x ≡ (ok tt, t.world)
    from (ok tt, w) p = ap (λ (y : Result Failure (Unit {0}) × Local). (ok tt, y.1.world)) p
    from (err e, w) p = cc

commit_all-Commits :
    (root : ℕ) (entries : List (Text × Text)) (s t : Local)
    → commit_all root entries s ≡ (ok tt, t)
    → Commits root entries s.world t.world
unfolding commit_all ◌>>◌
commit_all-Commits root [] s t h = ap (λ (x : Result Failure (Unit {0}) × Local). x.1.world) h
commit_all-Commits root ((path, name) ∷ rest) s t h =
    let m : Handler (Unit {0}) = files (commit_staged_file root path name) >> pop_staged rest in
    let (u, f, g) = bind_ok m (λ _. commit_all root rest) s t tt h in
    (
      (m s).1.world,
      commit_ok root path name rest s (m s).1
          (ap (λ (r : Result Failure (Unit {0})). (r, (m s).1)) f),
      commit_all-Commits root rest (m s).1 t g,
    )

abbrev commit_staged : ℕ → Handler (Unit {0})
commit_staged root s = commit_all root s.staged s

pure_ok {ℓ} :
    {A : Type ℓ} (a b : A) (s t : Local)
    → (◌≡◌ {A = Result Failure A × Local} (ok a, s) (ok b, t))
    → (a ≡ b) × (s ≡ t)
pure_ok a b s t h = (cc, cc)

committed_lem :
    (root : ℕ) (l c language code : Text) (s t : Local)
    → (commit_staged root >> pure {A = Ready} (ok (l, c))) s ≡ (ok (ok (language, code)), t)
    → (l ≡ language) × (c ≡ code) × (t.staged ≡ []) × Commits root s.staged s.world t.world
unfolding ◌>>◌
committed_lem root l c language code s t h =
    let (u, f, g) = bind_ok (commit_staged root) (λ _. pure {A = Ready} (ok (l, c))) s t _ h in
    let done : commit_all root s.staged s ≡ (ok tt, (commit_staged root s).1) =
      ap (λ (r : Result Failure (Unit {0})). (r, (commit_staged root s).1)) f in
    let (p, q) =
      pure_ok {A = Ready} (ok (l, c)) (ok (language, code)) (commit_staged root s).1 t g in
    (
      cc,
      cc,
      ap (λ (x : Local). x.staged) (sym q)
          ∙ commit_all-empties root s.staged s (commit_staged root s).1 refl done,
      subst (λ (x : Local). Commits root s.staged s.world x.world) q
          (commit_all-Commits root s.staged s (commit_staged root s).1 done),
    )

-- What a block that returns the two fields has done.
IsAccepted : ℕ → Text → Text → Local → Local → Type 0
IsAccepted root language code s t =
    (runtime_of language ≢ none)
    × (contains 0 code ≡ false)
    × (t.staged ≡ [])
    × Commits root s.staged s.world t.world

validated-IsAccepted :
    (root : ℕ) (r : Progress) (language code : Text) (s t : Local)
    → validated root r s ≡ (ok (ok (language, code)), t)
    → IsAccepted root language code s t
unfolding ◌>>◌ IsAccepted
validated-IsAccepted root (returns status message) language code s t h = cc
validated-IsAccepted root (goes_on (l, c)) language code s t h =
    let (l', lf, lg) = bind_ok (checked (validate_language l)) _ s t _ h in
    let (c', cf, cg) = bind_ok (checked (validate_code c)) _ _ t _ lg in
    let (a, b, e, k) = committed_lem root l' c' language code _ t cg in
    (
      validate_language_lem l language (checked_ok (validate_language l) s l' lf ∙ ap ok a),
      validate_code_lem c code (checked_ok (validate_code c) _ c' cf ∙ ap ok b),
      e,
      subst (λ (x : Local). Commits root x.staged x.world t.world)
          (checked_same (validate_code c) _ ∙ checked_same (validate_language l) s) k,
    )

discard_nothing :
    (root : ℕ) (entries : List (Text × Text)) (s : Local)
    → entries ≡ []
    → (discard_all root entries s).1 ≡ s
unfolding discard_all
discard_nothing root [] s h = refl
discard_nothing root (e ∷ entries) s h = cc

-- What the block has when the parts have been read.
abbrev pub after_parts : Limits → (ℕ → Bool) → ℕ → List (Result Failure Part) → Local → Local
after_parts limits is_space root parts s =
    (catch (read_parts limits is_space root parts (none, none)) as_malformed s).1

-- When the block that reads the body lets the handler go on, the language is one that is supported, the
-- code has no NUL, and the attachments that were staged have each been committed, in their order, by
-- commits that succeed and that are all that the block has done to the files since the parts were read.
pub take_uploads-IsAccepted :
    (limits : Limits) (is_space : ℕ → Bool) (root : ℕ) (parts : List (Result Failure Part))
    (language code : Text) (s t : Local)
    → take_uploads limits is_space root parts s ≡ (ok (ok (language, code)), t)
    → (runtime_of language ≢ none)
      × (contains 0 code ≡ false)
      × (t.staged ≡ [])
      × Commits root
          (after_parts limits is_space root parts s).staged
          (after_parts limits is_space root parts s).world
          t.world
unfolding take_uploads IsAccepted
take_uploads-IsAccepted limits is_space root parts language code s t h =
    let (f, g) = finally_ok _ (λ x. discard_all root x.staged x) s t _ h in
    let m : Handler Ready =
      catch (read_parts limits is_space root parts (none, none)) as_malformed >>= validated root in
    let u : Local = after_parts limits is_space root parts s in
    let (r, rf, rg) =
      bind_ok (catch (read_parts limits is_space root parts (none, none)) as_malformed)
        (validated root) s (m s).1 _ (ap (λ (x : Result Failure Ready). (x, (m s).1)) f) in
    let (a, b, e, k) = validated-IsAccepted root r language code u (m s).1 rg in
    let same = sym (discard_nothing root (m s).1.staged (m s).1 e) ∙ g in
    (
      a,
      b,
      ap (λ (x : Local). x.staged) (sym same) ∙ e,
      subst (λ (x : Local). Commits root u.staged u.world x.world) same k,
    )
