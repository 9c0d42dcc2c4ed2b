-- ===== src/Session/Discards.antt =====
-- `Session.discard_staged_file` leaves every file as it was, and every directory where it was, however
-- it ends.
use code_executor_api.Prelude.{ℕ, Text, split, ◌≡◌, refl, subst, false}
use code_executor_api.Path.{slash}
use code_executor_api.FileSystem.{enoent, Exception, os_error, Fs, World, catch}
use code_executor_api.FileSystem.Calls.{unlink_at}
use code_executor_api.FileSystem.Outcomes.{Ends, Ends-weaken, catch-Ends}
use code_executor_api.FileSystem.Resolve.{Resolves, Resolves-unique, Grows, Grows-refl, Grows-trans}
use code_executor_api.FileSystem.Touches.{unlink_at-Ends}
use code_executor_api.Content.{ignore_not_found, suppress_not_found}
use code_executor_api.Session.{init, discard_staged_file, ignore_os_error}
use code_executor_api.Session.Leaves.{
  Intact, then-Intact, Unused, unlinked-Intact, Leaves, with_parent-Ends,
}
use code_executor_api.Session.Stages.{Vacant}

-- A handler that ignores some exceptions and raises the others.
ignore_not_found-Ends :
    (E : Fs → Type 0) (e : Exception) (w : World) → E w.fs → Ends E (λ v. E) (ignore_not_found e w)
ignore_not_found-Ends E (os_error enoent) w s = s
ignore_not_found-Ends E (os_error _) w s = s
ignore_not_found-Ends E _ w s = s

ignore_os_error-Ends :
    (E : Fs → Type 0) (e : Exception) (w : World) → E w.fs → Ends E (λ v. E) (ignore_os_error e w)
ignore_os_error-Ends E (os_error e) w s = s
ignore_os_error-Ends E _ w s = s

-- Every file of `base` is as it was, and the directories of `fs` are where they were.
abbrev pub IntactGrown : Fs → Fs → Fs → Type 0
IntactGrown base fs fs' = Intact base fs' × Grows fs fs'

pub discard-Ends :
    (base : Fs) (root : ℕ) (path name : Text) (w : World)
    → Intact base w.fs
    → Vacant base root path name w.fs
    → Ends
        (IntactGrown base w.fs)
        (λ v. IntactGrown base w.fs)
        (catch (discard_staged_file root path name) ignore_os_error w)
unfolding discard_staged_file suppress_not_found
discard-Ends base root path name w s (d, r, u) =
    catch-Ends E E (λ v. E) (discard_staged_file root path name) ignore_os_error w
      (with_parent-Ends w.fs E (λ v. E) root path false
        (λ parent_fd _. suppress_not_found (unlink_at parent_fd name)) w
        (record { grows = Grows-refl w.fs s.grows.is_fresh; files = λ k i nm b o h. h })
        (λ fs t. (then-Intact base w.fs fs s t, t.grows))
        (λ d2 w1 s1 r2 e.
          let same : d ≡ d2 =
            Resolves-unique w1.fs root d d2 (init (split slash path))
              (subst (λ x. Resolves x root (init (split slash path)) d) (e refl) r) r2 in
          let now = then-Intact base w.fs w1.fs s s1 in
          catch-Ends E E (λ v. E) (unlink_at d2 name) ignore_not_found w1
            (unlink_at-Ends E (λ v. E) d2 name w1 s1.grows.is_fresh (now, s1.grows)
              (λ fs t. (
                unlinked-Intact base w1.fs fs d2 name (subst (λ x. Unused base x name) same u) now
                    t,
                Grows-trans w.fs w1.fs fs s1.grows t.grows,
              )))
            (ignore_not_found-Ends E)))
      (ignore_os_error-Ends E)
  where
    E : Fs → Type 0
    E = IntactGrown base w.fs

pub discard-Leaves :
    (base : Fs) (root : ℕ) (path name : Text) (w : World)
    → Intact base w.fs
    → Vacant base root path name w.fs
    → Leaves base (catch (discard_staged_file root path name) ignore_os_error w)
discard-Leaves base root path name w s v =
    Ends-weaken (IntactGrown base w.fs) (λ a. IntactGrown base w.fs) (Intact base)
      (λ a. Intact base) (catch (discard_staged_file root path name) ignore_os_error w)
      (λ fs t. t.0) (λ a fs t. t.0) (discard-Ends base root path name w s v)
