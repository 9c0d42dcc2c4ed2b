-- ===== src/Routes/Locked.antt =====
-- What the handlers of the files API do with the session's lock.
use code_executor_api.Prelude.{codes, ℕ, Text, ◌≡◌, List, ◌∷◌, ◌++◌, ok, err}
use code_executor_api.Config.{Limits}
use code_executor_api.Content.{Content}
use code_executor_api.Manager.{SessionError}
use code_executor_api.Session.Listing.{Attributes}
use code_executor_api.Routes.{
  Call, locks, unlocks, Local, Handler, ◌>>◌, catch, files, pure, Response, answers,
}
use code_executor_api.Session.{write_file, delete_file}
use code_executor_api.Routes.Files.{
  Served, as_file_not_found, get_under_lock, handle_get_file, as_bad_path, handle_put_file,
  handle_delete_file,
}

-- The action makes these calls, the last one first, however it ends.
abbrev pub Makes {ℓ} : {A : Type ℓ} → List Call → Handler A → Type 0
Makes l m = (s : Local) → (m s).1.calls ≡ l ++ s.calls

-- The three handlers of the files API.
module _ (limits : Limits) (attributes : Attributes) (sub_path : Text) (body : Content)
    (token : Text) where
  -- Each of them takes the lock once and gives it back once, however it ends.
  abbrev pub LocksOnce : ℕ → Local → Type 0
  LocksOnce root s =
      ((handle_get_file attributes (ok root) sub_path s).1.calls ≡ unlocks ∷ locks ∷ s.calls)
      × ((handle_put_file limits (ok root) sub_path body token s).1.calls
          ≡ unlocks ∷ locks ∷ s.calls)
      × ((handle_delete_file (ok root) sub_path s).1.calls ≡ unlocks ∷ locks ∷ s.calls)

  -- Without the lock, none of them touches a file or anything else.
  abbrev pub LeavesAlone : SessionError → Local → Type 0
  LeavesAlone e s =
      ((handle_get_file attributes (err e) sub_path s).1 ≡ s)
      × ((handle_put_file limits (err e) sub_path body token s).1 ≡ s)
      × ((handle_delete_file (err e) sub_path s).1 ≡ s)

  -- What each of them does under the lock.
  abbrev get_body : ℕ → Handler (Response Served)
  get_body root = catch (get_under_lock attributes sub_path root) as_file_not_found

  abbrev put_body : ℕ → Handler (Response (Unit {0}))
  put_body root =
      catch
        (files (write_file limits.container_ulimit_fsize root sub_path body token)
          >> pure (answers 204 tt))
        (as_bad_path 400 (codes "Invalid file path"))

  abbrev delete_body : ℕ → Handler (Response (Unit {0}))
  delete_body root =
      catch (files (delete_file root sub_path) >> pure (answers 204 tt))
        (as_bad_path 404 (codes "File not found"))
