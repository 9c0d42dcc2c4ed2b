-- ===== src/Routes/FileResources.antt =====
-- What the handler of session creation takes and gives back.
use code_executor_api.Prelude.{
  ℕ, Text, ◌≡◌, ◌≢◌, refl, Bool, true, false, Option, none, some, List, [], ◌∷◌, Result, ok, err,
  arith,
}
use code_executor_api.Config.{Limits}
use code_executor_api.FileSystem.{cancelled}
use code_executor_api.Manager.{
  SessionError, session_not_found, session_lock_timeout, session_limit_reached, quota_setup_failed,
  execution_limit_reached, os_error,
}
use code_executor_api.Routes.{
  Failure, of_files, creates, Local, Handler, ◌>>=◌, ◌>>◌, catch, handle, continue, pure, Response,
  answers,
}
use code_executor_api.Routes.Uploads.{Part}
use code_executor_api.Routes.Files.{seed, seed_all, unseeded, handle_create_session}
use code_executor_api.Routes.Resources.{Held, held, Restores, Restores-files, Restores-then}

Restores-seed_all :
    (h : Held) (limits : Limits) (root : ℕ) (parts : List (Result Failure Part))
    → Restores h (seed_all limits root parts)
unfolding seed_all
Restores-seed_all h limits root [] = λ s e. e
Restores-seed_all h limits root (err f ∷ parts) = λ s e. e
Restores-seed_all h limits root (ok p ∷ parts) =
    Restores-then h _ _ (seeds p.filename) (Restores-seed_all h limits root parts)
  where
    seeds : (name : Option Text) → Restores h (seed limits root p name)
    seeds none = λ s e. e
    seeds (some name) = Restores-files h _

-- A session is kept for the client that is told of it.
abbrev pub is_kept : Result Failure (Response (Unit {0})) → Bool
is_kept (ok (answers status u)) = true
is_kept _ = false

abbrev answered : Result Failure (Unit {0}) → Handler (Response (Unit {0}))
answered r s =
    let (q, u) = continue r (λ _. pure (answers 200 tt)) s in handle q (unseeded (ok tt)) u

answered-held :
    (r : Result Failure (Unit {0})) (s : Local)
    → held s.calls ≡ some (true, false, false)
    → r ≢ err (of_files cancelled)
    → held (answered r s).1.calls ≡ some (is_kept (answered r s).0, false, false)
unfolding held ◌>>◌ ◌>>=◌
answered-held (ok u) s e n = e
answered-held (err f) s e n = ground arith

-- What `create` gives the client and what is left, if the manager can delete the session: a session is
-- kept exactly if the answer is no refusal, unless the handler is cancelled while it reads the seed files.
pub handle_create_session-held :
    (limits : Limits) (is_multipart : Bool) (root : ℕ) (parts : List (Result Failure Part))
    (created : Result SessionError (Unit {0})) (s : Local)
    → s.calls ≡ []
    → (seed_all limits root parts (record s { calls = creates ∷ [] })).0 ≢ err (of_files cancelled)
    → held (handle_create_session limits is_multipart root parts created (ok tt) s).1.calls
      ≡ some (
        is_kept (handle_create_session limits is_multipart root parts created (ok tt) s).0,
        false,
        false,
      )
unfolding handle_create_session held ◌>>◌ ◌>>=◌ catch
handle_create_session-held limits b root parts (err session_not_found) s e n = rw e refl
handle_create_session-held limits b root parts (err session_lock_timeout) s e n = rw e refl
handle_create_session-held limits b root parts (err session_limit_reached) s e n = rw e refl
handle_create_session-held limits b root parts (err quota_setup_failed) s e n = rw e refl
handle_create_session-held limits b root parts (err execution_limit_reached) s e n = rw e refl
handle_create_session-held limits b root parts (err os_error) s e n = rw e refl
handle_create_session-held limits false root parts (ok u) s e n = rw e refl
handle_create_session-held limits true root parts (ok u) s e n = rw e (
    answered-held (seed_all limits root parts (record s { calls = creates ∷ [] })).0
      (seed_all limits root parts (record s { calls = creates ∷ [] })).1
      (Restores-seed_all (true, false, false) limits root parts (record s { calls = creates ∷ [] })
        refl)
      n)
