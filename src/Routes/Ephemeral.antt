-- ===== src/Routes/Ephemeral.antt =====
-- `handle_execute` gives back all that it takes.
use code_executor_api.Prelude.{
  ℕ, Text, ◌≡◌, refl, leb, length, Bool, true, false, none, some, List, [], ◌∷◌, Result, ok, err,
  Bool-cases, inl, inr, arith, ap,
}
use code_executor_api.Config.{Limits}
use code_executor_api.FileSystem.{Bytes}
use code_executor_api.Session.{read_file}
use code_executor_api.Manager.{SessionError}
use code_executor_api.Routes.{
  Failure, Response, creates, Local, Handler, ◌>>=◌, ◌>>◌, catch, finally, files, with_lock,
}
use code_executor_api.Routes.Uploads.{Ready, take_uploads}
use code_executor_api.Routes.Execute.{
  Request, Executed, attempt, read_payload, placed, attach, execute, run_ready, execute_failure,
  started, cleanup, handle_execute,
}
use code_executor_api.Routes.Resources.{
  Held, nothing_held, held, Restores, Restores-bind, Restores-files, Restores-catch,
  Restores-finally, Restores-then, Restores-raising, Restores-with_slot, Restores-with_lock,
  Restores-take_uploads,
}

Restores-attempt : (h : Held) (r : Result Failure Bytes) → Restores h (attempt r)
Restores-attempt h r s e = ground arith

Restores-read_payload : (h : Held) (root : ℕ) (path : Text) → Restores h (read_payload root path)
unfolding read_payload
Restores-read_payload h root path =
    Restores-raising h (files (read_file root path)) attempt
      (Restores-files h (read_file root path)) (Restores-attempt h)

Restores-attach :
    (h : Held) (limits : Limits) (root : ℕ) (paths : List Text)
    (acc : List (Text × Bytes) × List Text)
    → Restores h (attach limits root paths acc)
unfolding attach
Restores-attach h limits root [] acc = λ s e. e
Restores-attach h limits root (path ∷ paths) acc =
    elim (Bool-cases (leb limits.max_result_attachments (length acc.0))) [
      | inl a ↦ rw a (Restores-attach h limits root paths (placed path none acc))
      | inr a ↦ rw a (
          Restores-bind h _ _ (Restores-read_payload h root path)
            (λ b. Restores-attach h limits root paths (placed path b acc)))
    ]

Restores-execute :
    (h : Held) (limits : Limits) (q : Request) (root : ℕ) (language code : Text)
    → Restores h (execute limits q root language code)
unfolding execute
Restores-execute h limits q root language code = Restores-bind h _ _ (Restores-files h _) (λ r.
    Restores-bind h _ _ (Restores-attach h limits root r.changed_files ([], [])) (λ acc s e. e))

Restores-run_ready :
    (b : Bool) (limits : Limits) (q : Request) (root : ℕ) (r : Ready)
    → Restores (b, true, false) (run_ready limits q root r)
Restores-run_ready b limits q root (err (status, message)) = λ s e. e
Restores-run_ready b limits q root (ok (language, code)) =
    Restores-with_slot b q.slot _ (Restores-execute (b, true, true) limits q root language code)

Restores-execute_failure : (h : Held) (f : Failure) → Restores h (execute_failure f)
Restores-execute_failure h f s e = ground arith

abbrev locked_body : Limits → Request → Handler (Response Executed)
locked_body limits q =
    with_lock q.locked
      (λ root. take_uploads limits q.is_space root q.parts >>= run_ready limits q root)

Restores-locked_body :
    (b : Bool) (limits : Limits) (q : Request) → Restores (b, false, false) (locked_body limits q)
Restores-locked_body b limits q = Restores-with_lock b q.locked _ (λ root.
    Restores-bind (b, true, false) _ _
      (Restores-take_uploads (b, true, false) limits q.is_space root q.parts)
      (Restores-run_ready b limits q root))

-- With nothing to delete, each of the handler's blocks restores what was held.
Restores-unstarted :
    (limits : Limits) (q : Request) (m c : Handler (Unit {0}))
    → Restores nothing_held m
    → Restores nothing_held c
    → Restores nothing_held (finally (catch (m >> locked_body limits q) execute_failure) c)
Restores-unstarted limits q m c hm hc =
    Restores-finally nothing_held _ _
      (Restores-catch nothing_held _ _
        (Restores-then nothing_held _ _ hm (Restores-locked_body false limits q))
        (Restores-execute_failure nothing_held))
      hc

Restores-ephemeral :
    (limits : Limits) (q : Request)
    → Restores nothing_held (
        finally
          (catch (started true (ok tt) >> locked_body limits q) execute_failure)
          (cleanup true (ok tt) (ok tt)))
unfolding held finally catch ◌>>◌ ◌>>=◌
Restores-ephemeral limits q s e =
    rw
      (Restores-catch (true, false, false) (locked_body limits q) execute_failure
        (Restores-locked_body true limits q) (Restores-execute_failure (true, false, false))
        (record s { calls = creates ∷ s.calls }) (rw e refl))
      refl

held_start : held [] ≡ some nothing_held
unfolding held
held_start = refl

-- If the manager can delete the ephemeral session, then, however the handler ends, by an answer or a
-- raise, and whatever else the manager, the body and the file system answer, every lock, slot and
-- ephemeral session that it took is given back, the slot before the lock and the lock before the session
-- is deleted.
pub handle_execute-restores :
    (limits : Limits) (q : Request) (s : Local)
    → q.deleted ≡ ok tt
    → s.calls ≡ []
    → held (handle_execute limits q s).1.calls ≡ some nothing_held
unfolding handle_execute
handle_execute-restores limits q s d e = elim (Bool-cases q.is_multipart) [
  | inr a ↦ rw a (rw (ap held e) (held_start))
  | inl a ↦ rw a (every_start q.ephemeral q.created q.deleted d)
]
  where
    every_start :
        (ephemeral : Bool) (created deleted : Result SessionError (Unit {0}))
        → deleted ≡ ok tt
        → held
            (finally
              (catch (started ephemeral created >> locked_body limits q) execute_failure)
              (cleanup ephemeral created deleted)
              s).1.calls
          ≡ some nothing_held
    every_start false created deleted p =
        Restores-unstarted limits q _ _ (λ t h. h) (λ t h. h) s (rw e held_start)
    every_start true (err f) deleted p =
        Restores-unstarted limits q _ _ (λ t h. h) (λ t h. h) s (rw e held_start)
    every_start true (ok u) deleted p = rw p (Restores-ephemeral limits q s (rw e held_start))
