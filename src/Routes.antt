-- ===== src/Routes.antt =====
-- code_executor_api/routes: the handlers as actions. An action reads and changes the file system, the
-- handler's list of staged uploads and a record of its calls to the session manager. What the manager
-- answers is given, since other handlers run between a handler's awaits.
pub mod Uploads
pub mod Execute
pub mod Resources
pub mod Ephemeral
pub mod Attachments
pub mod Inversion
pub mod Commits
pub mod Keeps
pub mod Rejected
pub mod Files
pub mod FileResources
pub mod Locked
use code_executor_api.Prelude.{
  ℕ, Text, codes, Bool, true, false, Option, none, some, List, [], ◌∷◌, ◌++◌, Result, ok, err,
}
use code_executor_api.Manager.{SessionError}
use code_executor_api.FileSystem.{Exception, World, Exec}
use code_executor_api.Languages.{Invalid}

-- What a handler raises.
pub data Failure : Type 0 where
  of_files : Exception → Failure
  of_manager : SessionError → Failure
  invalid : Invalid → Failure
  -- `AssertionError`, `ValueError` or `BadHttpMessage` of aiohttp's parser
  malformed bad_http : Failure

-- The calls that take a resource of the manager, and those that give it back.
pub data Call : Type 0 where
  creates deletes : Call
  locks unlocks : Call
  takes_slot drops_slot : Call

pub record Local : Type 0 where
  pub world : World
  pub staged : List (Text × Text)
  -- the calls so far, the last one first
  pub calls : List Call

abbrev pub Handler {ℓ} : Type ℓ → Type ℓ
Handler A = Local → Result Failure A × Local

abbrev pub pure {ℓ} : {A : Type ℓ} → A → Handler A
pure a s = (ok a, s)

abbrev pub raise {ℓ} : {A : Type ℓ} → Failure → Handler A
raise e s = (err e, s)

abbrev pub continue {ℓ κ} :
    {A : Type ℓ} {B : Type κ}
    → Result Failure A
    → (A → Handler B)
    → Local
    → Result Failure B × Local
continue (ok a) f s = f a s
continue (err e) f s = (err e, s)

infixl 5 ◌>>=◌ ◌>>◌
unfoldable pub ◌>>=◌ {ℓ κ} : {A : Type ℓ} {B : Type κ} → Handler A → (A → Handler B) → Handler B
◌>>=◌ m f s = let (r, s') = m s in continue r f s'

unfoldable pub ◌>>◌ {ℓ κ} : {A : Type ℓ} {B : Type κ} → Handler A → Handler B → Handler B
unfolding ◌>>=◌
m >> n = m >>= λ _. n

abbrev pub handle {ℓ} :
    {A : Type ℓ} → Result Failure A → (Failure → Handler A) → Local → Result Failure A × Local
handle (ok a) h s = (ok a, s)
handle (err e) h s = h e s

-- `try: m except: h`
unfoldable pub catch {ℓ} : {A : Type ℓ} → Handler A → (Failure → Handler A) → Handler A
catch m h s = let (r, s') = m s in handle r h s'

abbrev pub resume {ℓ} :
    {A : Type ℓ} → Result Failure A → Result Failure (Unit {0}) → Result Failure A
resume r (ok u) = r
resume r (err e) = err e

-- `try: m finally: c`: what `c` raises replaces what `m` gives.
unfoldable pub finally {ℓ} : {A : Type ℓ} → Handler A → Handler (Unit {0}) → Handler A
finally m c s = let (r, s') = m s in let (q, s'') = c s' in (resume r q, s'')

abbrev pub raised {ℓ} : {A : Type ℓ} → Result Exception A → Result Failure A
raised (ok a) = ok a
raised (err e) = err (of_files e)

-- A file operation.
unfoldable pub files {ℓ} : {A : Type ℓ} → Exec A → Handler A
files m s = let (r, w) = m s.world in (raised r, record s { world = w })

unfoldable pub checked {ℓ} : {A : Type ℓ} → Result Invalid A → Handler A
checked (ok a) = pure a
checked (err e) = raise (invalid e)

abbrev pub note : Call → Handler (Unit {0})
note c s = (ok tt, record s { calls = c ∷ s.calls })

-- `async with session_manager.locked(session_id) as session`, by the manager's answer
unfoldable pub with_lock {ℓ} : {A : Type ℓ} → Result SessionError ℕ → (ℕ → Handler A) → Handler A
with_lock (err e) body = raise (of_manager e)
with_lock (ok root) body = note locks >> finally (body root) (note unlocks)

-- `async with session_manager.execution_slot()`
unfoldable pub with_slot {ℓ} : {A : Type ℓ} → Result SessionError (Unit {0}) → Handler A → Handler A
with_slot (err e) body = raise (of_manager e)
with_slot (ok u) body = note takes_slot >> finally body (note drops_slot)

-- `session_manager.delete`
abbrev pub deletion : Result SessionError (Unit {0}) → Handler (Unit {0})
deletion (err e) = raise (of_manager e)
deletion (ok u) = note deletes

-- `web.json_response({"error": message}, status=status)`, and the responses with content
pub data Response {ℓ} (A : Type ℓ) : Type ℓ where
  refuses : ℕ → Text → Response A
  answers : ℕ → A → Response A
