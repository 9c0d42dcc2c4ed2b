-- ===== src/Routes/Uploads.antt =====
-- code_executor_api/routes/execute.py, the body of the request: its fields, and the attachments that
-- are staged, then committed or discarded.
use code_executor_api.Prelude.{
  ℕ, Text, codes, text_eq, strip, Bool, false, Option, none, some, List, [], ◌∷◌, ◌++◌, Result, ok,
  err, if◌then◌else◌,
}
use code_executor_api.Config.{Limits}
use code_executor_api.FileSystem
use code_executor_api.FileSystem.{Exception, entity_too_large, Bytes, World, Exec}
use code_executor_api.Content.{Content, read_content}
use code_executor_api.Session.{stage_file, commit_staged_file, discard_staged_file, ignore_os_error}
use code_executor_api.Languages.{
  language_unsupported, bad_encoding, malformed_multipart, validate_language, validate_code,
}
use code_executor_api.Routes.{
  Failure, of_files, invalid, malformed, bad_http, Handler, pure, raise, ◌>>=◌, ◌>>◌, catch,
  finally, files, raised, checked,
}

-- A part of the multipart body: `decoded` is its `bytes.decode` with the charset that it names, and
-- `token` what `secrets.token_urlsafe` returns if the part is staged.
pub record Part : Type 0 where
  pub name : Option Text
  pub filename : Option Text
  pub content : Content
  pub decoded : Bytes → Option Text
  pub token : Text

abbrev pub decoded_text : Option Text → Handler Text
decoded_text (some t) = pure t
decoded_text none = raise (invalid bad_encoding)

-- `_read_text_part`
unfoldable pub read_text_part : Part → ℕ → Handler Text
unfolding read_content
read_text_part p max_size =
    (λ s. (raised (read_content p.content max_size), s)) >>= λ b. decoded_text (p.decoded b)

-- `except web.HTTPRequestEntityTooLarge`
abbrev pub as_unsupported : Failure → Handler Text
as_unsupported (of_files entity_too_large) = raise (invalid language_unsupported)
as_unsupported e = raise e

-- The locals `language` and `code`.
abbrev pub Fields : Type 0
Fields = Option Text × Option Text

-- After a part, the loop goes on, or the handler returns a status and an error's text.
pub data Progress : Type 0 where
  goes_on : Fields → Progress
  returns : ℕ → Text → Progress

abbrev pub is_named : Text → Option Text → Bool
is_named field none = false
is_named field (some name) = text_eq name field

abbrev pub name_text : Option Text → Text
name_text none = codes "None"
name_text (some name) = name

abbrev pub stage_part : Limits → ℕ → Part → Fields → Option Text → Handler Progress
stage_part limits root p fields none = pure (returns 400 (codes "attachments parts must be files"))
stage_part limits root p fields (some filename) = do
  entry ← files (stage_file limits.container_ulimit_fsize root filename p.content p.token)
  λ s. (ok (goes_on fields), record s { staged = s.staged ++ entry ∷ [] })

-- One part of the loop over the body.
unfoldable pub take_part : Limits → (ℕ → Bool) → ℕ → Part → Fields → Handler Progress
unfolding strip text_eq
take_part limits is_space root p (language, code) =
    if is_named (codes "language") p.name
    then (catch (read_text_part p 64) as_unsupported >>= λ text.
        pure (goes_on (some (strip is_space text), code)))
    else if is_named (codes "code") p.name
    then (read_text_part p limits.max_code_length >>= λ text. pure (goes_on (language, some text)))
    else if is_named (codes "attachments") p.name
    then stage_part limits root p (language, code) p.filename
    else pure (returns 400 (codes "Unsupported multipart field: " ++ name_text p.name))

abbrev pub proceed : (Fields → Handler Progress) → Progress → Handler Progress
proceed f (goes_on fields) = f fields
proceed f (returns status message) = pure (returns status message)

unfoldable pub read_parts :
    Limits → (ℕ → Bool) → ℕ → List (Result Failure Part) → Fields → Handler Progress
read_parts limits is_space root [] fields = pure (goes_on fields)
read_parts limits is_space root (err e ∷ parts) fields = raise e
read_parts limits is_space root (ok p ∷ parts) fields =
    take_part limits is_space root p fields
    >>= proceed (λ next. read_parts limits is_space root parts next)

-- `except (AssertionError, ValueError, BadHttpMessage)`
abbrev pub as_malformed : Failure → Handler Progress
as_malformed malformed = raise (invalid malformed_multipart)
as_malformed bad_http = raise (invalid malformed_multipart)
as_malformed e = raise e

abbrev pub pop_staged : List (Text × Text) → Handler (Unit {0})
pop_staged rest s = (ok tt, record s { staged = rest })

-- `while staged`: an entry is dropped when it has been committed.
unfoldable pub commit_all : ℕ → List (Text × Text) → Handler (Unit {0})
commit_all root [] = pure tt
commit_all root ((path, name) ∷ rest) =
    files (commit_staged_file root path name) >> pop_staged rest >> commit_all root rest

-- The `finally`: what is still staged is discarded.
unfoldable pub discard_all : ℕ → List (Text × Text) → Handler (Unit {0})
discard_all root [] = pure tt
discard_all root ((path, name) ∷ rest) =
    files (FileSystem.catch (discard_staged_file root path name) ignore_os_error)
    >> discard_all root rest

-- What the inner block gives: the two fields, or the status and text that the handler returns.
abbrev pub Ready : Type 0
Ready = Result (ℕ × Text) (Text × Text)

abbrev pub validated : ℕ → Progress → Handler Ready
validated root (returns status message) = pure (err (status, message))
validated root (goes_on (language, code)) = do
  l ← checked (validate_language language)
  c ← checked (validate_code code)
  (λ s. commit_all root s.staged s)
  pure (ok (l, c))

-- The uploads of the request: read, checked and committed, or discarded.
unfoldable pub take_uploads : Limits → (ℕ → Bool) → ℕ → List (Result Failure Part) → Handler Ready
unfolding read_parts
take_uploads limits is_space root parts =
    finally
      (catch (read_parts limits is_space root parts (none, none)) as_malformed >>= validated root)
      (λ s. discard_all root s.staged s)
