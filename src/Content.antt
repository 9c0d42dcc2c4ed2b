-- ===== src/Content.antt =====
-- code_executor_api/file_helpers.py: the size-capped loops over a request's content, and the staging
-- of an upload in a hidden temporary file.
use code_executor_api.Prelude.{
  ℕ, ◌+◌, Text, codes, List, [], ◌∷◌, ◌++◌, Result, ok, err, ltb, length, if◌then◌else◌,
}
use code_executor_api.FileSystem.{
  enoent, Exception, os_error, entity_too_large, Bytes, Exec, pure, raise, ◌>>=◌, ◌>>◌, catch,
  finally, on_error, close, syscall,
}
use code_executor_api.FileSystem.Calls.{create_file_at, write_to, unlink_at}

-- What a call of a reader gives: a chunk, or an exception of the connection.
pub data Read : Type 0 where
  chunk : Bytes → Read
  fails : Exception → Read

-- The shapes in which a body arrives. A stream is the chunks that its reader will return before
-- `at_eof`; aiohttp decides their sizes.
pub data Content : Type 0 where
  in_memory : Bytes → Content
  stream : List Read → Content

-- `_prepare_reader`: bytes are one chunk, then the end.
unfoldable pub prepare_reader : Content → List Read
prepare_reader (in_memory b) = chunk b ∷ []
prepare_reader (stream reads) = reads

-- `_write_content`
unfoldable pub write_content : ℕ → ℕ → ℕ → List Read → Exec ℕ
write_content fd max_size actual_size [] = pure actual_size
write_content fd max_size actual_size (fails e ∷ reads) = raise e
write_content fd max_size actual_size (chunk [] ∷ reads) = pure actual_size
write_content fd max_size actual_size (chunk (b ∷ bs) ∷ reads) =
    let size = actual_size + length (b ∷ bs) in
    let rest = write_content fd max_size size reads in
    if ltb max_size size then raise entity_too_large else (write_to fd (b ∷ bs) >> rest)

-- `write_file_content`
unfoldable pub write_file_content : ℕ → Content → ℕ → Exec ℕ
write_file_content fd content max_size = write_content fd max_size 0 (prepare_reader content)

-- The loop of `read_content`, over what `writer` holds.
unfoldable pub read_loop : ℕ → ℕ → Bytes → List Read → Result Exception Bytes
read_loop max_size actual_size written [] = ok written
read_loop max_size actual_size written (fails e ∷ reads) = err e
read_loop max_size actual_size written (chunk [] ∷ reads) = ok written
read_loop max_size actual_size written (chunk (b ∷ bs) ∷ reads) =
    let size = actual_size + length (b ∷ bs) in
    let rest = read_loop max_size size (written ++ b ∷ bs) reads in
    if ltb max_size size then err entity_too_large else rest

-- `read_content`
unfoldable pub read_content : Content → ℕ → Result Exception Bytes
read_content content max_size = read_loop max_size 0 [] (prepare_reader content)

-- The name of a staged file, from `secrets.token_urlsafe(8)`.
abbrev pub temporary_name : Text → Text
temporary_name token = codes ".code_executor_upload_" ++ token

abbrev pub ignore_not_found : Exception → Exec (Unit {0})
ignore_not_found (os_error enoent) = pure tt
ignore_not_found e = raise e

-- `contextlib.suppress(FileNotFoundError)` around an action
unfoldable pub suppress_not_found : Exec (Unit {0}) → Exec (Unit {0})
suppress_not_found m = catch m ignore_not_found

-- The making of a file object of a descriptor, by `os.fdopen` or `aiofiles.open`, which may fail.
unfoldable pub fdopen : ℕ → Exec (Unit {0})
fdopen fd = syscall (λ fs. ok (tt, fs))

-- `async with aopen(fd, "wb", closefd=True)`: the descriptor is closed with the file object, or by the
-- handler if there is no such object.
unfoldable pub write_opened : ℕ → Content → ℕ → Exec ℕ
write_opened fd content max_size =
    on_error (fdopen fd) close >> finally (write_file_content fd content max_size) close

-- `write_file_to_temp`: the descriptor is closed when the content has been written or has failed, and
-- a failure takes the file away again.
unfoldable pub write_file_to_temp : ℕ → Content → ℕ → Text → Exec (Text × ℕ)
write_file_to_temp parent_fd content max_size token = do
  fd ← create_file_at parent_fd (temporary_name token)
  size ←
      catch (write_opened fd content max_size)
        (λ e. do suppress_not_found (unlink_at parent_fd (temporary_name token)); raise e)
  pure (temporary_name token, size)

-- The making of an `IOBasePayload` with its headers, which may fail.
unfoldable pub make_payload : ℕ → Exec (Unit {0})
make_payload fd = syscall (λ fs. ok (tt, fs))

-- `read_file` of the module: it takes the descriptor over, and closes it if the payload is not made,
-- before the file object has it or with that object. The payload is given by what it will serve.
unfoldable pub file_payload : ℕ → Bytes → Exec Bytes
file_payload fd content = do
  on_error (fdopen fd) close
  on_error (make_payload fd) close
  pure content
