-- ===== src/Harness/Client.antt =====
-- harness.py, bodies of checks as clients of the files API: `check_file_lifecycle` and
-- `check_put_path_edges`.
use code_executor_api.Prelude.{
  ℕ, ◌==◌, Text, codes, text_eq, Bool, ◌&&◌, [], ◌++◌, Result, ok, err, if◌then◌else◌,
}
use code_executor_api.FileSystem.{Bytes}
use code_executor_api.Harness.Runs.{Body, returns, asserts}

-- The files of one session, as a client reaches them: a status, and the body of a `GET`.
pub record FilesApi (S : Type 0) : Type 0 where
  pub put : Text → Bytes → S → ℕ × S
  pub get : Text → S → (ℕ × Bytes) × S
  pub delete : Text → S → ℕ × S

-- What a client does while the server's state is `S`: it goes on with a value, or its check ends.
abbrev pub Client : Type 0 → Type 0 → Type 0
Client S A = S → Result Body A × S

abbrev pub continue : {S A B : Type 0} → Result Body A → (A → Client S B) → S → Result Body B × S
continue (ok a) f s = f a s
continue (err e) f s = (err e, s)

infixl 5 ◌>>=◌ ◌>>◌
abbrev pub ◌>>=◌ : {S A B : Type 0} → Client S A → (A → Client S B) → Client S B
◌>>=◌ m f s = let (r, s') = m s in continue r f s'

abbrev pub ◌>>◌ : {S A B : Type 0} → Client S A → Client S B → Client S B
m >> n = m >>= λ _. n

-- A request and its answer
abbrev pub request : {S A : Type 0} → (S → A × S) → Client S A
request send s = let (a, s') = send s in (ok a, s')

-- `assert holds, message`
abbrev pub assert_that : {S : Type 0} → Bool → Text → Client S (Unit {0})
assert_that holds message s = if holds then (ok tt, s) else (err (asserts message), s)

abbrev ended : {S : Type 0} → Result Body (Unit {0}) × S → Body × S
ended (ok u, s) = (returns, s)
ended (err e, s) = (e, s)

abbrev pub hello_txt : Text
hello_txt = codes "hello.txt"

abbrev pub hello_world : Bytes
hello_world = codes "hello world"

abbrev nested_txt : Text
nested_txt = codes "deep/nested/dirs/file.txt"

-- The `str` of a status and the `repr` of a body are given.
module _ {S : Type 0} (api : FilesApi S) (show : ℕ → Text) (repr : Bytes → Text) where
  file_lifecycle : Client S (Unit {0})
  file_lifecycle = do
    status ← request (api.put hello_txt hello_world)
    assert_that (status == 204) (codes "PUT failed: " ++ show status)
    (status, content) ← request (api.get hello_txt)
    assert_that (status == 200) (codes "GET failed: " ++ show status)
    assert_that (text_eq content hello_world) (codes "Unexpected content: " ++ repr content)
    status ← request (api.delete hello_txt)
    assert_that (status == 204) (codes "DELETE file failed: " ++ show status)
    (status, content) ← request (api.get hello_txt)
    assert_that (status == 404) (codes "Expected 404 after file deletion, got " ++ show status)

  -- `check_file_lifecycle`
  unfoldable pub check_file_lifecycle : S → Body × S
  unfolding file_lifecycle
  check_file_lifecycle s = ended (file_lifecycle s)

  put_path_edges : Client S (Unit {0})
  put_path_edges = do
    status ← request (api.put nested_txt (codes "nested"))
    assert_that (status == 204) (codes "PUT creating parent directories failed: " ++ show status)
    (status, content) ← request (api.get nested_txt)
    assert_that (status == 200 && text_eq content (codes "nested"))
        (codes "nested PUT did not land")
    status ← request (api.put (codes "deep") (codes "clobber"))
    assert_that (status == 400) (codes "Expected 400 writing onto a directory, got " ++ show status)
    (status, content) ← request (api.get nested_txt)
    assert_that (status == 200) (codes "A refused PUT onto a directory damaged its contents")
    status ← request (api.put (codes "plain.txt") (codes "original"))
    assert_that (status == 204) (codes "PUT plain.txt failed: " ++ show status)
    status ← request (api.put (codes "plain.txt/child.txt") (codes "through a file"))
    assert_that (status == 400)
        (codes "Expected 400 writing through a regular file, got " ++ show status)
    (status, content) ← request (api.get (codes "plain.txt"))
    assert_that (text_eq content (codes "original"))
        (codes "A refused PUT damaged the file in the path")
    status ← request (api.put (codes "empty.txt") [])
    assert_that (status == 204) (codes "Zero-byte PUT failed: " ++ show status)
    (status, content) ← request (api.get (codes "empty.txt"))
    assert_that (status == 200) (codes "Expected 200 reading a zero-byte file, got " ++ show status)
    assert_that (text_eq content []) (codes "A zero-byte file read back non-empty")

  -- `check_put_path_edges`
  unfoldable pub check_put_path_edges : S → Body × S
  unfolding put_path_edges
  check_put_path_edges s = ended (put_path_edges s)
