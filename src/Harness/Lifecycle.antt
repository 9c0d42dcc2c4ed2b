-- ===== src/Harness/Lifecycle.antt =====
-- harness.py's `check_file_lifecycle` against the handlers of code_executor_api/routes/files.py.
use code_executor_api.Prelude.{
  ℕ, suc, ◌≤◌, Text, codes, text_eq, strip, split, ◌≡◌, refl, sym, subst, ◌∙◌, false, none, List,
  [], ◌∷◌, Result, ok, err, ltb, arith, ok_inj,
}
use code_executor_api.Config.{Limits}
use code_executor_api.Path.{is_slash, is_empty, slash, normalize_sub_path}
use code_executor_api.FileSystem.{enoent, os_error, Bytes, Fs, child}
use code_executor_api.FileSystem.Resolve.{IsFresh, IsDirectory, IsNoDirectory, Resolves}
use code_executor_api.FileSystem.Calm.{calm}
use code_executor_api.Content.{
  Content, chunk, stream, read_content, read_loop, prepare_reader, temporary_name,
}
use code_executor_api.Session.{init, last, write_file, read_file, delete_file}
use code_executor_api.Session.Listing.{Attributes, Entry}
use code_executor_api.Session.RoundTrip.{Serves, write_file_ok, read_file-calm}
use code_executor_api.Session.Writes.{write_file-calm}
use code_executor_api.Session.Deletes.{delete_file-read_file}
use code_executor_api.Session.Others.{Ends-after}
use code_executor_api.Session.Spares.{Spared, write_file-Ends}
use code_executor_api.Routes.{
  Failure, Local, Call, locks, unlocks, Response, refuses, answers, files, with_lock, catch,
  finally, ◌>>=◌, ◌>>◌,
}
use code_executor_api.Routes.Files.{
  Served, file_content, listing, get_under_lock, handle_get_file, handle_put_file,
  handle_delete_file,
}
use code_executor_api.Harness.Runs.{returns}
use code_executor_api.Harness.Client.{FilesApi, hello_txt, hello_world, check_file_lifecycle}

-- The status of an answer; aiohttp answers 500 where a handler raises.
abbrev pub http_status {ℓ} : {A : Type ℓ} → Result Failure (Response A) → ℕ
http_status (ok (refuses status message)) = status
http_status (ok (answers status a)) = status
http_status (err e) = 500

-- The body of an answer to a `GET`, with the JSON of a listing and of an error given.
abbrev pub body_of :
    (Text → List Entry → Bytes) → (Text → Bytes) → Result Failure (Response Served) → Bytes
body_of json error (ok (answers status (file_content b))) = b
body_of json error (ok (answers status (listing path entries))) = json path entries
body_of json error (ok (refuses status message)) = error message
body_of json error (err e) = []

-- The files API of a session that is registered, whose lock is free, as the handlers serve it. A
-- body arrives as one chunk.
abbrev pub served :
    Limits → Attributes → (Text → List Entry → Bytes) → (Text → Bytes) → ℕ → Text → FilesApi Local
served limits attributes json error root token = record {
  put = λ path b s.
      let (r, s') = handle_put_file limits (ok root) path (stream (chunk b ∷ [])) token s in
      (http_status r, s');
  get = λ path s.
      let (r, s') = handle_get_file attributes (ok root) path s in
      ((http_status r, body_of json error r), s');
  delete = λ path s. let (r, s') = handle_delete_file (ok root) path s in (http_status r, s');
}

-- The handler's state around a file system in which no call fails.
abbrev around : Fs → ℕ → List (Text × Text) → List Call → Local
around fs n staged calls = record { world = calm fs n; staged = staged; calls = calls }

module _ (fs fs' : Fs) (n m root : ℕ) (staged : List (Text × Text)) (calls : List Call) where
  put-answers :
      (limits : Limits) (sub_path : Text) (body : Content) (token : Text)
      → write_file limits.container_ulimit_fsize root sub_path body token (calm fs n)
        ≡ (ok tt, calm fs' m)
      → handle_put_file limits (ok root) sub_path body token (around fs n staged calls)
        ≡ (ok (answers 204 tt), around fs' m staged (unlocks ∷ locks ∷ calls))
  unfolding handle_put_file with_lock catch finally files ◌>>=◌ ◌>>◌
  put-answers limits sub_path body token h = rw h refl

  delete-answers :
      (sub_path : Text)
      → delete_file root sub_path (calm fs n) ≡ (ok tt, calm fs' m)
      → handle_delete_file (ok root) sub_path (around fs n staged calls)
        ≡ (ok (answers 204 tt), around fs' m staged (unlocks ∷ locks ∷ calls))
  unfolding handle_delete_file with_lock catch finally files ◌>>=◌ ◌>>◌
  delete-answers sub_path h = rw h refl

  get-answers :
      (attributes : Attributes) (sub_path : Text) (b : Bytes)
      → is_empty (strip is_slash sub_path) ≡ false
      → read_file root sub_path (calm fs n) ≡ (ok b, calm fs' m)
      → handle_get_file attributes (ok root) sub_path (around fs n staged calls)
        ≡ (ok (answers 200 (file_content b)), around fs' m staged (unlocks ∷ locks ∷ calls))
  unfolding handle_get_file get_under_lock with_lock catch finally files ◌>>=◌ ◌>>◌
  get-answers attributes sub_path b e h = rw (e, h) refl

  get-refuses :
      (attributes : Attributes) (sub_path : Text)
      → is_empty (strip is_slash sub_path) ≡ false
      → read_file root sub_path (calm fs n) ≡ (err (os_error enoent), calm fs' m)
      → handle_get_file attributes (ok root) sub_path (around fs n staged calls)
        ≡ (ok (refuses 404 (codes "File not found")), around fs' m staged (unlocks ∷ locks ∷ calls))
  unfolding handle_get_file get_under_lock with_lock catch finally files ◌>>=◌ ◌>>◌
  get-refuses attributes sub_path e h = rw (e, h) refl

-- An upload, what it serves, its deletion, and what is served then.
lifecycle :
    (fs : Fs) (n fsize_limit root d : ℕ) (sub_path path : Text) (content : Content) (token : Text)
    (c : Bytes)
    → IsFresh fs
    → normalize_sub_path sub_path ≡ ok path
    → Resolves fs root (init (split slash path)) d
    → IsDirectory fs d
    → child fs d (temporary_name token) ≡ none
    → IsNoDirectory fs d (last (split slash path))
    → read_content content fsize_limit ≡ ok c
    → (fs1 : Fs) × (fs2 : Fs) × (write_file fsize_limit root sub_path content token (calm fs n)
        ≡ (ok tt, calm fs1 n))
      × ((m : ℕ) → read_file root sub_path (calm fs1 m) ≡ (ok c, calm fs1 (suc m)))
      × ((m : ℕ) → delete_file root sub_path (calm fs1 m) ≡ (ok tt, calm fs2 m))
      × ((m : ℕ) → read_file root sub_path (calm fs2 m) ≡ (err (os_error enoent), calm fs2 m))
lifecycle fs n fsize_limit root d sub_path path content token c f e r dir new t h =
    let (fs1, put) =
      write_file-calm fs n fsize_limit root d sub_path path content token c f e r dir new t h in
    let (path', c', e', h', k') =
      write_file_ok fsize_limit root sub_path content token (calm fs n) (calm fs1 n) tt f put in
    let k : Serves fs1 root path (last (split slash path)) c =
      subst (λ x. Serves fs1 root path (last (split slash path)) x) (ok_inj (sym h' ∙ h))
        (subst (λ p. Serves fs1 root p (last (split slash p)) c') (ok_inj (sym e' ∙ e)) k') in
    let spared : Spared fs root sub_path fs1 =
      subst (λ x. Spared fs root sub_path x.1.fs) put
        (Ends-after (Spared fs root sub_path)
          (write_file fsize_limit root sub_path content token (calm fs n))
          (write_file-Ends fsize_limit root sub_path content token (calm fs n) f)) in
    let (fs2, delete, missing) =
      delete_file-read_file fs1 root sub_path path c spared.grows.is_fresh e k in
    (fs1, fs2, put, λ m. read_file-calm root sub_path path c fs1 m e k, delete, missing)

hello_accepted : normalize_sub_path hello_txt ≡ ok hello_txt
unfolding normalize_sub_path
hello_accepted = refl

hello_read :
    (cap : ℕ) → 11 ≤ cap → read_content (stream (chunk hello_world ∷ [])) cap ≡ ok hello_world
unfolding read_content read_loop prepare_reader
hello_read cap h = let p : ltb cap 11 ≡ false = ground arith in rw p refl

-- The harness's check of a file's life passes against the handlers: of a session that is registered and
-- whose lock is free, in any state of its directory where no call of the kernel fails, `hello.txt` is no
-- directory and the temporary name is not taken, if the cap lets eleven bytes through. The upload is
-- answered by 204, the bytes that were sent are served, the deletion is answered by 204, and the file is
-- then answered by 404.
pub check_file_lifecycle-returns :
    (limits : Limits) (attributes : Attributes) (json : Text → List Entry → Bytes)
    (error : Text → Bytes) (show : ℕ → Text) (repr : Bytes → Text) (fs : Fs) (n root : ℕ)
    (token : Text) (staged : List (Text × Text)) (calls : List Call)
    → IsFresh fs
    → IsDirectory fs root
    → child fs root (temporary_name token) ≡ none
    → IsNoDirectory fs root hello_txt
    → 11 ≤ limits.container_ulimit_fsize
    → (check_file_lifecycle
        (served limits attributes json error root token)
        show
        repr
        (record { world = calm fs n; staged = staged; calls = calls })).0
      ≡ returns
unfolding check_file_lifecycle split strip text_eq
check_file_lifecycle-returns limits attributes json error show repr fs n root token staged calls f
      dir new t h =
    let (fs1, fs2, put, read, delete, missing) =
      lifecycle fs n limits.container_ulimit_fsize root root hello_txt hello_txt
        (stream (chunk hello_world ∷ [])) token hello_world f hello_accepted refl dir new t
        (hello_read limits.container_ulimit_fsize h) in
    rw
      (
        put-answers fs fs1 n n root staged calls limits hello_txt (stream (chunk hello_world ∷ []))
            token put,
        get-answers fs1 fs1 n (suc n) root staged (unlocks ∷ locks ∷ calls) attributes hello_txt
            hello_world refl (read n),
        delete-answers fs1 fs2 (suc n) (suc n) root staged
            (unlocks ∷ locks ∷ unlocks ∷ locks ∷ calls) hello_txt (delete (suc n)),
        get-refuses fs2 fs2 (suc n) (suc n) root staged
            (unlocks ∷ locks ∷ unlocks ∷ locks ∷ unlocks ∷ locks ∷ calls) attributes hello_txt refl
            (missing (suc n)),
      )
      refl
