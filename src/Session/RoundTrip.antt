-- ===== src/Session/RoundTrip.antt =====
-- `Session.write_file` and then `Session.read_file`.
use code_executor_api.Prelude.{
  ℕ, suc, Text, split, ◌≡◌, refl, sym, subst, ap, true, false, List, [], ◌∷◌, Result, ok, err,
}
use code_executor_api.Path.{slash, normalize_sub_path}
use code_executor_api.FileSystem.{
  syscall, enospc, edquot, Exception, os_error, Bytes, Fs, World, Exec, catch, ◌>>◌,
}
use code_executor_api.FileSystem.Calls.{replace_at}
use code_executor_api.FileSystem.Returns.{Reraises, bind_ok, catch_ok}
use code_executor_api.FileSystem.Resolve.{
  IsFresh, IsDirectory, Resolves, Resolves-unique, Resolves-Grows, child-IsDirectory,
}
use code_executor_api.FileSystem.Effects.{Holds, replace_at_ok}
use code_executor_api.FileSystem.Calm.{calm, open_root-calm, open_file_at-calm, fstat-calm}
use code_executor_api.Content.{
  file_payload, fdopen, make_payload, Content, read_content, write_file_to_temp,
}
use code_executor_api.Session.{
  init, last, normalised, with_parent, read_file, resource_limits, stage_file, commit_staged_file,
  discard_staged_file, ignore_os_error, storage_limits, write_file,
}
use code_executor_api.Session.Walks.{with_parent_ok, descend-calm, less_one}
use code_executor_api.Session.Staging.{
  normalised_ok, resource_limits-Reraises, write_file_to_temp_ok,
}

-- The name in the directory of `path` is a file with this content.
abbrev pub Serves : Fs → ℕ → Text → Text → Bytes → Type 0
Serves fs root path name c =
    (d : ℕ) × (i : ℕ) × Resolves fs root (init (split slash path)) d × Holds fs d name i c

-- What holds once an upload is staged, and of its name alone.
abbrev Staged : ℕ → Text → Bytes → Result Exception (Text × Text) × World → Type 0
Staged root sub_path c (ok (path, name), w) =
    (normalize_sub_path sub_path ≡ ok path) × IsFresh w.fs × Serves w.fs root path name c
Staged root sub_path c (err e, w) = Unit

placed :
    (fsize_limit root : ℕ) (path : Text) (content : Content) (token : Text) (y : Text × ℕ)
    (w w1 : World)
    → IsFresh w.fs
    → catch
        (with_parent root path true
          (λ parent_fd _. write_file_to_temp parent_fd content fsize_limit token))
        resource_limits
        w
      ≡ (ok y, w1)
    → (c : Bytes) × (read_content content fsize_limit ≡ ok c)
      × IsFresh w1.fs
      × Serves w1.fs root path y.0 c
placed fsize_limit root path content token y w w1 f h =
    let body : ℕ → Text → Exec (Text × ℕ) =
      λ parent_fd _. write_file_to_temp parent_fd content fsize_limit token in
    let (d, w2, w3, g, r, s, t, e) = with_parent_ok root path true body w w1 y f (
      catch_ok (with_parent root path true body) resource_limits w w1 y resource_limits-Reraises
        h) in
    let (m, (i, (c, l, g2, k))) =
      write_file_to_temp_ok d fsize_limit content token y w2 w3 g.is_fresh t in
    let (f2, (d2, i2, r2, k2)) =
      subst (λ x. IsFresh x × Serves x root path y.0 c) e
        (
          g2.is_fresh,
          (
            d,
            i,
            Resolves-Grows w2.fs w3.fs root d (init (split slash path)) g2 r,
            subst (λ n. Holds w3.fs d n i c) m k,
          ),
        ) in
    (c, l, f2, (d2, i2, r2, k2))

pub stage_file_ok :
    (fsize_limit root : ℕ) (sub_path : Text) (content : Content) (token : Text) (x : Text × Text)
    (w w1 : World)
    → IsFresh w.fs
    → stage_file fsize_limit root sub_path content token w ≡ (ok x, w1)
    → (c : Bytes) × (read_content content fsize_limit ≡ ok c) × Staged root sub_path c (ok x, w1)
unfolding stage_file
stage_file_ok fsize_limit root sub_path content token x w w1 f h =
    let (path, w2, p, q) = bind_ok (normalised sub_path) _ w w1 x h in
    let (n, same) = normalised_ok sub_path path w w2 p in
    let (y, w3, p2, q2) =
      bind_ok
        (catch
          (with_parent root path true
            (λ parent_fd _. write_file_to_temp parent_fd content fsize_limit token))
          resource_limits)
        _ w2 w1 x q in
    let (c, l, f2, k) =
      placed fsize_limit root path content token y w2 w3 (subst IsFresh same f) p2 in
    (c, l, subst (Staged root sub_path c) q2 (n, f2, k))

commit_staged_file_ok :
    (root : ℕ) (path name : Text) (c : Bytes) (w w1 : World) (u : Unit {0})
    → IsFresh w.fs
    → Serves w.fs root path name c
    → commit_staged_file root path name w ≡ (ok u, w1)
    → Serves w1.fs root path (last (split slash path)) c
unfolding commit_staged_file
commit_staged_file_ok root path name c w w1 u f (d, i, r, k) h =
    let parts : List Text = init (split slash path) in
    let (d2, w2, w3, g, r2, s, t, e) =
      with_parent_ok root path false (λ parent_fd filename. replace_at parent_fd name filename) w w1
        u f h in
    let r1 : Resolves w2.fs root parts d = subst (λ x. Resolves x root parts d) (s refl) r in
    let k1 : Holds w2.fs d name i c = subst (λ x. Holds x d name i c) (s refl) k in
    let same : d ≡ d2 = Resolves-unique w2.fs root d d2 parts r1 r2 in
    let (g2, k2) =
      replace_at_ok d2 i name (last (split slash path)) c w2 w3 u g.is_fresh
        (subst (λ x. Holds w2.fs x name i c) same k1) t in
    subst (λ x. Serves x root path (last (split slash path)) c) e
      (d2, i, Resolves-Grows w2.fs w3.fs root d2 parts g2 r2, k2)

storage_limits-Reraises : Reraises storage_limits
storage_limits-Reraises (os_error enospc) w w1 a h = cc
storage_limits-Reraises (os_error edquot) w w1 a h = cc
storage_limits-Reraises (os_error _) w w1 a h = cc
storage_limits-Reraises _ w w1 a h = cc

discarding-Reraises :
    (m : Exec (Unit {0})) → Reraises (λ e. catch m ignore_os_error >> storage_limits e)
discarding-Reraises m e w w1 a h =
    let (u, w2, p, q) = bind_ok (catch m ignore_os_error) _ w w1 a h in
    storage_limits-Reraises e w2 w1 a q

pub write_file_ok :
    (fsize_limit root : ℕ) (sub_path : Text) (content : Content) (token : Text) (w w1 : World)
    (u : Unit {0})
    → IsFresh w.fs
    → write_file fsize_limit root sub_path content token w ≡ (ok u, w1)
    → (path : Text) × (c : Bytes) × (normalize_sub_path sub_path ≡ ok path)
      × (read_content content fsize_limit ≡ ok c)
      × Serves w1.fs root path (last (split slash path)) c
unfolding write_file
write_file_ok fsize_limit root sub_path content token w w1 u f h =
    let ((path, name), w2, p, q) =
      bind_ok (stage_file fsize_limit root sub_path content token) _ w w1 u h in
    let (c, l, (n, f2, k)) =
      stage_file_ok fsize_limit root sub_path content token (path, name) w w2 f p in
    (
      path,
      c,
      n,
      l,
      commit_staged_file_ok root path name c w2 w1 u f2 k (
          catch_ok (commit_staged_file root path name)
            (λ e. catch (discard_staged_file root path name) ignore_os_error >> storage_limits e) w2
            w1 u (discarding-Reraises (discard_staged_file root path name)) q),
    )

pub resolved-IsDirectory :
    (fs : Fs) (i d : ℕ) (parts : List Text)
    → Resolves fs i parts d
    → IsDirectory fs d
    → IsDirectory fs i
resolved-IsDirectory fs i d [] r k = subst (IsDirectory fs) (sym r) k
resolved-IsDirectory fs i d (p ∷ parts) (j, (c, k), r) q = child-IsDirectory fs i j p c

-- A file that a path leads to is served, if no call fails; its payload has a descriptor.
pub read_file-calm :
    (root : ℕ) (sub_path path : Text) (c : Bytes) (fs : Fs) (n : ℕ)
    → normalize_sub_path sub_path ≡ ok path
    → Serves fs root path (last (split slash path)) c
    → read_file root sub_path (calm fs n) ≡ (ok c, calm fs (suc n))
unfolding read_file with_parent file_payload fdopen make_payload syscall
read_file-calm root sub_path path c fs n e (d, i, r, k) =
    let dir = resolved-IsDirectory fs root d _ r (child-IsDirectory fs d i _ k.0) in
    rw
      (
        e,
        open_root-calm fs n root dir,
        descend-calm fs n root d (init (split slash path)) false r,
        open_file_at-calm fs (suc n) d i (last (split slash path)) c k,
        fstat-calm fs (suc (suc n)) i c k.1,
        less_one (suc n),
      )
      refl

-- Once `write_file` has returned, and whatever calls have failed on its way, `read_file` of the same
-- path gives the bytes that were sent, which the cap has let through, if then no call fails: for each
-- shape of content, each path, and each file system in which no inode is in use before it is made.
pub write_file-read_file :
    (fsize_limit root : ℕ) (sub_path : Text) (content : Content) (token : Text) (w : World) (n : ℕ)
    → IsFresh w.fs
    → (write_file fsize_limit root sub_path content token w).0 ≡ ok tt
    → (c : Bytes) × (read_content content fsize_limit ≡ ok c)
      × ((read_file root sub_path
            (calm (write_file fsize_limit root sub_path content token w).1.fs n)).0
          ≡ ok c)
write_file-read_file fsize_limit root sub_path content token w n f h =
    let w1 : World = (write_file fsize_limit root sub_path content token w).1 in
    let (path, c, m, l, k) =
      write_file_ok fsize_limit root sub_path content token w w1 tt f (ap (λ r. (r, w1)) h) in
    (c, l, ap (λ x. x.0) (read_file-calm root sub_path path c w1.fs n m k))
