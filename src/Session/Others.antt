-- ===== src/Session/Others.antt =====
-- What `Session.read_file` gives for one path after `Session.write_file` of another.
use code_executor_api.Prelude.{
  ℕ, Text, split, ◌≡◌, refl, sym, subst, ap, ◌∙◌, false, Option, none, some, Result, ok, err,
}
use code_executor_api.Path.{slash, normalize_sub_path}
use code_executor_api.FileSystem.{
  eloop, enxio, enodev, enotdir, Exception, os_error, Bytes, Node, regular, directory, symlink,
  special, socket, dead_device, fifo, device, Fs, World, Exec, child, kind_at, catch, on_error,
  close, ◌>>=◌,
}
use code_executor_api.FileSystem.Calls.{open_file_at, open_as_file, fstat, mode_of}
use code_executor_api.FileSystem.Returns.{
  on_error-Reraises, Reraises, bind_ok, catch_ok, syscall_ok, open_call_ok,
}
use code_executor_api.FileSystem.Resolve.{IsFresh, IsFile, Resolves, Resolves-Grows}
use code_executor_api.FileSystem.Effects.{Holds}
use code_executor_api.FileSystem.Calm.{calm}
use code_executor_api.FileSystem.Outcomes.{Ends}
use code_executor_api.Content.{Content, fdopen, make_payload, file_payload}
use code_executor_api.Session.{
  init, last, normalised, without_content, only_regular, read_file, write_file,
}
use code_executor_api.Session.Walks.{with_parent_ok}
use code_executor_api.Session.Staging.{normalised_ok}
use code_executor_api.Session.RoundTrip.{Serves, read_file-calm}
use code_executor_api.Session.Spares.{Spared, write_file-Ends}

without_content-Reraises : Reraises without_content
without_content-Reraises (os_error eloop) w w1 a h = cc
without_content-Reraises (os_error enxio) w w1 a h = cc
without_content-Reraises (os_error enodev) w w1 a h = cc
without_content-Reraises (os_error enotdir) w w1 a h = cc
without_content-Reraises (os_error _) w w1 a h = cc
without_content-Reraises _ w w1 a h = cc

opened_file :
    (o : Option ℕ) (k : Option Node) (fs fs' : Fs) (fd : ℕ)
    → open_as_file o k fs ≡ ok (fd, fs')
    → (o ≡ some fd) × (fs ≡ fs')
opened_file (some i) (some (symlink t)) fs fs' fd h = cc
opened_file (some i) (some (special socket)) fs fs' fd h = cc
opened_file (some i) (some (special dead_device)) fs fs' fd h = cc
opened_file (some i) (some (special fifo)) fs fs' fd h = (cc, cc)
opened_file (some i) (some (special device)) fs fs' fd h = (cc, cc)
opened_file (some i) (some (regular b)) fs fs' fd h = (cc, cc)
opened_file (some i) (some (directory es)) fs fs' fd h = (cc, cc)
opened_file (some i) none fs fs' fd h = cc
opened_file none k fs fs' fd h = cc

open_file_at_ok :
    (fd i : ℕ) (name : Text) (w w1 : World)
    → open_file_at fd name w ≡ (ok i, w1)
    → (child w.fs fd name ≡ some i) × (w.fs ≡ w1.fs)
unfolding open_file_at child
open_file_at_ok fd i name w w1 h =
    opened_file (child w.fs fd name) (kind_at w.fs (child w.fs fd name)) w.fs w1.fs i
      (open_call_ok _ w w1 i h)

stated :
    (k : Option Node) (fs fs' : Fs) (n : Node)
    → mode_of fs k ≡ ok (n, fs')
    → (k ≡ some n) × (fs ≡ fs')
stated (some m) fs fs' n h = (cc, cc)
stated none fs fs' n h = cc

fstat_ok :
    (fd : ℕ) (w w1 : World) (n : Node)
    → fstat fd w ≡ (ok n, w1)
    → (w.fs.node fd ≡ some n) × (w.fs ≡ w1.fs)
unfolding fstat
fstat_ok fd w w1 n h = stated (w.fs.node fd) w.fs w1.fs n (syscall_ok _ w w1 n h)

only_regular_ok :
    (n : Node) (c : Bytes) (w w1 : World) → only_regular n w ≡ (ok c, w1) → n ≡ regular c
only_regular_ok (regular b) c w w1 h = cc
only_regular_ok (directory es) c w w1 h = cc
only_regular_ok (symlink t) c w w1 h = cc
only_regular_ok (special s) c w w1 h = cc

-- The payload serves the content that it was made with.
file_payload_ok :
    (fd : ℕ) (content b : Bytes) (w w1 : World)
    → file_payload fd content w ≡ (ok b, w1)
    → content ≡ b
unfolding file_payload
file_payload_ok fd content b w w1 h =
    let (u, w2, p, q) = bind_ok (on_error (fdopen fd) close) _ w w1 b h in
    let (v, w3, p2, q2) = bind_ok (on_error (make_payload fd) close) _ w2 w1 b q in cc

-- A body that is read is the content of the file that the path leads to.
read_file_ok :
    (root : ℕ) (sub_path : Text) (b : Bytes) (w w1 : World)
    → IsFresh w.fs
    → read_file root sub_path w ≡ (ok b, w1)
    → (path : Text) × (normalize_sub_path sub_path ≡ ok path)
      × Serves w.fs root path (last (split slash path)) b
unfolding read_file
read_file_ok root sub_path b w w1 f h =
    let (path, w2, p, q) = bind_ok (normalised sub_path) _ w w1 b h in
    let (n, same) = normalised_ok sub_path path w w2 p in
    let (d, w3, w4, g, r, s, t, e) =
      with_parent_ok root path false opening w2 w1 b (subst IsFresh same f) q in
    let (i, k) = opening_ok d (last (split slash path)) b w3 w4 t in
    (
      path,
      n,
      subst (λ x. Serves x root path (last (split slash path)) b) (sym (same ∙ s refl))
          (d, i, r, k),
    )
  where
    opening : ℕ → Text → Exec Bytes
    opening parent_fd filename = do
      fd ← catch (open_file_at parent_fd filename) without_content
      content ← on_error (fstat fd >>= only_regular) close
      file_payload fd content

    opening_ok :
        (d : ℕ) (filename : Text) (c : Bytes) (u u1 : World)
        → opening d filename u ≡ (ok c, u1)
        → (i : ℕ) × Holds u.fs d filename i c
    opening_ok d filename c u u1 h =
        let (fd, u2, p, q) = bind_ok (catch (open_file_at d filename) without_content) _ u u1 c h in
        let (found, same) =
          open_file_at_ok d fd filename u u2 (
            catch_ok (open_file_at d filename) without_content u u2 fd without_content-Reraises
              p) in
        let (content, u3, p2, q2) =
          bind_ok (on_error (fstat fd >>= only_regular) close) _ u2 u1 c q in
        let (n, u4, p3, q3) =
          bind_ok (fstat fd) only_regular u2 u3 content
            (catch_ok (fstat fd >>= only_regular) _ u2 u3 content (on_error-Reraises close) p2) in
        let (node, same2) = fstat_ok fd u2 u4 n p3 in
        let shape = only_regular_ok n content u4 u3 q3 in
        let served = file_payload_ok fd content c u3 u1 q2 in
        (
          fd,
          (
            found,
            subst (λ x. IsFile x fd c) (sym same) (node ∙ ap some (shape ∙ ap regular served)),
          ),
        )

-- Two paths that do not lead to one entry of one directory.
abbrev pub AreApart : Fs → ℕ → Text → Text → Type 0
AreApart fs root sub_path other =
    (p q : Text) (k : ℕ)
    → normalize_sub_path sub_path ≡ ok p
    → normalize_sub_path other ≡ ok q
    → Resolves fs root (init (split slash p)) k
    → Resolves fs root (init (split slash q)) k
    → last (split slash p) ≡ last (split slash q)
    → ⊥

pub Ends-after :
    (E : Fs → Type 0) (x : Result Exception (Unit {0}) × World) → Ends E (λ v. E) x → E x.1.fs
Ends-after E (ok v, w) h = h
Ends-after E (err e, w) h = h

-- However `write_file` ends, and whatever calls fail on its way, `read_file` of any other path gives
-- after it what it gave before it, where none of its own calls fails: for each shape of content, and
-- each file system in which no inode is in use before it is made. The other path is one that does not
-- lead, after the upload, to the upload's name in the same directory.
pub write_file-read_other :
    (fsize_limit root : ℕ) (sub_path other : Text) (content : Content) (token : Text) (b : Bytes)
    (w : World) (n : ℕ)
    → IsFresh w.fs
    → (read_file root other (calm w.fs n)).0 ≡ ok b
    → AreApart (write_file fsize_limit root sub_path content token w).1.fs root sub_path other
    → (read_file root other (calm (write_file fsize_limit root sub_path content token w).1.fs n)).0
      ≡ ok b
write_file-read_other fsize_limit root sub_path other content token b w n f h apart =
    let w1 : World = (write_file fsize_limit root sub_path content token w).1 in
    let spared : Spared w.fs root sub_path w1.fs =
      Ends-after (Spared w.fs root sub_path) (write_file fsize_limit root sub_path content token w)
        (write_file-Ends fsize_limit root sub_path content token w f) in
    let (q, e, (d, i, r, k)) =
      read_file_ok root other b (calm w.fs n) (read_file root other (calm w.fs n)).1 f
        (ap (λ x. (x, (read_file root other (calm w.fs n)).1)) h) in
    let r1 : Resolves w1.fs root (init (split slash q)) d =
      Resolves-Grows w.fs w1.fs root d (init (split slash q)) spared.grows r in
    let served : Serves w1.fs root q (last (split slash q)) b = (
      d,
      i,
      r1,
      spared.files d i (last (split slash q)) b (λ p e2 r2 same. apart p q d e2 e r2 r1 same) k,
    ) in
    ap (λ x. x.0) (read_file-calm root other q b w1.fs n e served)
