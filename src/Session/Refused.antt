-- ===== src/Session/Refused.antt =====
-- `Session.write_file` of content that is refused: its error, and the state that it leaves.
use code_executor_api.Prelude.{
  ℕ, suc, ◌+◌, ◌==◌, ==_iff, Text, text_eq, text_eq_refl, split, ◌≡◌, ◌≢◌, refl, sym, ap, ◌∙◌, true,
  false, Bool-cases, inl, inr, none, some, List, [], ◌∷◌, ◌++◌, ok, err, ltb, length, arith,
}
use code_executor_api.Path.{slash, normalize_sub_path}
use code_executor_api.FileSystem.{
  enospc, edquot, Exception, os_error, entity_too_large, resource_limit, file_size_limit,
  storage_limit, Bytes, Fs, World, child, entry, without, regular, directory, set_node, add_child,
  syscall,
}
use code_executor_api.FileSystem.Calls.{unlink_at}
use code_executor_api.FileSystem.Resolve.{IsFresh, IsDirectory, IsFile, Resolves, fresh-apart}
use code_executor_api.FileSystem.Growth.{==_refl, add_child-Finds, set_node-IsFile}
use code_executor_api.FileSystem.Calm.{calm, open_root-calm, create_file_at-calm, write_to-calm}
use code_executor_api.Content.{
  Read, chunk, fails, Content, prepare_reader, write_content, write_file_content, read_loop,
  read_content, temporary_name, suppress_not_found, write_file_to_temp, write_opened, fdopen,
}
use code_executor_api.Session.{init, with_parent, resource_limits, stage_file, write_file}
use code_executor_api.Session.Walks.{descend-calm, less_one}
use code_executor_api.Session.RoundTrip.{resolved-IsDirectory}

-- The two states differ at most in what inode `m` is.
abbrev pub DiffersAt : ℕ → Fs → Fs → Type 0
DiffersAt m fs fs' = (k : ℕ) → k ≢ m → fs'.node k ≡ fs.node k

apart : (m k : ℕ) → k ≢ m → (m == k) ≡ false
apart m k h = elim (Bool-cases (m == k)) [ inl t ↦ absurd (h (sym ((==_iff m k).0 t))) | inr t ↦ t ]

set_node-DiffersAt : (fs : Fs) (m : ℕ) (b : Bytes) → DiffersAt m fs (set_node fs m (regular b))
set_node-DiffersAt fs m b k h = rw (apart m k h) refl

-- The loop stops where the reader fails or the cap is passed, with what it has written until then.
write_content-refused :
    (fs : Fs) (n m max_size actual_size : ℕ) (b : Bytes) (reads : List Read) (e : Exception)
    → IsFile fs m b
    → read_loop max_size actual_size b reads ≡ err e
    → (fs' : Fs) × (write_content m max_size actual_size reads (calm fs n) ≡ (err e, calm fs' n))
      × DiffersAt m fs fs'
      × ((c : Bytes) × IsFile fs' m c)
unfolding write_content read_loop
write_content-refused fs n m max_size actual_size b [] e r h = cc
write_content-refused fs n m max_size actual_size b (fails x ∷ reads) e r h =
    (fs, cc, λ k a. refl, (b, r))
write_content-refused fs n m max_size actual_size b (chunk [] ∷ reads) e r h = cc
write_content-refused fs n m max_size actual_size b (chunk (x ∷ xs) ∷ reads) e r h =
    elim (Bool-cases (ltb max_size (actual_size + length (x ∷ xs)))) [
      | inl t ↦ let p = rw t at h in (fs, rw t (cc), λ k a. refl, (b, r))
      | inr t ↦
          let fs1 : Fs = set_node fs m (regular (b ++ x ∷ xs)) in
          let (fs', p, same, file) =
            write_content-refused fs1 n m max_size (actual_size + length (x ∷ xs)) (b ++ x ∷ xs)
              reads e (set_node-IsFile fs m (b ++ x ∷ xs)) (rw t at h) in
          (
            fs',
            rw (t, write_to-calm fs n m b (x ∷ xs) r) p,
            λ k a. same k a ∙ set_node-DiffersAt fs m (b ++ x ∷ xs) k a,
            file,
          )
    ]

without-absent : (es : List (Text × ℕ)) (name : Text) → entry name es ≡ none → without name es ≡ es
unfolding entry without
without-absent [] name h = refl
without-absent ((m, i) ∷ es) name h = elim (Bool-cases (text_eq m name)) [
  | inl t ↦ absurd (let p = rw t at h in ground arith)
  | inr t ↦ rw t (ap (λ l. (m, i) ∷ l) (without-absent es name (rw t at h)))
]

-- Taking away the entry that was made last.
unlink-calm :
    (fs : Fs) (n d m : ℕ) (name : Text) (c : Bytes) (es : List (Text × ℕ))
    → fs.node d ≡ some (directory ((name, m) ∷ es))
    → entry name es ≡ none
    → IsFile fs m c
    → suppress_not_found (unlink_at d name) (calm fs n)
      ≡ (ok tt, calm (set_node fs d (directory es)) n)
unfolding suppress_not_found unlink_at syscall child entry without
unlink-calm fs n d m name c es h new r =
    rw (h, text_eq_refl name) (rw r (rw (h, text_eq_refl name, without-absent es name new) refl))

module _ (fs : Fs) (d : ℕ) (name : Text) (es : List (Text × ℕ)) (f : IsFresh fs)
    (dir : fs.node d ≡ some (directory es)) where
  abbrev made : Fs
  made = add_child fs d name (regular [])

  d-apart : (fs.next == d) ≡ false
  d-apart = fresh-apart fs d (directory es) f dir

  made-directory : made.node d ≡ some (directory ((name, fs.next) ∷ es))
  unfolding add_child
  made-directory = rw (d-apart, ==_refl d, dir) refl

  -- With its entry gone, the new inode is all that is different.
  unmade-DiffersAt :
      (fs2 : Fs) → DiffersAt fs.next made fs2 → DiffersAt fs.next fs (set_node fs2 d (directory es))
  unfolding add_child
  unmade-DiffersAt fs2 same k a = elim (Bool-cases (d == k)) [
    | inl t ↦ rw t (sym dir ∙ ap fs.node ((==_iff d k).0 t))
    | inr t ↦ rw t (same k a ∙ rw (apart fs.next k a, t) refl)
  ]

-- A failure takes the temporary file away again.
write_file_to_temp-refused :
    (fs : Fs) (n d max_size : ℕ) (content : Content) (token : Text) (e : Exception)
    → IsFresh fs
    → IsDirectory fs d
    → child fs d (temporary_name token) ≡ none
    → read_content content max_size ≡ err e
    → (fs' : Fs) × (write_file_to_temp d content max_size token (calm fs n) ≡ (err e, calm fs' n))
      × DiffersAt fs.next fs fs'
unfolding write_file_to_temp write_opened write_file_content read_content child fdopen syscall
write_file_to_temp-refused fs n d max_size content token e f (es, dir) new h =
    let name : Text = temporary_name token in
    let fs1 : Fs = made fs d name es f dir in
    let (fs2, p, same, (c, file)) =
      write_content-refused fs1 (suc n) fs.next max_size 0 [] (prepare_reader content) e
        (add_child-Finds fs d name (regular []) es f dir).1 h in
    let here : fs2.node d ≡ some (directory ((name, fs.next) ∷ es)) =
      same d (λ q. in_use d q dir) ∙ made-directory fs d name es f dir in
    (
      set_node fs2 d (directory es),
      rw
          (
            create_file_at-calm fs n d name (es, dir) new,
            p,
            less_one n,
            unlink-calm fs2 n d fs.next name c es here (rw dir at new) file,
          )
          refl,
      unmade-DiffersAt fs d name es f dir fs2 same,
    )
  where
    in_use : (k : ℕ) → k ≡ fs.next → fs.node k ≡ some (directory es) → ⊥
    in_use k q r = let p = f k in ground arith

-- What a client is told: the cap and the quota are limits of the session, and anything else is raised as
-- it is.
abbrev pub refusal : Exception → Exception
refusal entity_too_large = resource_limit file_size_limit
refusal (os_error enospc) = resource_limit storage_limit
refusal (os_error edquot) = resource_limit storage_limit
refusal e = e

resource_limits-refusal : (e : Exception) (w : World) → resource_limits e w ≡ (err (refusal e), w)
resource_limits-refusal entity_too_large w = refl
resource_limits-refusal (os_error enospc) w = refl
resource_limits-refusal (os_error edquot) w = refl
resource_limits-refusal (os_error _) w = refl
resource_limits-refusal _ w = refl

-- Where no call fails, content that passes the cap, or whose reader fails, is refused without a trace, if
-- the path is accepted, its directory is there and the temporary name is not taken: `write_file` raises
-- the limit, or what the reader has raised; every inode in use is as it was, so that no directory has
-- gained or lost an entry and no file has changed; and no descriptor is left open.
pub write_file-refused :
    (fs : Fs) (n fsize_limit root d : ℕ) (sub_path path : Text) (content : Content) (token : Text)
    (e : Exception)
    → IsFresh fs
    → normalize_sub_path sub_path ≡ ok path
    → Resolves fs root (init (split slash path)) d
    → IsDirectory fs d
    → child fs d (temporary_name token) ≡ none
    → read_content content fsize_limit ≡ err e
    → (fs' : Fs) × (write_file fsize_limit root sub_path content token (calm fs n)
        ≡ (err (refusal e), calm fs' n))
      × DiffersAt fs.next fs fs'
unfolding write_file stage_file with_parent
write_file-refused fs n fsize_limit root d sub_path path content token e f q r dir new h =
    let (fs', p, same) =
      write_file_to_temp-refused fs (suc n) d fsize_limit content token e f dir new h in
    let top = resolved-IsDirectory fs root d (init (split slash path)) r dir in
    (
      fs',
      rw
          (
            q,
            open_root-calm fs n root top,
            descend-calm fs n root d (init (split slash path)) true r,
            p,
            less_one n,
            resource_limits-refusal e (calm fs' n),
          )
          refl,
      same,
    )
