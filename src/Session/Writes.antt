-- ===== src/Session/Writes.antt =====
-- `Session.write_file` where no call fails: it returns.
use code_executor_api.Prelude.{
  ℕ, suc, ◌+◌, Text, split, ◌≡◌, refl, sym, subst, ap, ◌∙◌, true, false, Bool-cases, inl, inr, none,
  List, [], ◌∷◌, ◌++◌, ok, ok_inj, ltb, length,
}
use code_executor_api.Path.{slash, normalize_sub_path}
use code_executor_api.FileSystem.{syscall, Bytes, Fs, child, regular, set_node, add_child}
use code_executor_api.FileSystem.Resolve.{
  IsFresh, IsDirectory, IsFile, IsNoDirectory, Resolves, Resolves-unique, child-IsDirectory,
}
use code_executor_api.FileSystem.Growth.{add_child-Finds, set_node-IsFile}
use code_executor_api.FileSystem.Calls.{relinked}
use code_executor_api.FileSystem.Calm.{
  calm, open_root-calm, create_file_at-calm, write_to-calm, replace_at-calm,
}
use code_executor_api.FileSystem.Tame.{
  Tame, Tame-trans, Tame-IsNoDirectory, add_child-Tame, set_node-Tame,
}
use code_executor_api.Content.{
  Read, chunk, fails, Content, prepare_reader, write_content, write_file_content, read_loop,
  read_content, temporary_name, write_file_to_temp, write_opened, fdopen,
}
use code_executor_api.Session.Walks.{descend-calm, less_one}
use code_executor_api.Session.RoundTrip.{
  Serves, resolved-IsDirectory, stage_file_ok, write_file-read_file,
}
use code_executor_api.Session.{
  init, last, with_parent, stage_file, commit_staged_file, read_file, write_file,
}

-- The loop returns if the content is within the cap and its reader does not fail.
write_content-calm :
    (fs : Fs) (n i max_size actual_size : ℕ) (b c : Bytes) (reads : List Read)
    → IsFile fs i b
    → read_loop max_size actual_size b reads ≡ ok c
    → (size : ℕ) × (fs' : Fs) × (write_content i max_size actual_size reads (calm fs n)
        ≡ (ok size, calm fs' n))
      × Tame fs fs'
unfolding write_content read_loop
write_content-calm fs n i max_size actual_size b c [] r h =
    (actual_size, fs, refl, record { back = λ k j nm e. e })
write_content-calm fs n i max_size actual_size b c (fails e ∷ reads) r h = cc
write_content-calm fs n i max_size actual_size b c (chunk [] ∷ reads) r h =
    (actual_size, fs, refl, record { back = λ k j nm e. e })
write_content-calm fs n i max_size actual_size b c (chunk (x ∷ xs) ∷ reads) r h =
    elim (Bool-cases (ltb max_size (actual_size + length (x ∷ xs)))) [
      | inl t ↦ let p = rw t at h in absurd cc
      | inr t ↦
          let fs1 : Fs = set_node fs i (regular (b ++ x ∷ xs)) in
          let (size, fs', p, tame) =
            write_content-calm fs1 n i max_size (actual_size + length (x ∷ xs)) (b ++ x ∷ xs) c
              reads (set_node-IsFile fs i (b ++ x ∷ xs)) (rw t at h) in
          (
            size,
            fs',
            rw (t, write_to-calm fs n i b (x ∷ xs) r) p,
            Tame-trans fs fs1 fs' (set_node-Tame fs i b (b ++ x ∷ xs) r) tame,
          )
    ]

write_file_to_temp-calm :
    (fs : Fs) (n d max_size : ℕ) (content : Content) (token : Text) (c : Bytes)
    → IsFresh fs
    → IsDirectory fs d
    → child fs d (temporary_name token) ≡ none
    → read_content content max_size ≡ ok c
    → (size : ℕ) × (fs' : Fs) × (write_file_to_temp d content max_size token (calm fs n)
        ≡ (ok (temporary_name token, size), calm fs' n))
      × Tame fs fs'
unfolding write_file_to_temp write_opened write_file_content read_content fdopen syscall
write_file_to_temp-calm fs n d max_size content token c f dir new h =
    let name : Text = temporary_name token in
    let fs1 : Fs = add_child fs d name (regular []) in
    let (size, fs', p, tame) =
      write_content-calm fs1 (suc n) fs.next max_size 0 [] c (prepare_reader content)
        (add_child-Finds fs d name (regular []) dir.0 f dir.1).1 h in
    (
      size,
      fs',
      rw (create_file_at-calm fs n d name dir new, p) (rw (less_one n) refl),
      Tame-trans fs fs1 fs' (add_child-Tame fs d name dir) tame,
    )

stage_file-calm :
    (fs : Fs) (n fsize_limit root d : ℕ) (sub_path path : Text) (content : Content) (token : Text)
    (c : Bytes)
    → IsFresh fs
    → normalize_sub_path sub_path ≡ ok path
    → Resolves fs root (init (split slash path)) d
    → IsDirectory fs d
    → child fs d (temporary_name token) ≡ none
    → read_content content fsize_limit ≡ ok c
    → (fs' : Fs) × (stage_file fsize_limit root sub_path content token (calm fs n)
        ≡ (ok (path, temporary_name token), calm fs' n))
      × Tame fs fs'
unfolding stage_file with_parent
stage_file-calm fs n fsize_limit root d sub_path path content token c f e r dir new h =
    let (size, fs', p, tame) =
      write_file_to_temp-calm fs (suc n) d fsize_limit content token c f dir new h in
    let top = resolved-IsDirectory fs root d (init (split slash path)) r dir in
    (
      fs',
      rw
          (
            e,
            open_root-calm fs n root top,
            descend-calm fs n root d (init (split slash path)) true r,
            p,
          )
          (rw (less_one n) refl),
      tame,
    )

Tame-Resolves :
    (fs fs' : Fs) (i d : ℕ) (parts : List Text)
    → Tame fs fs'
    → Resolves fs' i parts d
    → Resolves fs i parts d
Tame-Resolves fs fs' i d [] t r = r
Tame-Resolves fs fs' i d (p ∷ parts) t (j, e, r) =
    (j, t.back i j p e, Tame-Resolves fs fs' j d parts t r)

commit_staged_file-calm :
    (fs : Fs) (n root : ℕ) (path name : Text) (c : Bytes)
    → Serves fs root path name c
    → ((d : ℕ)
        → Resolves fs root (init (split slash path)) d
        → IsNoDirectory fs d (last (split slash path)))
    → (fs' : Fs) × (commit_staged_file root path name (calm fs n) ≡ (ok tt, calm fs' n))
unfolding commit_staged_file with_parent
commit_staged_file-calm fs n root path name c (d, i, r, k) t =
    let top = resolved-IsDirectory fs root d _ r (child-IsDirectory fs d i name k.0) in
    (
      relinked d name (last (split slash path)) i fs,
      rw
          (
            open_root-calm fs n root top,
            descend-calm fs n root d (init (split slash path)) false r,
            replace_at-calm fs (suc n) d i name (last (split slash path)) c k (t d r),
            less_one n,
          )
          refl,
    )

pub write_file-calm :
    (fs : Fs) (n fsize_limit root d : ℕ) (sub_path path : Text) (content : Content) (token : Text)
    (c : Bytes)
    → IsFresh fs
    → normalize_sub_path sub_path ≡ ok path
    → Resolves fs root (init (split slash path)) d
    → IsDirectory fs d
    → child fs d (temporary_name token) ≡ none
    → IsNoDirectory fs d (last (split slash path))
    → read_content content fsize_limit ≡ ok c
    → (fs' : Fs) × (write_file fsize_limit root sub_path content token (calm fs n)
        ≡ (ok tt, calm fs' n))
unfolding write_file
write_file-calm fs n fsize_limit root d sub_path path content token c f e r dir new t h =
    let parts : List Text = init (split slash path) in
    let (fs', p, tame) =
      stage_file-calm fs n fsize_limit root d sub_path path content token c f e r dir new h in
    let (c', l, (m, f', k)) =
      stage_file_ok fsize_limit root sub_path content token (path, temporary_name token) (calm fs n)
        (calm fs' n) f p in
    let (fs'', q) = commit_staged_file-calm fs' n root path (temporary_name token) c' k (λ d' r'.
      Tame-IsNoDirectory fs fs' d' (last (split slash path)) tame (
        subst (λ x. IsNoDirectory fs x (last (split slash path)))
          (Resolves-unique fs root d d' parts r (Tame-Resolves fs fs' root d' parts tame r')) t)) in
    (fs'', rw (p, q) refl)

-- Where no call fails, an upload succeeds and can be read: if the path is accepted, its directory is
-- there, the path is no directory, the temporary name is not taken, and the content is within the cap
-- and can be read to its end, then `write_file` returns, and `read_file` gives the content after it.
pub write_file-serves :
    (fs : Fs) (n fsize_limit root d : ℕ) (sub_path path : Text) (content : Content) (token : Text)
    (c : Bytes)
    → IsFresh fs
    → normalize_sub_path sub_path ≡ ok path
    → Resolves fs root (init (split slash path)) d
    → IsDirectory fs d
    → child fs d (temporary_name token) ≡ none
    → IsNoDirectory fs d (last (split slash path))
    → read_content content fsize_limit ≡ ok c
    → ((write_file fsize_limit root sub_path content token (calm fs n)).0 ≡ ok tt)
      × ((read_file root sub_path
            (calm (write_file fsize_limit root sub_path content token (calm fs n)).1.fs n)).0
          ≡ ok c)
write_file-serves fs n fsize_limit root d sub_path path content token c f e r dir new t h =
    let (fs', ended) =
      write_file-calm fs n fsize_limit root d sub_path path content token c f e r dir new t h in
    let p = ap (λ x. x.0) ended in
    let (c', l, q) =
      write_file-read_file fsize_limit root sub_path content token (calm fs n) n f p in
    (p, q ∙ ap ok (ok_inj (sym l ∙ h)))
