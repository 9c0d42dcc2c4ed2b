-- ===== src/Session/Spares.antt =====
-- `Session.write_file` leaves every other file as it was, however it ends.
use code_executor_api.Prelude.{ℕ, Text, split, ◌≡◌, sym, subst, ◌∙◌, false, List, ok}
use code_executor_api.Path.{slash, normalize_sub_path}
use code_executor_api.FileSystem.{Bytes, Fs, World, Exec, catch, ◌>>◌}
use code_executor_api.FileSystem.Calls.{replace_at}
use code_executor_api.FileSystem.Outcomes.{Ends, Ends-both, Ends-weaken, bind-Ends, catch-Ends}
use code_executor_api.FileSystem.Resolve.{
  IsFresh, Resolves, Resolves-unique, Resolves-Grows, Grows, Grows-refl, Grows-trans,
}
use code_executor_api.FileSystem.Effects.{Holds}
use code_executor_api.FileSystem.Spares.{Spares}
use code_executor_api.FileSystem.Touches.{replace_at-Ends}
use code_executor_api.Content.{Content}
use code_executor_api.Session.{
  init, last, stage_file, commit_staged_file, discard_staged_file, ignore_os_error, storage_limits,
  write_file,
}
use code_executor_api.Session.RoundTrip.{Serves, stage_file_ok}
use code_executor_api.Session.Leaves.{Intact, then-Intact, Unused, Leaves-bind, with_parent-Ends}
use code_executor_api.Session.Discards.{discard-Leaves}
use code_executor_api.Session.Stages.{Vacant, storage_limits-Leaves, stage_file-Ends}

-- Another file than the one that `sub_path` leads to.
abbrev pub Elsewhere : Fs → ℕ → Text → ℕ → Text → Type 0
Elsewhere fs root sub_path k name =
    (path : Text)
    → normalize_sub_path sub_path ≡ ok path
    → Resolves fs root (init (split slash path)) k
    → last (split slash path) ≡ name
    → ⊥

-- Each other file is where it was, with what it held, and so is each directory.
pub record Spared (base : Fs) (root : ℕ) (sub_path : Text) (fs : Fs) : Type 0 where
  pub grows : Grows base fs
  pub files :
      (k i : ℕ) (name : Text) (b : Bytes)
      → Elsewhere fs root sub_path k name
      → Holds base k name i b
      → Holds fs k name i b

Intact-Spared :
    (base fs : Fs) (root : ℕ) (sub_path : Text) → Intact base fs → Spared base root sub_path fs
Intact-Spared base fs root sub_path s = record {
  grows = s.grows;
  files = λ k i name b o h. s.files k i name b tt h;
}

-- The rename replaces the file at `path`, and takes a name away that `base` does not have.
commit_staged_file-Ends :
    (base : Fs) (root : ℕ) (sub_path path name : Text) (c : Bytes) (w : World)
    → normalize_sub_path sub_path ≡ ok path
    → Intact base w.fs
    → Vacant base root path name w.fs
    → Serves w.fs root path name c
    → Ends
        (λ fs. Intact base fs × Vacant base root path name fs)
        (λ v. Spared base root sub_path)
        (commit_staged_file root path name w)
unfolding commit_staged_file
commit_staged_file-Ends base root sub_path path name c w n s (d, r, u) (d', m, r', h) =
    with_parent-Ends w.fs Kept (λ v. Spared base root sub_path) root path false
      (λ parent_fd filename. replace_at parent_fd name filename) w
      (record { grows = Grows-refl w.fs s.grows.is_fresh; files = λ k i nm b o held. held }) kept
      (λ d2 w1 s1 r2 e.
        let same : d' ≡ d2 =
          Resolves-unique w1.fs root d' d2 parts
            (Resolves-Grows w.fs w1.fs root d' parts s1.grows r') r2 in
        let here : Holds w1.fs d2 name m c =
          subst (λ x. Holds w1.fs x name m c) same (s1.files d' m name c tt h) in
        let unused : Unused base d2 name =
          subst (λ x. Unused base x name) (Resolves-unique w.fs root d d' parts r r' ∙ same) u in
        replace_at-Ends Kept (λ v. Spared base root sub_path) d2 m name (last (split slash path)) c
          w1 s1.grows.is_fresh here (kept w1.fs s1)
          (λ fs t. moved_on w1.fs fs d2 unused (then-Intact base w.fs w1.fs s s1) r2 t))
  where
    parts : List Text
    parts = init (split slash path)

    Kept : Fs → Type 0
    Kept fs = Intact base fs × Vacant base root path name fs

    kept : (fs : Fs) → Intact w.fs fs → Kept fs
    kept fs t =
        (then-Intact base w.fs fs s t, (d, Resolves-Grows w.fs fs root d parts t.grows r, u))

    moved_on :
        (fs1 fs : Fs) (d2 : ℕ)
        → Unused base d2 name
        → Intact base fs1
        → Resolves fs1 root parts d2
        → Spares
            (λ k nm i. (d2 ≡ k) → ((name ≡ nm) → ⊥) × ((last (split slash path) ≡ nm) → ⊥))
            fs1
            fs
        → Spared base root sub_path fs
    moved_on fs1 fs d2 unused s1 r2 t = record {
      grows = Grows-trans base fs1 fs s1.grows t.grows;
      files = λ k i nm b other held.
          t.files k i nm b
            (λ same. (
              λ e. unused i b (
                  subst (λ x. Holds base d2 x i b) (sym e)
                    (subst (λ x. Holds base x nm i b) (sym same) held)),
              other path n (
                  subst (Resolves fs root parts) same
                    (Resolves-Grows fs1 fs root d2 parts t.grows r2)),
            ))
            (s1.files k i nm b tt held);
    }

-- `write_file` changes no other file, however it ends.
pub write_file-Ends :
    (fsize_limit root : ℕ) (sub_path : Text) (content : Content) (token : Text) (w : World)
    → IsFresh w.fs
    → Ends
        (Spared w.fs root sub_path)
        (λ v. Spared w.fs root sub_path)
        (write_file fsize_limit root sub_path content token w)
unfolding write_file
write_file-Ends fsize_limit root sub_path content token w f =
    let base : Fs = w.fs in
    let Done : Fs → Type 0 = Spared base root sub_path in
    let stage : Exec (Text × Text) = stage_file fsize_limit root sub_path content token in
    bind-Ends Done
      (λ x fs. (Intact base fs × Vacant base root x.0 x.1 fs) × Placed root sub_path x fs)
      (λ v. Done) stage _ w
      (Ends-weaken (Intact base) _ Done _ (stage w) (λ fs s. Intact-Spared base fs root sub_path s)
        (λ x fs p. p)
        (Ends-both (Intact base) (λ x fs. Intact base fs × Vacant base root x.0 x.1 fs)
          (Placed root sub_path) stage w
          (stage_file-Ends fsize_limit root sub_path content token w f)
          (λ x w1 e.
            let (c, l, (n, f1, served)) =
              stage_file_ok fsize_limit root sub_path content token x w w1 f e in
            (c, n, served))))
      (λ (path, name) w1 ((s, v), (c, n, served)).
        catch-Ends (λ fs. Intact base fs × Vacant base root path name fs) Done (λ u. Done)
          (commit_staged_file root path name) _ w1
          (commit_staged_file-Ends base root sub_path path name c w1 n s v served)
          (λ e w2 (s2, v2).
            Ends-weaken (Intact base) (λ u. Intact base) Done (λ u. Done)
              ((catch (discard_staged_file root path name) ignore_os_error >> storage_limits e) w2)
              (λ fs t. Intact-Spared base fs root sub_path t)
              (λ u fs t. Intact-Spared base fs root sub_path t)
              (Leaves-bind base (catch (discard_staged_file root path name) ignore_os_error)
                (λ u. storage_limits e) w2 (discard-Leaves base root path name w2 s2 v2)
                (λ u w3 s3. storage_limits-Leaves base e w3 s3))))
  where
    Placed : ℕ → Text → Text × Text → Fs → Type 0
    Placed root sub_path x fs =
        (c : Bytes) × (normalize_sub_path sub_path ≡ ok x.0) × Serves fs root x.0 x.1 c
