-- ===== src/Session/Stages.antt =====
-- `Session.stage_file` leaves every file as it was, however it ends.
use code_executor_api.Prelude.{
  ◌≡◌, subst, ℕ, ◌+◌, Text, split, refl, true, Bool-cases, inl, inr, List, [], ◌∷◌, Result, ok, err,
  ltb, length, arith,
}
use code_executor_api.Path.{slash, normalize_sub_path, PathError}
use code_executor_api.FileSystem.{
  Errno, on_error, enoent, enospc, edquot, Exception, os_error, entity_too_large, Fs, World, close,
  raise, catch, finally, ◌>>◌,
}
use code_executor_api.FileSystem.Calls.{create_file_at, write_to, unlink_at}
use code_executor_api.FileSystem.Outcomes.{
  syscall-Ends, Ends, Ends-weaken, bind-Ends, catch-Ends, finally-Ends,
}
use code_executor_api.FileSystem.Resolve.{IsFresh, Resolves, Resolves-Grows, Grows-refl}
use code_executor_api.FileSystem.Spares.{held-apart}
use code_executor_api.FileSystem.Touches.{create_file_at-Ends, write_to-Ends, unlink_at-Ends}
use code_executor_api.Content.{
  Read, chunk, fails, Content, prepare_reader, write_content, write_file_content, temporary_name,
  ignore_not_found, suppress_not_found, write_file_to_temp, write_opened, fdopen,
}
use code_executor_api.Session.{
  init, with_parent, normalised, checked, resource_limits, stage_file, storage_limits,
}
use code_executor_api.Session.Leaves.{
  Intact, then-Intact, written-Intact, Free, Unused, unlinked-Intact, Leaves, Leaves-bind,
  Leaves-catch, with_parent-Ends,
}

-- Writing to a file that `base` does not have.
write_content-Leaves :
    (base : Fs) (fd max_size actual_size : ℕ) (reads : List Read) (w : World)
    → Free base fd
    → Intact base w.fs
    → Leaves base (write_content fd max_size actual_size reads w)
unfolding write_content
write_content-Leaves base fd max_size actual_size [] w u s = s
write_content-Leaves base fd max_size actual_size (fails e ∷ reads) w u s = s
write_content-Leaves base fd max_size actual_size (chunk [] ∷ reads) w u s = s
write_content-Leaves base fd max_size actual_size (chunk (x ∷ xs) ∷ reads) w u s =
    elim (Bool-cases (ltb max_size (actual_size + length (x ∷ xs)))) [
      | inl t ↦ rw t s
      | inr t ↦ rw t (
          Leaves-bind base (write_to fd (x ∷ xs))
            (λ v. write_content fd max_size (actual_size + length (x ∷ xs)) reads) w
            (write_to-Ends (Intact base) (λ v. Intact base) fd (x ∷ xs) w s.grows.is_fresh s
              (λ fs t. written-Intact base w.fs fs fd u s t))
            (λ v w1 s1.
              write_content-Leaves base fd max_size (actual_size + length (x ∷ xs)) reads w1 u s1))
    ]

ignore_not_found-Leaves :
    (base : Fs) (e : Exception) (w : World) → Intact base w.fs → Leaves base (ignore_not_found e w)
ignore_not_found-Leaves base (os_error enoent) w s = s
ignore_not_found-Leaves base (os_error _) w s = s
ignore_not_found-Leaves base _ w s = s

-- Taking a file away that `base` does not have.
remove-Leaves :
    (base : Fs) (d : ℕ) (name : Text) (w : World)
    → Unused base d name
    → Intact base w.fs
    → Leaves base (suppress_not_found (unlink_at d name) w)
unfolding suppress_not_found
remove-Leaves base d name w u s =
    Leaves-catch base (unlink_at d name) ignore_not_found w
      (unlink_at-Ends (Intact base) (λ v. Intact base) d name w s.grows.is_fresh s
        (λ fs t. unlinked-Intact base w.fs fs d name u s t))
      (ignore_not_found-Leaves base)

write_opened-Leaves :
    (base : Fs) (fd max_size : ℕ) (content : Content) (w : World)
    → Free base fd
    → Intact base w.fs
    → Leaves base (write_opened fd content max_size w)
unfolding write_opened write_file_content fdopen
write_opened-Leaves base fd max_size content w u s =
    Leaves-bind base (on_error (fdopen fd) close)
      (λ v. finally (write_file_content fd content max_size) close) w
      (Leaves-catch base (fdopen fd) _ w
        (syscall-Ends (Intact base) (λ v. Intact base) _ w s
          (λ v fs h. subst (Intact base) (kept v fs w.fs h) s))
        (λ e w1 s1. s1))
      (λ v w1 s1.
        finally-Ends (Intact base) (λ x. Intact base) (write_file_content fd content max_size) close
          w1 (λ x. refl) (write_content-Leaves base fd max_size 0 (prepare_reader content) w1 u s1))
  where
    kept :
        (v : Unit {0}) (fs fs' : Fs)
        → (◌≡◌ {A = Result Errno (Unit {0} × Fs)} (ok (tt, fs')) (ok (v, fs)))
        → fs' ≡ fs
    kept v fs fs' h = cc

-- The temporary file is one that was not there.
write_file_to_temp-Ends :
    (d max_size : ℕ) (content : Content) (token : Text) (w : World)
    → IsFresh w.fs
    → Ends
        (Intact w.fs)
        (λ x fs. Intact w.fs fs × Unused w.fs d x.0)
        (write_file_to_temp d content max_size token w)
unfolding write_file_to_temp
write_file_to_temp-Ends d max_size content token w f =
    bind-Ends (Intact w.fs) Made (λ x fs. Intact w.fs fs × Unused w.fs d x.0)
      (create_file_at d name) _ w
      (create_file_at-Ends (Intact w.fs) Made d name w f unchanged (λ fs new s. (
        s,
        (
          λ k nm b h. let (a, c) = held-apart w.fs k w.fs.next nm b f h in ground arith,
          λ i b h. let p = h.0 in cc,
        ),
      )))
      (λ fd w1 (s, (free, unused)).
        bind-Ends (Intact w.fs) (λ x. Intact w.fs) (λ x fs. Intact w.fs fs × Unused w.fs d x.0)
          (catch (write_opened fd content max_size)
            (λ e. suppress_not_found (unlink_at d name) >> raise e))
          _ w1
          (Leaves-catch w.fs (write_opened fd content max_size) _ w1
            (write_opened-Leaves w.fs fd max_size content w1 free s)
            (λ e w2 s2.
              Leaves-bind w.fs (suppress_not_found (unlink_at d name)) (λ v. raise e) w2
                (remove-Leaves w.fs d name w2 unused s2) (λ v w3 s3. s3)))
          (λ size w2 s2. (s2, unused)))
  where
    name : Text
    name = temporary_name token

    unchanged : Intact w.fs w.fs
    unchanged = record { grows = Grows-refl w.fs f; files = λ k i nm b o h. h }

    Made : ℕ → Fs → Type 0
    Made fd fs = Intact w.fs fs × (Free w.fs fd × Unused w.fs d name)

-- The handler raises whatever it is given.
resource_limits-Ends :
    (E : Fs → Type 0) (Q : Text × ℕ → Fs → Type 0) (e : Exception) (w : World)
    → E w.fs
    → Ends E Q (resource_limits e w)
resource_limits-Ends E Q entity_too_large w s = s
resource_limits-Ends E Q (os_error enospc) w s = s
resource_limits-Ends E Q (os_error edquot) w s = s
resource_limits-Ends E Q (os_error _) w s = s
resource_limits-Ends E Q _ w s = s

pub storage_limits-Leaves :
    (base : Fs) (e : Exception) (w : World) → Intact base w.fs → Leaves base (storage_limits e w)
storage_limits-Leaves base (os_error enospc) w s = s
storage_limits-Leaves base (os_error edquot) w s = s
storage_limits-Leaves base (os_error _) w s = s
storage_limits-Leaves base _ w s = s

-- The directory of `path` is there, and `base` has no file of this name in it.
abbrev pub Vacant : Fs → ℕ → Text → Text → Fs → Type 0
Vacant base root path name fs =
    (d : ℕ) × Resolves fs root (init (split slash path)) d × Unused base d name

pub Unused-Intact :
    (base fs : Fs) (d : ℕ) (name : Text) → Intact base fs → Unused fs d name → Unused base d name
Unused-Intact base fs d name s u i b h = u i b (s.files d i name b tt h)

placed-Ends :
    (base : Fs) (fsize_limit root : ℕ) (path : Text) (content : Content) (token : Text) (w : World)
    → Intact base w.fs
    → Ends
        (Intact base)
        (λ x fs. Intact base fs × Vacant base root path x.0 fs)
        (with_parent root path true
          (λ parent_fd _. write_file_to_temp parent_fd content fsize_limit token)
          w)
placed-Ends base fsize_limit root path content token w s =
    with_parent-Ends base (Intact base) (λ x fs. Intact base fs × Vacant base root path x.0 fs) root
      path true (λ parent_fd _. write_file_to_temp parent_fd content fsize_limit token) w s
      (λ fs t. t)
      (λ d w1 s1 r e.
        Ends-weaken (Intact w1.fs) (λ x fs. Intact w1.fs fs × Unused w1.fs d x.0) (Intact base)
          (λ x fs. Intact base fs × Vacant base root path x.0 fs)
          (write_file_to_temp d content fsize_limit token w1)
          (λ fs t. then-Intact base w1.fs fs s1 t)
          (λ x fs (t, u). (
            then-Intact base w1.fs fs s1 t,
            (
              d,
              Resolves-Grows w1.fs fs root d (init (split slash path)) t.grows r,
              Unused-Intact base w1.fs d x.0 s1 u,
            ),
          ))
          (write_file_to_temp-Ends d fsize_limit content token w1 s1.grows.is_fresh))

checked-Leaves :
    (base : Fs) (r : Result PathError Text) (w : World)
    → Intact base w.fs
    → Leaves base (checked r, w)
checked-Leaves base (ok path) w s = s
checked-Leaves base (err e) w s = s

-- `stage_file` changes no file that was there, however it ends.
pub stage_file-Ends :
    (fsize_limit root : ℕ) (sub_path : Text) (content : Content) (token : Text) (w : World)
    → IsFresh w.fs
    → Ends
        (Intact w.fs)
        (λ x fs. Intact w.fs fs × Vacant w.fs root x.0 x.1 fs)
        (stage_file fsize_limit root sub_path content token w)
unfolding stage_file
stage_file-Ends fsize_limit root sub_path content token w f =
    let base : Fs = w.fs in
    bind-Ends (Intact base) (λ path. Intact base)
      (λ x fs. Intact base fs × Vacant base root x.0 x.1 fs) (normalised sub_path) _ w
      (checked-Leaves base (normalize_sub_path sub_path) w
        (record { grows = Grows-refl w.fs f; files = λ k i nm b o h. h }))
      (λ path w1 s.
        bind-Ends (Intact base) (λ x fs. Intact base fs × Vacant base root path x.0 fs)
          (λ x fs. Intact base fs × Vacant base root x.0 x.1 fs)
          (catch
            (with_parent root path true
              (λ parent_fd _. write_file_to_temp parent_fd content fsize_limit token))
            resource_limits)
          _ w1
          (catch-Ends (Intact base) (Intact base)
            (λ x fs. Intact base fs × Vacant base root path x.0 fs)
            (with_parent root path true
              (λ parent_fd _. write_file_to_temp parent_fd content fsize_limit token))
            resource_limits w1 (placed-Ends base fsize_limit root path content token w1 s)
            (resource_limits-Ends (Intact base)
              (λ x fs. Intact base fs × Vacant base root path x.0 fs)))
          (λ x w2 t. t))
