-- ===== src/Session/Staging.antt =====
-- What a staged upload holds: the bytes that its content gives, under a hidden name.
use code_executor_api.Prelude.{
  sym, ℕ, ◌+◌, Text, ◌≡◌, refl, subst, ap, List, [], ◌∷◌, ◌++◌, Result, ok, err, ltb, length,
  Bool-cases, inl, inr,
}
use code_executor_api.Path.{normalize_sub_path, PathError}
use code_executor_api.FileSystem.{
  on_error, enospc, edquot, Exception, os_error, entity_too_large, Bytes, Fs, World, Exec, close,
  catch, finally, raise, ◌>>◌,
}
use code_executor_api.FileSystem.Calls.{create_file_at, write_to, unlink_at}
use code_executor_api.FileSystem.Returns.{
  on_error-Reraises, syscall_ok, Reraises, bind_ok, catch_ok, finally_ok,
}
use code_executor_api.FileSystem.Resolve.{IsFresh, Grows, Grows-refl, Grows-trans}
use code_executor_api.FileSystem.Effects.{Holds, create_file_at_ok, write_to_ok}
use code_executor_api.Content.{
  Read, chunk, fails, Content, prepare_reader, write_content, write_file_content, read_loop,
  read_content, temporary_name, suppress_not_found, write_file_to_temp, write_opened, fdopen,
}
use code_executor_api.Session.{normalised, checked, resource_limits}

abbrev Loaded : ℕ → ℕ → Text → Result Exception Bytes → World → World → Type 0
Loaded fd i name r w w1 = (c : Bytes) × (r ≡ ok c) × Grows w.fs w1.fs × Holds w1.fs fd name i c

ended :
    (fd i actual_size size : ℕ) (name : Text) (b : Bytes) (w w1 : World)
    → IsFresh w.fs
    → Holds w.fs fd name i b
    → (◌≡◌ {A = Result Exception ℕ × World} (ok actual_size, w) (ok size, w1))
    → Loaded fd i name (ok b) w w1
ended fd i actual_size size name b w w1 f r h =
    let same : w.fs ≡ w1.fs = ap (λ (x : Result Exception ℕ × World). x.1.fs) h in
    let (g, q) = subst (λ x. Grows w.fs x × Holds x fd name i b) same (Grows-refl w.fs f, r) in
    (b, refl, g, q)

-- The loop that writes gives the file what the loop that reads into memory returns.
write_content_ok :
    (fd i max_size actual_size size : ℕ) (name : Text) (b : Bytes) (reads : List Read)
    (w w1 : World)
    → IsFresh w.fs
    → Holds w.fs fd name i b
    → write_content i max_size actual_size reads w ≡ (ok size, w1)
    → Loaded fd i name (read_loop max_size actual_size b reads) w w1
unfolding write_content read_loop
write_content_ok fd i max_size actual_size size name b [] w w1 f r h =
    ended fd i actual_size size name b w w1 f r h
write_content_ok fd i max_size actual_size size name b (fails e ∷ reads) w w1 f r h = cc
write_content_ok fd i max_size actual_size size name b (chunk [] ∷ reads) w w1 f r h =
    ended fd i actual_size size name b w w1 f r h
write_content_ok fd i max_size actual_size size name b (chunk (x ∷ xs) ∷ reads) w w1 f r h =
    elim (Bool-cases (ltb max_size (actual_size + length (x ∷ xs)))) [
      | inl t ↦ absurd (let p = rw t at h in too_large p)
      | inr t ↦ rw t (
          let (u, w2, p, q) = bind_ok (write_to i (x ∷ xs)) _ w w1 size (rw t at h) in
          let (g, r2) = write_to_ok fd i name b (x ∷ xs) w w2 u f r p in
          let (c, e, g2, r3) =
            write_content_ok fd i max_size (actual_size + length (x ∷ xs)) size name (b ++ x ∷ xs)
              reads w2 w1 g.is_fresh r2 q in
          (c, e, Grows-trans w.fs w2.fs w1.fs g g2, r3))
    ]
  where
    too_large : (◌≡◌ {A = Result Exception ℕ × World} (err entity_too_large, w) (ok size, w1)) → ⊥
    too_large p = cc

pub unlink-Reraises {ℓ} :
    {A : Type ℓ} (m : Exception → Exec (Unit {0})) → Reraises {A = A} (λ e. m e >> raise e)
unlink-Reraises m e w w1 a h = let (u, w2, p, q) = bind_ok (m e) _ w w1 a h in cc

abbrev fs_of : World → Fs
fs_of w = w.fs

-- A file object changes no file.
fdopen_same :
    (i : ℕ) (w v : World) (u : Unit {0}) → on_error (fdopen i) close w ≡ (ok u, v) → w.fs ≡ v.fs
unfolding fdopen
fdopen_same i w v u h =
    let e =
      syscall_ok (λ fs. ok (tt {0}, fs)) w v u
        (catch_ok (fdopen i) _ w v u (on_error-Reraises close) h) in
    cc

-- The content that a new file is given, and the closing of its descriptor.
filled :
    (fd i max_size size : ℕ) (content : Content) (name : Text) (w w1 : World)
    → IsFresh w.fs
    → Holds w.fs fd name i []
    → catch
        (write_opened i content max_size)
        (λ e. do suppress_not_found (unlink_at fd name); raise e)
        w
      ≡ (ok size, w1)
    → Loaded fd i name (read_content content max_size) w w1
unfolding write_file_content read_content write_opened
filled fd i max_size size content name w w1 f r h =
    let (u, v, p0, q0) =
      bind_ok (on_error (fdopen i) close)
        (λ _. finally (write_file_content i content max_size) close) w w1 size
        (catch_ok (write_opened i content max_size)
          (λ e. suppress_not_found (unlink_at fd name) >> raise e) w w1 size
          (unlink-Reraises (λ e. suppress_not_found (unlink_at fd name))) h) in
    let same : w.fs ≡ v.fs = fdopen_same i w v u p0 in
    let (w2, p, q) = finally_ok (write_file_content i content max_size) close v w1 size q0 in
    let (c, e, g0, r2) =
      write_content_ok fd i max_size 0 size name [] (prepare_reader content) v w2
        (subst IsFresh same f) (subst (λ x. Holds x fd name i []) same r) p in
    let g : Grows w.fs w2.fs = subst (λ x. Grows x w2.fs) (sym same) g0 in
    let (g2, r3) = subst (λ x. Grows w.fs x × Holds x fd name i c) (ap fs_of q) (g, r2) in
    (c, e, g2, r3)

-- A temporary file holds what its content reads as.
pub write_file_to_temp_ok :
    (fd max_size : ℕ) (content : Content) (token : Text) (x : Text × ℕ) (w w1 : World)
    → IsFresh w.fs
    → write_file_to_temp fd content max_size token w ≡ (ok x, w1)
    → (temporary_name token ≡ x.0)
      × ((i : ℕ) × Loaded fd i (temporary_name token) (read_content content max_size) w w1)
unfolding write_file_to_temp
write_file_to_temp_ok fd max_size content token x w w1 f h =
    let name : Text = temporary_name token in
    let (i, w2, p, q) = bind_ok (create_file_at fd name) _ w w1 x h in
    let (g, r) = create_file_at_ok fd i name w w2 f p in
    let (size, w3, p2, q2) =
      bind_ok
        (catch (write_opened i content max_size)
          (λ e. do suppress_not_found (unlink_at fd name); raise e))
        _ w2 w1 x q in
    let (c, e, g2, r2) = filled fd i max_size size content name w2 w3 g.is_fresh r p2 in
    let same : w3.fs ≡ w1.fs = ap (λ (y : Result Exception (Text × ℕ) × World). y.1.fs) q2 in
    let (g3, r3) =
      subst (λ z. Grows w.fs z × Holds z fd name i c) same
        (Grows-trans w.fs w2.fs w3.fs g g2, r2) in
    (staged_name q2, (i, (c, e, g3, r3)))
  where
    staged_name :
        {n : ℕ} {u : World}
        → (◌≡◌ {A = Result Exception (Text × ℕ) × World}
            (ok (temporary_name token, n), u)
            (ok x, w1))
        → temporary_name token ≡ x.0
    staged_name p = ap (λ (y : Result Exception (Text × ℕ) × World). name_of y.0) p
      where
        name_of : Result Exception (Text × ℕ) → Text
        name_of (ok (name, n)) = name
        name_of (err e) = []

pub resource_limits-Reraises : Reraises resource_limits
resource_limits-Reraises entity_too_large w w1 a h = cc
resource_limits-Reraises (os_error enospc) w w1 a h = cc
resource_limits-Reraises (os_error edquot) w w1 a h = cc
resource_limits-Reraises (os_error _) w w1 a h = cc
resource_limits-Reraises _ w w1 a h = cc

pub normalised_ok :
    (sub_path path : Text) (w w1 : World)
    → normalised sub_path w ≡ (ok path, w1)
    → (normalize_sub_path sub_path ≡ ok path) × (w.fs ≡ w1.fs)
normalised_ok sub_path path w w1 h = from (normalize_sub_path sub_path) h
  where
    from :
        (r : Result PathError Text)
        → (◌≡◌ {A = Result Exception Text × World} (checked r, w) (ok path, w1))
        → (r ≡ ok path) × (w.fs ≡ w1.fs)
    from (ok q) p = (cc, cc)
    from (err e) p = cc
