-- ===== src/Executor/Changes.antt =====
-- `collect_changes` reports exactly the differences of the two walks, in order.
use code_executor_api.Prelude.{
  Text, text_eq, text_eq_iff, ◌≡◌, refl, Bool, true, false, not, ◌&&◌, ◌||◌, some, List, [], ◌∷◌,
  arith, any, All, text_eq_refl, ◌∙◌,
}
use code_executor_api.Prelude.Order.{has, sorted, has-sorted, IsSorted, sorted-IsSorted}
use code_executor_api.Executor.{
  Stat, Signature, signature, signature_eq, Files, get, stamp, differs, changed_in, paths,
  missing_from, collect_changes,
}

-- The file of the walk has this path, and the run created it or changed its stamp.
abbrev pub is_change : Files → Text → Text × Stat → Bool
is_change input_files p (q, st) = text_eq q p && differs (get q input_files) (signature st)

has-changed_in :
    (p : Text) (input_files : Files) (walk : List (Text × Stat))
    → has p (changed_in input_files walk) ≡ any (is_change input_files p) walk
unfolding changed_in has
has-changed_in p input_files [] = refl
has-changed_in p input_files ((q, st) ∷ walk) = ground (arith, has-changed_in p input_files walk)

has-missing_from :
    (p : Text) (current keys : List Text)
    → has p (missing_from current keys) ≡ (has p keys && not (has p current))
unfolding missing_from has
has-missing_from p current [] = refl
has-missing_from p current (q ∷ keys) =
    ground (arith, has-missing_from p current keys, text_eq_iff q p)

-- A path is reported as changed exactly if the walk after the run has it with a stamp that the walk
-- before had not, as deleted exactly if only the walk before has it, and both lists are sorted.
pub collect_changes_exact :
    (p : Text) (input_files : Files) (walk : List (Text × Stat))
    → (has p (collect_changes input_files walk).0 ≡ any (is_change input_files p) walk)
      × (has p (collect_changes input_files walk).1
          ≡ (has p (paths input_files) && not (has p (paths walk))))
      × IsSorted (collect_changes input_files walk).0
      × IsSorted (collect_changes input_files walk).1
unfolding collect_changes
collect_changes_exact p input_files walk = (
  rw (has-sorted, has-changed_in),
  rw (has-sorted, has-missing_from),
  sorted-IsSorted (changed_in input_files walk),
  sorted-IsSorted (missing_from (paths walk) (paths input_files)),
)

-- Every path stands once.
abbrev pub AreDistinct : List Text → Type 0
AreDistinct [] = Unit
AreDistinct (p ∷ names) = (has p names ≡ false) × AreDistinct names

get-stamp :
    (p : Text) (files : Files) (walk : List (Text × Stat))
    → has p (paths walk) ≡ false
    → get p (stamp files walk) ≡ get p files
unfolding get stamp has
get-stamp p files [] h = refl
get-stamp p files ((q, st) ∷ walk) h = ground (arith, get-stamp p ((q, signature st) ∷ files) walk)

IsStamped : Files → Text × Stat → Type 0
IsStamped files (q, st) = get q files ≡ some (signature st)

get_head : (p : Text) (s : Signature) (files : Files) → get p ((p, s) ∷ files) ≡ some s
unfolding get
get_head p s files = rw (text_eq_refl p)

stamp-IsStamped :
    (files : Files) (walk : List (Text × Stat))
    → AreDistinct (paths walk)
    → All (IsStamped (stamp files walk)) walk
unfolding stamp IsStamped
stamp-IsStamped files [] h = tt
stamp-IsStamped files ((p, st) ∷ walk) h = (
  get-stamp p ((p, signature st) ∷ files) walk h.0 ∙ get_head p (signature st) files,
  stamp-IsStamped ((p, signature st) ∷ files) walk h.1,
)

signature_eq_refl : (s : Signature) → signature_eq s s ≡ true
signature_eq_refl (a, b, c, d) = ground arith

changed_in-IsStamped :
    (files : Files) (walk : List (Text × Stat))
    → All (IsStamped files) walk
    → changed_in files walk ≡ []
unfolding changed_in IsStamped
changed_in-IsStamped files [] h = refl
changed_in-IsStamped files ((p, st) ∷ walk) h =
    rw (h.0, signature_eq_refl (signature st), changed_in-IsStamped files walk h.1)

has-stamp :
    (p : Text) (files : Files) (walk : List (Text × Stat))
    → has p (paths (stamp files walk)) ≡ (has p (paths walk) || has p (paths files))
unfolding stamp has
has-stamp p files [] = refl
has-stamp p files ((q, st) ∷ walk) = ground (arith, has-stamp p ((q, signature st) ∷ files) walk)

not_has : (names : List Text) → ((p : Text) → has p names ≡ false) → names ≡ []
unfolding has
not_has [] h = refl
not_has (p ∷ names) h = ground (arith, h p, text_eq_refl p)

missing_from-stamp :
    (walk : List (Text × Stat)) → missing_from (paths walk) (paths (stamp [] walk)) ≡ []
unfolding has
missing_from-stamp walk =
    not_has (missing_from (paths walk) (paths (stamp [] walk)))
      (λ p. gone p (has-missing_from p (paths walk) (paths (stamp [] walk))) (has-stamp p [] walk))
  where
    gone :
        (p : Text)
        → has p (missing_from (paths walk) (paths (stamp [] walk)))
          ≡ (has p (paths (stamp [] walk)) && not (has p (paths walk)))
        → has p (paths (stamp [] walk)) ≡ (has p (paths walk) || has p [])
        → has p (missing_from (paths walk) (paths (stamp [] walk))) ≡ false
    gone p e f = ground arith

-- A run that leaves every file as it was reports nothing.
collect_changes_unchanged :
    (walk : List (Text × Stat))
    → AreDistinct (paths walk)
    → collect_changes (stamp [] walk) walk ≡ ([], [])
unfolding collect_changes sorted
collect_changes_unchanged walk h =
    rw (
      changed_in-IsStamped (stamp [] walk) walk (stamp-IsStamped [] walk h),
      missing_from-stamp walk,
    )
