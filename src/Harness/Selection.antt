-- ===== src/Harness/Selection.antt =====
-- What `select_checks` runs and skips, against the rules that the command line's help gives.
pub mod Named
use code_executor_api.Prelude.{
  Text, text_eq, text_eq_iff, text_eq_refl, ◌≡◌, refl, ap, ◌∙◌, Bool, true, false, not, ◌&&◌, ◌||◌,
  List, [], ◌∷◌, ◌++◌, if◌then◌else◌, any, All, filter, arith, Bool-cases, inl, inr,
}
use code_executor_api.Prelude.Order.{has}
use code_executor_api.Harness.{
  Group, Check, Options, gated, groups_of, implied_by, is_in, is_empty, Verdict, unselected, to_run,
  skipped, verdict, placed, classify, select_checks,
}

abbrev pub is_selected : Options → Check → Bool
is_selected o c = is_empty o.only || is_in o.only c

-- A group is asked for by its own flag, by its name, or by the name of one of its checks.
abbrev pub is_asked : List Check → Options → Text → Bool
is_asked checks o g =
    has g o.enabled_groups
    || has g o.only
    || any (λ d. text_eq d.group g && has d.name o.only) checks

-- The checks that are run.
abbrev pub is_wanted : List Group → List Check → Options → Check → Bool
is_wanted groups checks o c =
    is_selected o c
    && not (is_in o.skip c)
    && (not (has c.group (gated groups)) || is_asked checks o c.group)
    && not (o.skip_heavy && c.heavy)

abbrev pub is_left_out : List Group → List Check → Options → Check → Bool
is_left_out groups checks o c = is_selected o c && not (is_wanted groups checks o c)

abbrev pub firsts : List (Check × Text) → List Check
firsts [] = []
firsts ((c, reason) ∷ rest) = c ∷ firsts rest

text_eq_comm : (s t : Text) → text_eq s t ≡ text_eq t s
text_eq_comm s t = ground (arith, text_eq_iff s t, text_eq_iff t s)

has-append : (p : Text) (xs ys : List Text) → has p (xs ++ ys) ≡ (has p xs || has p ys)
unfolding has
has-append p [] ys = refl
has-append p (x ∷ xs) ys = ground (arith, has-append p xs ys)

has-groups_of :
    (g name : Text) (checks : List Check)
    → has g (groups_of name checks) ≡ any (λ d. text_eq d.group g && text_eq name d.name) checks
unfolding has groups_of
has-groups_of g name [] = refl
has-groups_of g name (c ∷ checks) =
    ground (arith, has-groups_of g name checks, text_eq_comm name c.name)

any-has :
    (g name : Text) (only : List Text) (checks : List Check)
    → any (λ d. text_eq d.group g && has d.name (name ∷ only)) checks ≡ (
        any (λ d. text_eq d.group g && text_eq name d.name) checks
        || any (λ d. text_eq d.group g && has d.name only) checks)
unfolding has
any-has g name only [] = refl
any-has g name only (c ∷ checks) = ground (arith, any-has g name only checks)

any-nothing :
    (g : Text) (checks : List Check) → any (λ d. text_eq d.group g && has d.name []) checks ≡ false
unfolding has
any-nothing g [] = refl
any-nothing g (c ∷ checks) = ground (arith, any-nothing g checks)

-- A gated group that is named is added.
has-named :
    (g name : Text) (names : List Text)
    → has g names ≡ true
    → has g (if has name names then name ∷ [] else []) ≡ text_eq name g
unfolding has
has-named g name names h = elim (Bool-cases (text_eq name g)) [
  | inl e ↦ rw ((text_eq_iff name g).0 e, h, text_eq_refl g) refl
  | inr e ↦ elim (Bool-cases (has name names)) [ inl f ↦ rw (f, e) refl | inr f ↦ rw (f, e) refl ]
]

has-implied_by :
    (g : Text) (groups : List Group) (checks : List Check) (only : List Text)
    → has g (gated groups) ≡ true
    → has g (implied_by groups checks only)
      ≡ (has g only || any (λ d. text_eq d.group g && has d.name only) checks)
unfolding has implied_by
has-implied_by g groups checks [] h = rw (any-nothing g checks) refl
has-implied_by g groups checks (name ∷ only) h = ground (
  arith,
  has-named g name (gated groups) h,
  has-append g (if has name (gated groups) then name ∷ [] else [])
      (groups_of name checks ++ implied_by groups checks only),
  has-append g (groups_of name checks) (implied_by groups checks only),
  has-groups_of g name checks,
  any-has g name only checks,
  has-implied_by g groups checks only h,
)

-- The loop's tests and the rule agree.
abbrev implied : List Group → List Check → Options → List Text
implied groups checks o = o.enabled_groups ++ implied_by groups checks o.only

has-implied :
    (g : Text) (groups : List Group) (checks : List Check) (o : Options)
    → has g (gated groups) ≡ true
    → has g (implied groups checks o) ≡ is_asked checks o g
has-implied g groups checks o h = ground (
  arith,
  has-append g o.enabled_groups (implied_by groups checks o.only),
  has-implied_by g groups checks o.only h,
)

abbrev Agrees : List Group → List Check → Options → Check → Verdict → Type 0
Agrees groups checks o c unselected =
    (is_wanted groups checks o c ≡ false) × (is_left_out groups checks o c ≡ false)
Agrees groups checks o c to_run =
    (is_wanted groups checks o c ≡ true) × (is_left_out groups checks o c ≡ false)
Agrees groups checks o c (skipped reason) =
    (is_wanted groups checks o c ≡ false) × (is_left_out groups checks o c ≡ true)

verdict-Agrees :
    (groups : List Group) (checks : List Check) (o : Options) (c : Check)
    → Agrees groups checks o c (verdict groups o (implied groups checks o) c)
unfolding verdict
verdict-Agrees groups checks o c = ground (arith, has-implied c.group groups checks o)

placed-Agrees :
    (groups : List Group) (checks : List Check) (o : Options) (c : Check) (v : Verdict)
    (rest : List Check) (r : List Check × List (Check × Text))
    → Agrees groups checks o c v
    → (r.0 ≡ filter (is_wanted groups checks o) rest)
      × (firsts r.1 ≡ filter (is_left_out groups checks o) rest)
    → ((placed c v r).0 ≡ filter (is_wanted groups checks o) (c ∷ rest))
      × (firsts (placed c v r).1 ≡ filter (is_left_out groups checks o) (c ∷ rest))
placed-Agrees groups checks o c unselected rest (runs, skips) a (e, f) = (rw a.0 e, rw a.1 f)
placed-Agrees groups checks o c to_run rest (runs, skips) a (e, f) =
    (rw a.0 (ap (λ xs. c ∷ xs) e), rw a.1 f)
placed-Agrees groups checks o c (skipped reason) rest (runs, skips) a (e, f) =
    (rw a.0 e, rw a.1 (ap (λ xs. c ∷ xs) f))

classify-filter :
    (groups : List Group) (checks : List Check) (o : Options) (rest : List Check)
    → ((classify groups o (implied groups checks o) rest).0
        ≡ filter (is_wanted groups checks o) rest)
      × (firsts (classify groups o (implied groups checks o) rest).1
          ≡ filter (is_left_out groups checks o) rest)
unfolding classify
classify-filter groups checks o [] = (refl, refl)
classify-filter groups checks o (c ∷ rest) =
    placed-Agrees groups checks o c (verdict groups o (implied groups checks o) c) rest
      (classify groups o (implied groups checks o) rest) (verdict-Agrees groups checks o c)
      (classify-filter groups checks o rest)

-- The checks run are those that are selected and not skipped, whose group is not gated or is asked
-- for, by its flag, its name or a check of it, and that are not heavy when heavy ones are left out; the
-- other selected checks are reported as skipped. Both lists are in the order of the registry.
pub select_checks-filter :
    (groups : List Group) (checks : List Check) (o : Options)
    → ((select_checks groups checks o).0 ≡ filter (is_wanted groups checks o) checks)
      × (firsts (select_checks groups checks o).1 ≡ filter (is_left_out groups checks o) checks)
unfolding select_checks
select_checks-filter groups checks o = classify-filter groups checks o checks
