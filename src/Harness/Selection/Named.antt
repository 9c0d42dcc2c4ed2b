-- ===== src/Harness/Selection/Named.antt =====
-- What `select_checks` does when one check is named.
use code_executor_api.Prelude.{
  Text, text_eq, text_eq_refl, ◌≡◌, refl, ◌∙◌, Bool, true, false, ◌&&◌, List, [], ◌∷◌, ◌++◌, any,
  All, filter, arith,
}
use code_executor_api.Prelude.Order.{has}
use code_executor_api.Harness.{Group, Check, Options, select_checks}
use code_executor_api.Harness.Selection.{is_wanted, is_left_out, firsts, select_checks-filter}

abbrev pub only_named : Text → Options
only_named name = record { only = name ∷ []; skip = []; enabled_groups = []; skip_heavy = false }

-- The name is neither that of the check nor that of its group.
abbrev pub IsOther : Text → Check → Type 0
IsOther name c = (text_eq name c.name ≡ false) × (text_eq name c.group ≡ false)

filter-others :
    (groups : List Group) (checks : List Check) (name : Text) (rest : List Check)
    → All (IsOther name) rest
    → (filter (is_wanted groups checks (only_named name)) rest ≡ [])
      × (filter (is_left_out groups checks (only_named name)) rest ≡ [])
unfolding has
filter-others groups checks name [] h = (refl, refl)
filter-others groups checks name (c ∷ rest) h =
    ground (arith, filter-others groups checks name rest h.1)

filter-append {ℓ} :
    {A : Type ℓ} (p : A → Bool) (xs ys : List A) → filter p (xs ++ ys) ≡ filter p xs ++ filter p ys
filter-append p [] ys = refl
filter-append p (x ∷ xs) ys = ground (arith, filter-append p xs ys)

any-middle {ℓ} :
    {A : Type ℓ} (p : A → Bool) (xs : List A) (x : A) (ys : List A)
    → p x ≡ true
    → any p (xs ++ x ∷ ys) ≡ true
any-middle p [] x ys h = rw h refl
any-middle p (z ∷ xs) x ys h = ground (arith, any-middle p xs x ys h)

named-wanted :
    (groups : List Group) (before after : List Check) (c : Check)
    → (is_wanted groups (before ++ c ∷ after) (only_named c.name) c ≡ true)
      × (is_left_out groups (before ++ c ∷ after) (only_named c.name) c ≡ false)
unfolding has
named-wanted groups before after c = ground (
  arith,
  text_eq_refl c.name,
  any-middle (λ (d : Check). text_eq d.group c.group && has d.name (c.name ∷ [])) before c after
      (rw (text_eq_refl c.name, text_eq_refl c.group) refl),
)

firsts-nil : (r : List (Check × Text)) → firsts r ≡ [] → r ≡ []
firsts-nil [] h = refl
firsts-nil ((c, reason) ∷ r) h = cc

-- To name one check runs that check alone, and skips nothing, whatever its group and its weight: if no
-- other check has its name, and no group of another check has.
select_checks_named :
    (groups : List Group) (before after : List Check) (c : Check)
    → All (IsOther c.name) before
    → All (IsOther c.name) after
    → ((select_checks groups (before ++ c ∷ after) (only_named c.name)).0 ≡ c ∷ [])
      × ((select_checks groups (before ++ c ∷ after) (only_named c.name)).1 ≡ [])
select_checks_named groups before after c hb ha =
    let all : List Check = before ++ c ∷ after in
    let (runs, skips) = select_checks-filter groups all (only_named c.name) in
    let (w, l) = named-wanted groups before after c in
    let (bw, bl) = filter-others groups all c.name before hb in
    let (aw, al) = filter-others groups all c.name after ha in
    (
      runs
          ∙ filter-append (is_wanted groups all (only_named c.name)) before (c ∷ after)
          ∙ rw (bw, w, aw) refl,
      firsts-nil _ (
          skips
          ∙ filter-append (is_left_out groups all (only_named c.name)) before (c ∷ after)
          ∙ rw (bl, l, al) refl),
    )
