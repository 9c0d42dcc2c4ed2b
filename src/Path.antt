-- ===== src/Path.antt =====
-- code_executor_api/validation.py, `normalize_sub_path`, and the `posixpath.normpath` that it calls.
pub mod Resolve
pub mod Bottom
pub mod Normal
use code_executor_api.Prelude.{
  ℕ, Text, codes, text_eq, contains, split, join, starts_with, lstrip, Bool, true, false, not, ◌&&◌,
  ◌||◌, List, [], ◌∷◌, ◌++◌, reverse, Result, ok, err, ◌==◌, if◌then◌else◌,
}

abbrev pub slash : ℕ
slash = b'/'

abbrev pub dot : Text
dot = b'.' ∷ []

abbrev pub dotdot : Text
dotdot = b'.' ∷ b'.' ∷ []

abbrev pub is_slash : ℕ → Bool
is_slash c = c == slash

abbrev pub is_empty : Text → Bool
is_empty [] = true
is_empty (c ∷ s) = false

abbrev pub head_is_dotdot : List Text → Bool
head_is_dotdot [] = false
head_is_dotdot (c ∷ s) = text_eq c dotdot

abbrev pub nonempty : List Text → Bool
nonempty [] = false
nonempty (c ∷ s) = true

abbrev pub pop : List Text → List Text
pop [] = []
pop (c ∷ s) = s

-- One round of normpath's loop. `new_comps` is kept with its last element first, and `rooted` says
-- that the path has a root.
unfoldable pub normpath_step : Bool → List Text → Text → List Text
unfolding text_eq
normpath_step rooted new_comps comp =
    if is_empty comp || text_eq comp dot
    then new_comps
    else if not (text_eq comp dotdot)
        || (not rooted && not (nonempty new_comps))
        || (nonempty new_comps && head_is_dotdot new_comps)
    then comp ∷ new_comps
    else pop new_comps

unfoldable pub normpath_loop : Bool → List Text → List Text → List Text
unfolding normpath_step
normpath_loop rooted new_comps [] = new_comps
normpath_loop rooted new_comps (comp ∷ comps) =
    normpath_loop rooted (normpath_step rooted new_comps comp) comps

-- The root of a path: exactly two leading slashes are kept, any other number is one.
abbrev pub splitroot : Text → Text × Text
splitroot [] = ([], [])
splitroot (a ∷ []) = if is_slash a then (a ∷ [], []) else ([], a ∷ [])
splitroot (a ∷ b ∷ []) =
    if is_slash a
    then (if is_slash b then (a ∷ b ∷ [], []) else (a ∷ [], b ∷ []))
    else ([], a ∷ b ∷ [])
splitroot (a ∷ b ∷ c ∷ s) =
    if is_slash a
    then (if is_slash b && not (is_slash c) then (a ∷ b ∷ [], c ∷ s) else (a ∷ [], b ∷ c ∷ s))
    else ([], a ∷ b ∷ c ∷ s)

abbrev pub or_dot : Text → Text
or_dot [] = dot
or_dot (c ∷ s) = c ∷ s

-- `posixpath.normpath`
unfoldable pub normpath : Text → Text
unfolding normpath_loop split join
normpath path =
    let (root, rest) = splitroot path in
    or_dot (
      root
      ++ join (slash ∷ []) (reverse (normpath_loop (not (is_empty root)) [] (split slash rest))))

-- The two messages of `ValidationError` that `normalize_sub_path` raises.
pub data PathError : Type 0 where
  null_bytes above_root : PathError

unfoldable pub normalize_sub_path : Text → Result PathError Text
unfolding normpath contains lstrip text_eq starts_with
normalize_sub_path filename =
    if contains 0 filename
    then err null_bytes
    else let normalized = normpath (lstrip is_slash filename) in
      if is_empty normalized
        || text_eq normalized dot
        || text_eq normalized dotdot
        || starts_with normalized (dotdot ++ slash ∷ [])
      then err above_root
      else ok normalized
