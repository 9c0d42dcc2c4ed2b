-- ===== src/Prelude.antt =====
-- The names that the other modules share: those of the libraries, passed on, and those of children.
mod Tests
mod Lists
mod Results
mod Strings
mod SplitJoin
mod Integers
pub mod Order
pub use Tests.*
pub use Lists.*
pub use Integers.*
pub use Results.*
unfoldable pub use Strings.{text_eq, contains, split, join, starts_with, lstrip, rstrip, strip}
pub use Strings.{Text, codes, text_eq_iff, text_eq_refl, push_head, snoc_text}
pub use Prim.Native.Nat.{ℕ, zero, suc, ◌+◌, ◌-◌, ◌*◌, ◌/◌, ◌%◌, ◌^◌, ◌≤◌, ◌<◌, min, max}
pub use Prim.Native.String.{String}
pub use mathlib.Core.Path.{◌≡◌, refl, sym, ap, ◌∙◌, subst}
pub use mathlib.Core.Logic.{◌≢◌, ◌↔◌, ◌⊎◌, inl, inr}
pub use mathlib.Core.Bool.{Bool, true, false, not, ◌&&◌, ◌||◌}
pub use mathlib.Core.Option.{Option, none, some}
pub use mathlib.Core.List.{List, [], ◌∷◌, ◌++◌, map, reverse}
pub use native.Mathlib.Omega.{arith}
pub use SplitJoin.{Lacks, Lacks-append, split-Lacks, split-Lacks_of, join-Lacks, split-join}
