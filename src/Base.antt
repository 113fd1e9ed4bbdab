-- ===== src/Base.antt =====
-- The names that the other modules share: the libraries', passed on, and those of the children:
-- Boolean tests, lists, texts as lists of code points, dictionaries and results with `do`.
mod Tests
mod Lists
mod Chars
mod Texts
mod Dicts
mod Maps
mod Results
mod Decimal
mod Int
mod Words
mod Search
mod Reorder
mod Ranges
pub mod TextLaws
pub mod WordLaws
pub use Tests.*
pub use Lists.*
unfoldable pub use Chars.*
unfoldable pub use Texts.*
unfoldable pub use Dicts.*
unfoldable pub use Maps.*
unfoldable pub use Decimal.*
unfoldable pub use Int.*
unfoldable pub use Words.*
unfoldable pub use Search.*
pub use Results.*
pub use Reorder.*
pub use Ranges.*
pub use Prim.Native.Nat.{ℕ, zero, suc, ◌+◌, ◌-◌, ◌*◌, ◌/◌, ◌%◌, ◌^◌, ◌≤◌, ◌<◌}
pub use Prim.Native.String.{String}
pub use mathlib.Core.Path.{◌≡◌, refl, sym, ap, ◌∙◌, subst}
pub use mathlib.Core.Logic.{◌≢◌, ◌↔◌, ◌⊎◌, inl, inr}
pub use mathlib.Core.Bool.{Bool, true, false, ◌&&◌, ◌||◌, not}
pub use mathlib.Core.Option.{Option, none, some}
pub use mathlib.Core.List.{List, [], ◌∷◌, ◌++◌, map, reverse, append-nil, append_assoc}
pub use native.Mathlib.Omega.{arith}
