-- ===== src/Prelude.antt =====
-- The names that the other modules share: those of the libraries, passed on, and three children
-- with Boolean tests, lists and texts.
mod Tests
mod Lists
mod Texts
mod Chars
mod Int
mod Sort
pub use Tests.*
pub use Lists.*
unfoldable pub use Texts.*
unfoldable pub use Chars.*
unfoldable pub use Sort.*
pub use Int.*
pub use Prim.Native.Nat.{ℕ, zero, suc, ◌+◌, ◌-◌, ◌*◌, ◌/◌, ◌%◌, ◌≤◌, ◌<◌}
pub use Prim.Native.String.{String}
pub use mathlib.Core.Path.{◌≡◌, refl, sym, ap, ap₂, ◌∙◌}
pub use mathlib.Core.Logic.{◌≢◌, ◌↔◌, ◌⊎◌, inl, inr}
pub use mathlib.Core.Bool.{Bool, true, false, not, ◌&&◌, ◌||◌}
pub use mathlib.Core.Option.{Option, none, some}
pub use mathlib.Core.List.{List, [], ◌∷◌, ◌++◌, map}
pub use native.Mathlib.Omega.{arith}
