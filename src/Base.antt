-- ===== src/Base.antt =====
-- Names that every module shares: those of the libraries, passed on, and children with tests, lists,
-- texts, maps and sorting.
mod Tests
mod Lists
mod Strings
mod Maps
mod Text
mod Sort
pub use Tests.*
pub use Lists.*
unfoldable pub use Strings.*
unfoldable pub use Text.*
unfoldable pub use Sort.*
unfoldable pub use Maps.{Dict, lookup, sorted_keys}
pub use Maps.{any-sorted_keys}
pub use Prim.Native.Nat.{ℕ, zero, suc, ◌+◌, ◌-◌, ◌*◌, ◌≤◌, ◌<◌, min, max}
pub use Prim.Native.Char.{Char, code}
pub use Prim.Native.String.{String}
pub use mathlib.Core.Path.{◌≡◌, refl, sym, ap, ◌∙◌}
pub use mathlib.Core.Logic.{◌≢◌, ◌↔◌, ◌⊎◌, inl, inr}
pub use mathlib.Core.Bool.{Bool, true, false, not, ◌&&◌, ◌||◌}
pub use mathlib.Core.Option.{Option, none, some}
pub use mathlib.Core.List.{List, [], ◌∷◌, ◌++◌, map}
pub use native.Mathlib.Omega.{arith}
pub use text.Mathlib.Text.{◌==◌}
pub use text.Mathlib.TextEquality.{eq_iff}
pub use text.Mathlib.TextPositions.{eq_refl}
