-- ===== src/Base.antt =====
-- The names that the other modules share: the libraries', passed on, Boolean tests on numbers, and
-- the texts and ordered maps of the children. A `std::string` is the list of its bytes.
mod Tests
mod Bytes
mod Maps
mod Sizes
mod Order
pub use Tests.*
pub use Bytes.*
pub use Maps.*
pub use Sizes.*
pub use Order.*
unfoldable pub use Bytes.{codes, is_empty, text_eq, text_lt}
unfoldable pub use Maps.{find, insert, erase, keys}
unfoldable pub use Order.{insert_all}
pub use Prim.Native.Nat.{ℕ, zero, suc, ◌+◌, ◌-◌, ◌*◌, ◌/◌, ◌%◌, ◌^◌, ◌≤◌, ◌<◌}
pub use mathlib.Core.Path.{◌≡◌, refl, sym, ap, ◌∙◌, subst}
pub use mathlib.Core.Logic.{◌≢◌, ◌↔◌, ◌⊎◌, inl, inr}
pub use mathlib.Core.Bool.{Bool, true, false, not, ◌&&◌, ◌||◌}
pub use mathlib.Core.Option.{Option, none, some}
pub use mathlib.Core.List.{List, [], ◌∷◌, ◌++◌, map}
pub use native.Mathlib.Omega.{arith}
