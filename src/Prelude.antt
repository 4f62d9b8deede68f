-- ===== src/Prelude.antt =====
-- The names that all parts share: the libraries', passed on, and those of the children.
mod Tests
mod Lists
mod Words
mod Text
mod Decimal
pub use Tests.*
pub use Lists.*
pub use Words.*
pub use Text.*
unfoldable pub use Decimal.{decimal, signed_decimal}
pub use Decimal.{hex_digit, hex_byte, hex_word}
pub use Prim.Native.Nat.{ℕ, zero, suc, ◌+◌, ◌-◌, ◌*◌, ◌/◌, ◌%◌, ◌^◌, ◌≤◌, ◌<◌, min}
pub use mathlib.Core.Path.{◌≡◌, refl, sym, ap, ap₂, ◌∙◌}
pub use mathlib.Core.Logic.{◌≢◌, ◌⊎◌, inl, inr}
pub use mathlib.Core.Bool.{Bool, true, false, not, ◌&&◌, ◌||◌}
pub use mathlib.Core.Option.{Option, none, some}
pub use mathlib.Core.List.{List, [], ◌∷◌, ◌++◌, append-nil, append_assoc}
pub use native.Mathlib.Omega.{arith}
