-- ===== src/Prelude.antt =====
-- The names that every component shares: the libraries', passed on, and those of the children.
pub mod Base
pub mod Bytes
pub mod Assoc
pub mod Distinct
pub mod Search
pub mod Values
pub mod Effect
pub mod Docs
pub mod Texts
unfoldable pub use Base.*
unfoldable pub use Bytes.*
unfoldable pub use Assoc.*
unfoldable pub use Distinct.*
pub use Search.*
pub use Values.*
pub use Prim.Native.Nat.{ℕ, zero, suc, ◌+◌, ◌-◌, ◌*◌, ◌/◌, ◌%◌, ◌≤◌, ◌<◌, min}
pub use Prim.Native.String.{String}
pub use mathlib.Core.Path.{◌≡◌, refl, sym, ap, ◌∙◌, fun_ext}
pub use mathlib.Core.Logic.{◌≢◌, ◌↔◌, ◌⊎◌, inl, inr}
pub use mathlib.Core.Bool.{Bool, true, false, not, ◌&&◌, ◌||◌}
pub use mathlib.Core.Option.{Option, none, some}
pub use mathlib.Core.List.{List, [], ◌∷◌, ◌++◌, map}
pub use native.Mathlib.Omega.{arith}
