-- ===== src/Common.antt =====
-- The names that every module shares: those of the libraries, passed on, and those of the children.
mod Tests
mod Lists
mod Texts
mod Numbers
mod Results
pub mod Doubles
mod External
mod Histories
pub mod Keys
pub mod Samples
pub use Tests.*
pub use Lists.*
unfoldable pub use Texts.{
  text_eq, is_space, trim_start, trim, starts_with, ends_with, split_from, split, decimal,
}
pub use Texts.*
unfoldable pub use Numbers.{divide_rounding_up}
pub use Numbers.*
pub use Results.*
pub use External.*
pub use Histories.*
pub use Keys.*
pub use Prim.Native.Nat.{ℕ, zero, suc, ◌+◌, ◌-◌, ◌*◌, ◌/◌, ◌%◌, ◌^◌, ◌≤◌, ◌<◌, min, max}
pub use mathlib.Core.Path.{◌≡◌, refl, sym, ap, ◌∙◌, subst}
pub use mathlib.Core.Logic.{◌≢◌, ◌↔◌, ◌⊎◌, inl, inr}
pub use mathlib.Core.Bool.{Bool, true, false, ◌&&◌, ◌||◌, not}
pub use mathlib.Core.Option.{Option, none, some}
pub use mathlib.Core.List.{List, [], ◌∷◌, ◌++◌, map, reverse}
pub use Prim.Native.String.{String}
pub use native.Mathlib.Omega.{arith}
