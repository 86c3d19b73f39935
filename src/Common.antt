-- ===== src/Common.antt =====
-- The names that all modules share: the libraries', passed on, and those of the children.
-- Tests holds Boolean tests and splits, Equality the equality interface, Lists sequences over the native
-- numbers, Table database tables as lists of rows, Keyed those
-- whose rows have a key, Results exceptions as values, and Powers powers of two.
mod Tests
mod Equality
mod Lists
mod Table
mod Results
mod Keyed
mod Powers
pub use Tests.*
pub use Equality.*
pub use Lists.*
pub use Table.*
pub use Results.*
pub use Keyed.*
pub use Powers.*
pub use Prim.Native.Nat.{ℕ, zero, suc, ◌+◌, ◌-◌, ◌*◌, ◌/◌, ◌^◌, ◌≤◌, ◌<◌, min}
pub use Prim.Native.String.{String, ◌++◌ as ◌<>◌}
pub use mathlib.Core.Path.{◌≡◌, refl, sym, ap, ◌∙◌, subst}
pub use mathlib.Core.Logic.{◌≢◌, ◌↔◌, ◌⊎◌, inl, inr}
pub use mathlib.Core.Bool.{Bool, true, false, not, ◌&&◌, ◌||◌}
pub use mathlib.Core.Option.{Option, none, some}
pub use mathlib.Core.List.{List, [], ◌∷◌, ◌++◌, map}
pub use native.Mathlib.Omega.{arith}
