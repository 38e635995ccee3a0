-- ===== src/Base.antt =====
-- The names that every module shares: the libraries', passed on, and those of the children.
mod Tests
mod Lists
pub mod Int
mod Sort
pub mod Options
mod Actions
pub use Tests.*
pub use Lists.*
pub use Sort.*
pub use Sort.Leading.*
pub use Sort.Ordered.*
pub use Sort.Reordered.*
unfoldable pub use Actions.{pure, raise, lift, gets, attempt, modify, ◌>>=◌}
pub use Actions.{
  Result, ok, err, and_then, and_then-ok, and_then-defined, IfOk, IfOk-and_then, IfOk-unless, Exec,
  continue, handled, ◌>>◌, if_at,
}
pub use Actions.Keeps.*
pub use Actions.Triple.*
pub use Prim.Native.Nat.{ℕ, zero, suc, ◌+◌, ◌-◌, ◌*◌, ◌/◌, ◌%◌, ◌^◌, ◌≤◌, ◌<◌}
pub use Prim.Native.String.{String}
pub use mathlib.Core.Path.{◌≡◌, refl, sym, ap, subst, ◌∙◌}
pub use mathlib.Core.Logic.{◌≢◌, ◌↔◌, ◌⊎◌, inl, inr}
pub use mathlib.Core.Bool.{Bool, true, false, ◌&&◌, ◌||◌, not}
pub use mathlib.Core.Option.{Option, none, some}
pub use mathlib.Core.List.{List, [], ◌∷◌, ◌++◌, map}
pub use native.Mathlib.Omega.{arith}
