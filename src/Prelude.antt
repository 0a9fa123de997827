-- ===== src/Prelude.antt =====
-- The names that the other modules share: the libraries', passed on, and those of the children
-- for Boolean tests, tables, signed integers and replies.
pub mod Tests
pub mod Lists
pub mod Int
pub mod Table
pub mod Rows
pub mod Overlap
pub mod Replies
pub use Tests.*
pub use Lists.*
pub use Table.*
pub use Rows.*
pub use Overlap.*
pub use Replies.{
  Reply, ok, err, ◌>>=◌, ◌>>◌, guard, or_err, ok-injective, guard-cases, or_err-cases, >>=-returned,
  Reply-cases,
}
pub use Prim.Native.Nat.{ℕ, zero, suc, ◌+◌, ◌-◌, ◌*◌, ◌/◌, ◌%◌, ◌≤◌, ◌<◌, min, max}
pub use Prim.Native.String.{String}
pub use mathlib.Core.Path.{◌≡◌, refl, sym, ap, ◌∙◌, subst}
pub use mathlib.Core.Logic.{◌≢◌, ◌⊎◌, inl, inr}
pub use mathlib.Core.Bool.{Bool, true, false, false≢true, ◌&&◌, ◌||◌, not}
pub use mathlib.Core.Option.{Option, none, some}
pub use mathlib.Core.List.{List, [], ◌∷◌, ◌++◌, map}
pub use native.Mathlib.Omega.{arith}
