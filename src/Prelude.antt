-- ===== src/Prelude.antt =====
-- The names that the modules of the development share: the libraries', passed on, and those of
-- the children (tests and results, lists over the native numbers, Python's dict).
mod Tests
mod Lists
pub mod Dict
pub mod Floats
pub use Tests.*
pub use Lists.*
pub use Prim.Native.Nat.{ℕ, zero, suc, ◌+◌, ◌-◌, ◌*◌, ◌/◌, ◌%◌, ◌≤◌, ◌<◌, min, max}
pub use mathlib.Core.Path.{◌≡◌, refl, sym, ap, ◌∙◌, fun_ext}
pub use mathlib.Core.Logic.{◌≢◌, ◌↔◌, ◌⊎◌, inl, inr}
pub use mathlib.Core.Bool.{Bool, true, false, not, ◌&&◌, ◌||◌}
pub use mathlib.Core.Option.{Option, none, some}
pub use mathlib.Core.List.{List, [], ◌∷◌, ◌++◌, map, append_assoc, append-nil}
pub use native.Mathlib.Omega.{arith}
unfoldable pub use mathlib.Core.Logic.{ite, dite}
unfoldable pub use native.Mathlib.Decide.{dec_lt, dec_le, ℕ_discrete}
