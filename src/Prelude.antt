-- ===== src/Prelude.antt =====
-- The names that the other modules share: those of the libraries, passed on, and those of children.
mod Tests
mod Lists
mod Int
mod Fault
pub use Tests.*
pub use Lists.*
pub use Int.*
pub use Fault.*
pub use Prim.Native.Nat.{ℕ, zero, suc, ◌+◌, ◌-◌, ◌*◌, ◌/◌, ◌%◌, ◌^◌, ◌≤◌, ◌<◌}
pub use Prim.Native.String.{String}
pub use mathlib.Core.Path.{◌≡◌, refl, sym, ap, fun_ext, subst, ◌∙◌}
pub use mathlib.Core.Logic.{◌≢◌, ◌↔◌, ◌⊎◌, inl, inr}
pub use mathlib.Core.Bool.{Bool, true, false, not, ◌&&◌, ◌||◌}
pub use mathlib.Core.Option.{Option, none, some, get_or}
pub use mathlib.Core.List.{List, [], ◌∷◌, ◌++◌, map, append-nil, append_assoc}
unfoldable pub use native.Mathlib.Decide.{dec_lt}
pub use native.Mathlib.Omega.{arith}
