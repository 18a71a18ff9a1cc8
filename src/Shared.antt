-- ===== src/Shared.antt =====
-- Names that every module shares: the libraries', passed on, Boolean tests, lists under native
-- indices, and how a call of the program ends.
mod Tests
mod Lists
mod Calls
mod Flags
pub use Tests.*
pub use Lists.*
pub use Calls.*
pub use Flags.*
pub use Prim.Native.Nat.{ℕ, zero, suc, ◌+◌, ◌-◌, ◌*◌, ◌/◌, ◌%◌, ◌^◌, ◌≤◌, ◌<◌, max}
pub use mathlib.Core.Path.{◌≡◌, refl, sym, ap, subst, ◌∙◌}
pub use mathlib.Core.Logic.{◌≢◌, ◌↔◌, ◌⊎◌, inl, inr}
pub use mathlib.Core.Bool.{Bool, true, false, not, ◌&&◌, ◌||◌}
pub use mathlib.Core.Option.{Option, none, some, none-ne-some}
pub use mathlib.Core.List.{List, [], ◌∷◌, ◌++◌, map, foldl, reverse, Memᴰ, append-nil, append_assoc}
pub use native.Mathlib.Omega.{arith}
