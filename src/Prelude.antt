-- ===== src/Prelude.antt =====
-- The names that the modules share: the libraries', passed on, and those of the children.
pub mod Tests
pub mod Int
pub mod Lists
pub mod Arrays
pub use Tests.*
unfoldable pub use Int.{neg, add_int, diff, unsigned, int8}
pub use Int.{ℤ, pos, negsuc, minus_one, index, eq_ℤ, eq_ℤ_sound, index-lt}
pub use Lists.*
unfoldable pub use Arrays.{update, map_range, find_from, Found}
pub use Arrays.{map_range_lem, update_elim, find_from-Found, find_from_cases, find_from-lt}
pub use Prim.Native.Nat.{ℕ, zero, suc, ◌+◌, ◌-◌, ◌*◌, ◌/◌, ◌%◌, ◌^◌, ◌≤◌, ◌<◌, min}
pub use mathlib.Core.Path.{◌≡◌, refl, sym, ap, ap₂, ◌∙◌, subst, fun_ext}
pub use mathlib.Core.Logic.{◌≢◌, ◌↔◌, ◌⊎◌, inl, inr}
pub use mathlib.Core.Bool.{Bool, true, false, not, ◌&&◌, ◌||◌}
pub use mathlib.Core.Option.{Option, none, some}
pub use mathlib.Core.List.{List, [], ◌∷◌, ◌++◌, append_assoc, append-nil}
pub use native.Mathlib.Omega.{arith}
