-- ===== src/Base.antt =====
-- The names that the modules of the development share: the library's, passed on, and those of the
-- children (Boolean tests, arrays as lists, 32-bit words, C strings in memory, checks over a
-- small range, loops).
mod Tests
mod Lists
mod Word
mod Strings
mod Below
mod Loops
pub use Tests.*
pub use Lists.*
pub use Word.*
pub use Strings.*
unfoldable pub use Loops.{for_each}
pub use Loops.{iterate, Returns, for_each-Returns}
unfoldable pub use Below.{all_below}
pub use Below.{all_below_at}
pub use Prim.Native.Nat.{ℕ, zero, suc, ◌+◌, ◌-◌, ◌*◌, ◌/◌, ◌%◌, ◌^◌, ◌≤◌, ◌<◌, min}
pub use Prim.Native.String.{String}
pub use mathlib.Core.Path.{◌≡◌, refl, sym, ap, ap₂, ◌∙◌, subst}
pub use mathlib.Core.Logic.{◌≢◌, ◌↔◌, ◌⊎◌, inl, inr}
pub use mathlib.Core.Bool.{Bool, true, false, not, ◌&&◌, ◌||◌}
pub use mathlib.Core.Option.{Option, none, some}
pub use mathlib.Core.List.{List, [], ◌∷◌, ◌++◌, map}
pub use native.Mathlib.Omega.{arith}
unfoldable pub use native.Mathlib.Decide.{ℕ_discrete}
