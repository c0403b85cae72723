-- ===== src/Prelude.antt =====
-- Names that every module shares: the libraries' names in use, Boolean tests on the native
-- numbers, equality as an instance, lists, Rust strings as lists of code points, and maps.
pub mod Tests
pub mod Lists
pub mod Strings
pub mod Map
pub mod Sort
pub mod Split
pub mod Trim
pub mod Utf8
pub mod Bytes
pub mod Chunks
pub mod Ranking
pub mod Buckets
pub mod Components
pub mod Decimal
pub mod Words
pub use Tests.*
pub use Lists.*
pub use Strings.*
pub use Prim.Native.Nat.{ℕ, zero, suc, ◌+◌, ◌-◌, ◌*◌, ◌/◌, ◌%◌, ◌^◌, ◌≤◌, ◌<◌, min, max}
pub use Prim.Native.String.{String}
pub use mathlib.Core.Path.{◌≡◌, refl, sym, ap, ap₂, ◌∙◌, subst, subst₂, fun_ext}
pub use mathlib.Core.Logic.{◌≢◌, ◌↔◌, ◌⊎◌, inl, inr}
pub use mathlib.Core.Bool.{Bool, true, false, not, ◌&&◌, ◌||◌}
pub use mathlib.Core.Option.{Option, none, some}
pub use mathlib.Core.List.{List, [], ◌∷◌, ◌++◌, map}
pub use native.Mathlib.Omega.{arith}
