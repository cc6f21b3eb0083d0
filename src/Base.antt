-- ===== src/Base.antt =====
-- Names, notation and lemmas that the whole library shares.
mod Tests
mod Lists
mod Results
mod ByteStrings
pub use Tests.*
pub use Lists.*
pub use Results.*
unfoldable pub use ByteStrings.{Bytes, codes, bytes_eq, mem}
pub use ByteStrings.{bytes_eq_refl, eq_of_bytes_eq, bytes_eq_iff, bytes_eq_comm}
pub use Prim.Native.Nat.{ℕ, zero, suc, ◌+◌, ◌-◌, ◌*◌, ◌/◌, ◌%◌, ◌^◌, ◌≤◌, ◌<◌, min}
pub use mathlib.Core.Path.{◌≡◌, refl, sym, ap, ap₂, subst, ◌∙◌, fun_ext}
pub use mathlib.Core.Logic.{◌≢◌, ◌↔◌, ◌⊎◌, inl, inr}
pub use mathlib.Core.Bool.{Bool, true, false, not, ◌&&◌, ◌||◌}
pub use mathlib.Core.Option.{Option, none, some}
pub use mathlib.Core.List.{List, [], ◌∷◌, ◌++◌, map, reverse, append-nil, append_assoc}
pub use native.Mathlib.Omega.{arith}
