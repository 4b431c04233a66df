-- ===== src/Base.antt =====
-- The names that the modules of the development share: those of the libraries, passed on, and the
-- tests, lists, words and bytes of the children. No code of the repository is modelled here.
mod Tests
mod Lists
mod Bytes
mod Results
mod Maps
pub mod Sets
pub mod Bits
pub use Tests.*
pub use Lists.*
pub use Maps.*
unfoldable pub use Bytes.*
unfoldable pub use Results.*
pub use Prim.Native.Nat.{ℕ, zero, suc, ◌+◌, ◌-◌, ◌*◌, ◌/◌, ◌%◌, ◌^◌, ◌≤◌, ◌<◌, bit_and, bit_or}
pub use mathlib.Core.Path.{◌≡◌, refl, sym, ap, ap₂, subst, ◌∙◌}
pub use mathlib.Core.Logic.{◌≢◌, ◌↔◌, ◌⊎◌, inl, inr}
pub use mathlib.Core.Bool.{Bool, true, false, ◌&&◌, ◌||◌, not}
pub use mathlib.Core.Option.{Option, none, some}
pub use mathlib.Core.List.{List, [], ◌∷◌, ◌++◌, map, append-nil, append_assoc}
pub use native.Mathlib.Omega.{arith}
