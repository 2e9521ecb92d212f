-- ===== src/Base.antt =====
-- The names that the other modules share: the libraries', passed on, and those of the children.
mod Tests
mod Lists
mod Bytes
mod Sets
mod Int
mod Arith
mod Bags
pub use Tests.*
pub use Lists.*
pub use Bytes.{Text, codes, text_eq_iff, text_eq_self}
unfoldable pub use Bytes.{text_eq}
unfoldable pub use Sets.*
pub use Bags.{total, total-append, SameBag, Bag, bag, bag_eq, put, put-bag}
pub use Int.{ℤ, pos, negsuc, int_ltb, sub_ℕ, negate}
unfoldable pub use Int.{stoi, stoi_hex}
pub use Arith.{int_ltb_chain, int_ltb_antisym, int_ltb_irrefl}
unfoldable pub use Arith.{◌+ℤ◌, ◌-ℤ◌, scale, quotient}
pub use Prim.Native.Nat.{ℕ, zero, suc, ◌+◌, ◌-◌, ◌*◌, ◌/◌, ◌%◌, ◌^◌, ◌≤◌, ◌<◌, min, max}
pub use mathlib.Core.Path.{◌≡◌, refl, sym, ap, ap₂, ◌∙◌, subst}
pub use mathlib.Core.Logic.{◌≢◌, ◌↔◌, ◌⊎◌, inl, inr}
pub use mathlib.Core.Bool.{Bool, true, false, not, ◌&&◌, ◌||◌}
pub use mathlib.Core.Option.{Option, none, some}
pub use mathlib.Core.List.{List, [], ◌∷◌, ◌++◌, map, append-nil, append_assoc, map-append}
pub use native.Mathlib.Omega.{arith}
