-- ===== src/Base/Arith.antt =====
-- Arithmetic of `int` values; what leaves their range is not wrapped.
use Prim.Native.Nat.{ℕ, zero, suc, ◌+◌, ◌*◌, ◌/◌}
use mathlib.Core.Option.{Option, none, some}
use mathlib.Core.Bool.{true, false}
use mathlib.Core.Path.{◌≡◌, refl}
use native.Mathlib.Omega.{arith}
use fluffi.Base.Int.{ℤ, pos, negsuc, int_ltb, sub_ℕ, negate}

infixl 60 ◌+ℤ◌
unfoldable pub ◌+ℤ◌ : ℤ → ℤ → ℤ
pos a +ℤ pos b = pos (a + b)
pos a +ℤ negsuc b = sub_ℕ a (b + 1)
negsuc a +ℤ pos b = sub_ℕ b (a + 1)
negsuc a +ℤ negsuc b = negsuc (a + b + 1)

infixl 60 ◌-ℤ◌
unfoldable pub ◌-ℤ◌ : ℤ → ℤ → ℤ
unfolding ◌+ℤ◌
a -ℤ pos b = a +ℤ negate b
a -ℤ negsuc b = a +ℤ pos (b + 1)

unfoldable pub scale : ℕ → ℤ → ℤ
scale k (pos a) = pos (k * a)
scale k (negsuc a) = negate (k * (a + 1))

-- Division rounds towards zero; `none` is the trap on a division by zero.
unfoldable pub quotient : ℤ → ℤ → Option ℤ
quotient a (pos zero) = none
quotient (pos a) (pos (suc b)) = some (pos (a / suc b))
quotient (negsuc a) (pos (suc b)) = some (negate ((a + 1) / suc b))
quotient (pos a) (negsuc b) = some (negate (a / (b + 1)))
quotient (negsuc a) (negsuc b) = some (pos ((a + 1) / (b + 1)))

-- "Not less" is transitive.
pub int_ltb_chain : (a b c : ℤ) → int_ltb a b ≡ false → int_ltb b c ≡ false → int_ltb a c ≡ false
int_ltb_chain (pos a) (pos b) (pos c) h k = ground arith
int_ltb_chain (pos a) (pos b) (negsuc c) h k = refl
int_ltb_chain (pos a) (negsuc b) (pos c) h k = ground arith
int_ltb_chain (pos a) (negsuc b) (negsuc c) h k = refl
int_ltb_chain (negsuc a) (pos b) c h k = ground arith
int_ltb_chain (negsuc a) (negsuc b) (pos c) h k = ground arith
int_ltb_chain (negsuc a) (negsuc b) (negsuc c) h k = ground arith

pub int_ltb_antisym : (a b : ℤ) → int_ltb a b ≡ true → int_ltb b a ≡ false
int_ltb_antisym (pos a) (pos b) h = ground arith
int_ltb_antisym (pos a) (negsuc b) h = ground arith
int_ltb_antisym (negsuc a) (pos b) h = refl
int_ltb_antisym (negsuc a) (negsuc b) h = ground arith

pub int_ltb_irrefl : (a : ℤ) → int_ltb a a ≡ false
int_ltb_irrefl (pos a) = ground arith
int_ltb_irrefl (negsuc a) = ground arith
