-- ===== src/Base/Int.antt =====
-- `int` values and `std::stoi`.
use Prim.Native.Nat.{ℕ, zero, suc, ◌+◌, ◌-◌, ◌*◌, ◌^◌}
use mathlib.Core.Bool.{Bool, true, false, ◌&&◌, ◌||◌}
use mathlib.Core.Option.{Option, none, some}
use mathlib.Core.List.{[], ◌∷◌}
use fluffi.Base.Tests.{ltb, leb, ◌==◌, if◌then◌else◌}
use fluffi.Base.Bytes.{Text}

-- `negsuc n` is -(n + 1).
pub data ℤ : Type 0 where
  pos : ℕ → ℤ
  negsuc : ℕ → ℤ

-- `a < b`
abbrev pub int_ltb : ℤ → ℤ → Bool
int_ltb (pos a) (pos b) = ltb a b
int_ltb (pos a) (negsuc b) = false
int_ltb (negsuc a) (pos b) = true
int_ltb (negsuc a) (negsuc b) = ltb b a

-- a - b, as an integer.
abbrev pub sub_ℕ : ℕ → ℕ → ℤ
sub_ℕ a b = if leb b a then pos (a - b) else negsuc (b - a - 1)

abbrev pub negate : ℕ → ℤ
negate zero = pos 0
negate (suc n) = negsuc n

is_digit : ℕ → Bool
is_digit c = leb 48 c && leb c 57

-- The digits at the front, read on after `v`.
read_digits : ℕ → Text → ℕ
unfolding is_digit
read_digits v [] = v
read_digits v (c ∷ cs) =
    let rest = read_digits (10 * v + (c - 48)) cs in if is_digit c then rest else v

-- What follows the sign: no digit is `std::invalid_argument`, a value that is no `int` is
-- `std::out_of_range`.
read_magnitude : ℕ → Text → Option ℕ
unfolding is_digit read_digits
read_magnitude limit [] = none
read_magnitude limit (c ∷ cs) =
    if is_digit c
    then (if leb (read_digits 0 (c ∷ cs)) limit then some (read_digits 0 (c ∷ cs)) else none)
    else none

map_option : {A B : Type 0} → (A → B) → Option A → Option B
map_option f none = none
map_option f (some a) = some (f a)

is_space : ℕ → Bool
is_space c = c == 32 || (leb 9 c && leb c 13)

-- `std::stoi`: blanks, a sign, and the digits at the front; `none` is an exception.
unfoldable pub stoi : Text → Option ℤ
unfolding is_space read_magnitude map_option
stoi [] = none
stoi (c ∷ cs) =
    let rest = stoi cs in
    if is_space c
    then rest
    else if c == 45
    then map_option negate (read_magnitude (2 ^ 31) cs)
    else if c == 43
    then map_option pos (read_magnitude (2 ^ 31 - 1) cs)
    else map_option pos (read_magnitude (2 ^ 31 - 1) (c ∷ cs))

-- The value of a hexadecimal digit.
hex_digit : ℕ → Option ℕ
unfolding is_digit
hex_digit c =
    if is_digit c
    then some (c - 48)
    else if leb 97 c && leb c 102
    then some (c - 87)
    else if leb 65 c && leb c 70
    then some (c - 55)
    else none

read_hex_digits : ℕ → Text → ℕ
unfolding hex_digit
read_hex_digits v [] = v
read_hex_digits v (c ∷ cs) = elim (hex_digit c) [
  | none ↦ v
  | some d ↦ read_hex_digits (16 * v + d) cs
]

-- A prefix `0x` counts only before a hexadecimal digit.
skip_hex_prefix : Text → Text
unfolding hex_digit
skip_hex_prefix [] = []
skip_hex_prefix (c ∷ []) = c ∷ []
skip_hex_prefix (c ∷ (d ∷ [])) = c ∷ (d ∷ [])
skip_hex_prefix (c ∷ (d ∷ (e ∷ cs))) =
    if (c == 48) && ((d == 120) || (d == 88))
    then elim (hex_digit e) [ none ↦ c ∷ (d ∷ (e ∷ cs)) | some v ↦ e ∷ cs ]
    else c ∷ (d ∷ (e ∷ cs))

in_range : ℕ → ℕ → Option ℕ
in_range limit v = if leb v limit then some v else none

read_hex_magnitude : ℕ → Text → Option ℕ
unfolding hex_digit read_hex_digits in_range
read_hex_magnitude limit [] = none
read_hex_magnitude limit (c ∷ cs) = elim (hex_digit c) [
  | none ↦ none
  | some d ↦ in_range limit (read_hex_digits 0 (c ∷ cs))
]

-- `std::stoi` with the base 16.
unfoldable pub stoi_hex : Text → Option ℤ
unfolding is_space read_hex_magnitude skip_hex_prefix map_option
stoi_hex [] = none
stoi_hex (c ∷ cs) =
    let rest = stoi_hex cs in
    if is_space c
    then rest
    else if c == 45
    then map_option negate (read_hex_magnitude (2 ^ 31) (skip_hex_prefix cs))
    else if c == 43
    then map_option pos (read_hex_magnitude (2 ^ 31 - 1) (skip_hex_prefix cs))
    else map_option pos (read_hex_magnitude (2 ^ 31 - 1) (skip_hex_prefix (c ∷ cs)))
