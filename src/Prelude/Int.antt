-- ===== src/Prelude/Int.antt =====
-- Signed integers over the native numbers, under the library's names, and the range of `int64_t`.
use Prim.Native.Nat.{ℕ, suc, ◌+◌, ◌-◌, ◌*◌, ◌/◌, ◌%◌, ◌^◌}
use mathlib.Core.Bool.{Bool, true, false, ◌&&◌}
use fptl.Prelude.Tests.{ltb, leb, ◌==◌, if◌then◌else◌}
use fptl.Prelude.Outcome.{Result, ok, err, fault}

-- `negsuc n` is -(n + 1).
pub data ℤ : Type 0 where
  pos : ℕ → ℤ
  negsuc : ℕ → ℤ

abbrev pub pos_part : ℤ → ℕ
pos_part (pos n) = n
pos_part (negsuc n) = 0

abbrev pub neg_part : ℤ → ℕ
neg_part (pos n) = 0
neg_part (negsuc n) = suc n

-- a - b, as an integer.
abbrev pub sub_ℕ : ℕ → ℕ → ℤ
sub_ℕ a b = if leb b a then pos (a - b) else negsuc (b - a - 1)

infixl 65 ◌+ℤ◌ ◌-ℤ◌
infixl 70 ◌*ℤ◌
unfoldable pub ◌+ℤ◌ : ℤ → ℤ → ℤ
x +ℤ y = sub_ℕ (pos_part x + pos_part y) (neg_part x + neg_part y)

unfoldable pub ◌-ℤ◌ : ℤ → ℤ → ℤ
x -ℤ y = sub_ℕ (pos_part x + neg_part y) (neg_part x + pos_part y)

-- The number without its sign, and a number with a sign.
abbrev pub magnitude : ℤ → ℕ
magnitude x = pos_part x + neg_part x

abbrev pub is_negative : ℤ → Bool
is_negative (pos n) = false
is_negative (negsuc n) = true

abbrev pub signed : Bool → ℕ → ℤ
signed true n = sub_ℕ 0 n
signed false n = pos n

abbrev pub differ : Bool → Bool → Bool
differ true true = false
differ true false = true
differ false b = b

unfoldable pub ◌*ℤ◌ : ℤ → ℤ → ℤ
x *ℤ y = signed (differ (is_negative x) (is_negative y)) (magnitude x * magnitude y)

-- Division that cuts off towards zero, and its remainder, which has the sign of the dividend.
unfoldable pub quot : ℤ → ℤ → ℤ
quot x y = signed (differ (is_negative x) (is_negative y)) (magnitude x / magnitude y)

unfoldable pub rem : ℤ → ℤ → ℤ
rem x y = signed (is_negative x) (magnitude x % magnitude y)

abbrev pub ltb_ℤ : ℤ → ℤ → Bool
ltb_ℤ x y = ltb (pos_part x + neg_part y) (pos_part y + neg_part x)

abbrev pub eqb_ℤ : ℤ → ℤ → Bool
eqb_ℤ x y = pos_part x + neg_part y == pos_part y + neg_part x

-- The values of `int64_t`.
abbrev pub fits_int64 : ℤ → Bool
fits_int64 x = ltb (pos_part x) (2 ^ 63) && leb (neg_part x) (2 ^ 63)

-- Arithmetic of `int64_t` outside its range is undefined.
unfoldable pub int64 : ℤ → Result ℤ
int64 x = if fits_int64 x then ok x else err fault
