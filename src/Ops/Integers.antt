-- ===== src/Ops/Integers.antt =====
-- Source/DataTypes/Ops/IntegerOps.h: the operations on values of type `int64_t`.
use fptl.Prelude.{
  ℕ, zero, suc, ◌+◌, ◌-◌, ◌*◌, ◌/◌, ◌^◌, ◌≤◌, ◌<◌, ◌≡◌, ◌≢◌, refl, ap, true, false, arith, ok,
}
use native.Mathlib.Nat.{div-add-mod', mod-lt, div-le_self}
use fptl.Prelude.Int.{
  ℤ, pos, negsuc, ◌+ℤ◌, ◌*ℤ◌, quot, rem, magnitude, is_negative, fits_int64, int64, eqb_ℤ, sub_ℕ,
}
use fptl.Value.{int}
use fptl.Ops.{Foreign, div, mod_values}

-- Products with the opposite of a number.
opposite_mul_pos : (n m : ℕ) → sub_ℕ 0 n *ℤ pos m ≡ sub_ℕ 0 (n * m)
unfolding ◌*ℤ◌
opposite_mul_pos zero m = ground arith
opposite_mul_pos (suc n) m = ground arith

opposite_mul_negsuc : (n m : ℕ) → sub_ℕ 0 n *ℤ negsuc m ≡ pos (n * suc m)
unfolding ◌*ℤ◌
opposite_mul_negsuc zero m = ground arith
opposite_mul_negsuc (suc n) m = ground arith

-- The quotient and the remainder give the dividend back.
quot-rem : (x y : ℤ) → quot x y *ℤ y +ℤ rem x y ≡ x
unfolding quot rem ◌*ℤ◌ ◌+ℤ◌
quot-rem (pos x) (pos y) = ground (arith, div-add-mod' x y)
quot-rem (pos x) (negsuc y) =
    rw (opposite_mul_negsuc (magnitude (pos x) / magnitude (negsuc y)) y)
      (ground (arith, div-add-mod' (x + 0) (0 + suc y)))
quot-rem (negsuc x) (pos y) =
    rw (opposite_mul_pos (magnitude (negsuc x) / magnitude (pos y)) y)
      (ground (arith, div-add-mod' (0 + suc x) (y + 0)))
quot-rem (negsuc x) (negsuc y) = ground (arith, div-add-mod' (0 + suc x) (0 + suc y))

-- The ends of the range.
abbrev pub min_int64 : ℤ
min_int64 = negsuc (2 ^ 63 - 1)

rem-lt : (x y : ℤ) → y ≢ pos 0 → magnitude (rem x y) < magnitude y
unfolding rem
rem-lt (pos x) (pos zero) h = absurd (h refl)
rem-lt (pos x) (pos (suc y)) h = ground (arith, mod-lt (x + 0) {m = suc y + 0} (omega arith))
rem-lt (pos x) (negsuc y) h = ground (arith, mod-lt (x + 0) {m = 0 + suc y} (omega arith))
rem-lt (negsuc x) (pos zero) h = absurd (h refl)
rem-lt (negsuc x) (pos (suc y)) h = ground (arith, mod-lt (0 + suc x) {m = suc y + 0} (omega arith))
rem-lt (negsuc x) (negsuc y) h = ground (arith, mod-lt (0 + suc x) {m = 0 + suc y} (omega arith))

rem-sign : (x y : ℤ) → is_negative (rem x y) ≡ true → is_negative x ≡ true
unfolding rem
rem-sign (pos x) y h = h
rem-sign (negsuc x) y h = refl

eqb_zero : (y : ℤ) → y ≢ pos 0 → eqb_ℤ y (pos 0) ≡ false
eqb_zero (pos zero) h = absurd (h refl)
eqb_zero (pos (suc y)) h = ground arith
eqb_zero (negsuc y) h = ground arith

half : (n m : ℕ) → n / suc (suc m) ≤ n / 2
half n m = grind (arith, div-add-mod' n (suc (suc m)))

fits_int64-quot :
    (x y : ℤ)
    → fits_int64 x ≡ true
    → y ≢ pos 0
    → ¬ ((x ≡ min_int64) × (y ≡ negsuc 0))
    → fits_int64 (quot x y) ≡ true
unfolding quot
fits_int64-quot (pos x) (pos y) hx hy bad = ground (arith, div-le_self (x + 0) (y + 0))
fits_int64-quot (pos x) (negsuc y) hx hy bad = ground (arith, div-le_self (x + 0) (0 + suc y))
fits_int64-quot (negsuc x) (pos y) hx hy bad = ground (arith, div-le_self (0 + suc x) (y + 0))
fits_int64-quot (negsuc x) (negsuc zero) hx hy bad =
    let small : x ≢ 2 ^ 63 - 1 = λ e. bad (ap negsuc e, refl) in ground arith
fits_int64-quot (negsuc x) (negsuc (suc y)) hx hy bad = ground (arith, half (0 + suc x) y)

-- For a dividend of type `int64_t` and a divisor other than 0, unless they are the least number and -1, `div`
-- and `mod` end with numbers q and r such that q times the divisor, and r, give the dividend, where
-- r is nearer to 0 than the divisor and is negative only if the dividend is.
pub div_lem :
    (cpp : Foreign) (x y : ℤ)
    → fits_int64 x ≡ true
    → y ≢ pos 0
    → ¬ ((x ≡ min_int64) × (y ≡ negsuc 0))
    → (q : ℤ) × (r : ℤ) × (div cpp (int x) (int y) ≡ ok (int q))
      × (mod_values cpp (int x) (int y) ≡ ok (int r))
      × (q *ℤ y +ℤ r ≡ x)
      × (magnitude r < magnitude y)
      × (is_negative r ≡ true → is_negative x ≡ true)
unfolding div mod_values int64
div_lem cpp x y hx hy bad =
    let fits = fits_int64-quot x y hx hy bad in
    (
      quot x y,
      rem x y,
      rw (eqb_zero y hy, fits) refl,
      rw (eqb_zero y hy, fits) refl,
      quot-rem x y,
      rem-lt x y hy,
      rem-sign x y,
    )
