-- ===== src/Ops/Tests.antt =====
-- Source/DataTypes/Ops: the operations at concrete values.
use fptl.Prelude.{
  ◌≡◌, ◌↔◌, ◌<◌, refl, Bool, true, ◌∷◌, [], ok, err, divide_by_zero, if◌then◌else◌, fault,
}
use fptl.Prelude.Int.{ℤ, pos, negsuc, ◌+ℤ◌, ◌*ℤ◌, ◌-ℤ◌, quot, rem, magnitude, is_negative, int64}
use fptl.Value.{int, string}
use fptl.Ops.{add, div, mod_values, sub, less, equal, greater, before_chars}
use fptl.Ops.Integers.{div_lem}
use fptl.Ops.Order.{ints, ExactlyOne, compare_lem}
use fptl.Ops.Sums.{sum, sums_fit, concat, add_lem}
use fptl.Ops.Sample.{whole_numbers}

div_negative : div whole_numbers (int (negsuc 6)) (int (pos 2)) ≡ ok (int (negsuc 2))
unfolding div quot int64
div_negative = refl

mod_negative : mod_values whole_numbers (int (negsuc 6)) (int (pos 2)) ≡ ok (int (negsuc 0))
unfolding mod_values quot rem int64
mod_negative = refl

div_zero : div whole_numbers (int (pos 5)) (int (pos 0)) ≡ err divide_by_zero
unfolding div
div_zero = refl

less_texts : less whole_numbers (string (97 ∷ [])) (string (97 ∷ 98 ∷ [])) ≡ ok true
unfolding less before_chars
less_texts = refl

sub_example : sub whole_numbers (int (pos 5)) (int (pos 7)) ≡ ok (int (negsuc 1))
unfolding sub ◌-ℤ◌ int64
sub_example = refl

div_lem_example :
    (q : ℤ) × (r : ℤ) × (div whole_numbers (int (negsuc 6)) (int (pos 2)) ≡ ok (int q))
    × (mod_values whole_numbers (int (negsuc 6)) (int (pos 2)) ≡ ok (int r))
    × (q *ℤ pos 2 +ℤ r ≡ negsuc 6)
    × (magnitude r < magnitude (pos 2))
    × (is_negative r ≡ true → is_negative (negsuc 6) ≡ true)
div_lem_example = div_lem whole_numbers (negsuc 6) (pos 2) refl (λ e. cc) (λ both. cc (both.1))

compare_lem_example :
    (lt : Bool) × (eq : Bool) × (gt : Bool) × (less whole_numbers (int (pos 1)) (int (negsuc 1))
      ≡ ok lt)
    × (equal whole_numbers (int (pos 1)) (int (negsuc 1)) ≡ ok eq)
    × (greater whole_numbers (int (pos 1)) (int (negsuc 1)) ≡ ok gt)
    × ExactlyOne lt eq gt
    × ((eq ≡ true) ↔ (int (pos 1) ≡ int (negsuc 1)))
compare_lem_example =
    compare_lem whole_numbers (int (pos 1)) (int (negsuc 1)) (ints (pos 1) (negsuc 1))

add_lem_example :
    (add whole_numbers (int (pos 5)) (int (pos 5) ∷ int (negsuc 8) ∷ []) ≡ (
      if sums_fit (pos 0) (pos 5 ∷ negsuc 8 ∷ [])
      then ok (int (sum (pos 5 ∷ negsuc 8 ∷ [])))
      else err fault))
    × (add whole_numbers (string []) (string [] ∷ string (97 ∷ []) ∷ [])
        ≡ ok (string (concat ([] ∷ (97 ∷ []) ∷ []))))
add_lem_example = add_lem whole_numbers (pos 5) (negsuc 8 ∷ []) [] ((97 ∷ []) ∷ [])
