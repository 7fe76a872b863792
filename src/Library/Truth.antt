-- ===== src/Library/Truth.antt =====
-- Source/Libraries/LogicLib.cpp: the truth values that its functions give.
use fptl.Prelude.{◌≡◌, ◌↔◌, refl, ap, arith, Bool, true, false, not, ◌&&◌, ◌||◌, ok}
use fptl.Prelude.Int.{◌*ℤ◌, ◌+ℤ◌}
use fptl.Value.{DataValue}
use fptl.Ops.{Foreign, to_int, ops_check}
use fptl.Ops.Order.{Comparable, ExactlyOne, ints, texts, compare_lem}
use fptl.Library.{
  create_boolean, not_value, and_value, or_value, xor_value, equal_value, not_equal_value,
  less_value, less_or_equal_value, greater_value, greater_or_equal_value, same_class,
}

abbrev differ : Bool → Bool → Bool
differ true b = not b
differ false b = b

module _ (cpp : Foreign) where
  -- On the values of truth that the program makes, `not`, `and`, `or` and `xor`, which compute with
  -- numbers, are negation, conjunction, disjunction and difference.
  pub logic_lem :
      (a b : Bool)
      → (not_value cpp (create_boolean a) ≡ ok (create_boolean (not a)))
        × (and_value cpp (create_boolean a) (create_boolean b) ≡ ok (create_boolean (a && b)))
        × (or_value cpp (create_boolean a) (create_boolean b) ≡ ok (create_boolean (a || b)))
        × (xor_value cpp (create_boolean a) (create_boolean b) ≡ ok (create_boolean (differ a b)))
  unfolding create_boolean not_value and_value or_value xor_value to_int ops_check ◌*ℤ◌ ◌+ℤ◌
  logic_lem true true = (refl, refl, refl, refl)
  logic_lem true false = (refl, refl, refl, refl)
  logic_lem false true = (refl, refl, refl, refl)
  logic_lem false false = (refl, refl, refl, refl)

  same_class-Comparable : (v w : DataValue) → Comparable v w → same_class v w ≡ ok tt
  unfolding same_class
  same_class-Comparable v w (ints x y) = refl
  same_class-Comparable v w (texts s t hs ht) = refl

  -- The negation of a test, by the other two.
  not_first : (a b c : Bool) → ExactlyOne a b c → not a ≡ (b || c)
  not_first a b c h = ground arith

  not_last : (a b c : Bool) → ExactlyOne a b c → not c ≡ (a || b)
  not_last a b c h = ground arith

  -- On two integers or two texts the six comparisons of the library answer: with some truth values
  -- lt, eq and gt, exactly one of them true and eq true exactly when the values are the same, `less`,
  -- `equal` and `greater` give these, `nequal` the negation of eq, `lequal` lt or eq, and `gequal`
  -- eq or gt.
  pub comparisons_lem :
      (v w : DataValue)
      → Comparable v w
      → (lt : Bool) × (eq : Bool) × (gt : Bool) × ExactlyOne lt eq gt
        × ((eq ≡ true) ↔ (v ≡ w))
        × (less_value cpp v w ≡ ok (create_boolean lt))
        × (equal_value cpp v w ≡ ok (create_boolean eq))
        × (greater_value cpp v w ≡ ok (create_boolean gt))
        × (not_equal_value cpp v w ≡ ok (create_boolean (not eq)))
        × (less_or_equal_value cpp v w ≡ ok (create_boolean (lt || eq)))
        × (greater_or_equal_value cpp v w ≡ ok (create_boolean (eq || gt)))
  unfolding less_value equal_value greater_value not_equal_value less_or_equal_value
      greater_or_equal_value
  comparisons_lem v w c =
      let (lt, eq, gt, is_lt, is_eq, is_gt, one, same) = compare_lem cpp v w c in
      let class = same_class-Comparable v w c in
      (
        lt,
        eq,
        gt,
        one,
        same,
        rw (class, is_lt) refl,
        rw (class, is_eq) refl,
        rw (class, is_gt) refl,
        rw (class, is_eq) refl,
        rw (class, is_gt) (ap (λ b. ok (create_boolean b)) (not_last lt eq gt one)),
        rw (class, is_lt) (ap (λ b. ok (create_boolean b)) (not_first lt eq gt one)),
      )
