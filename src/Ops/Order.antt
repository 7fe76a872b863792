-- ===== src/Ops/Order.antt =====
-- Source/DataTypes/Ops/IntegerOps.h and StringOps.h: the order that `less`, `equal` and `greater`
-- give on numbers and on texts.
use fptl.Prelude.{ℕ, ◌<◌, ◌≡◌, ◌↔◌, refl, ap, Bool, true, false, arith, ok, List, [], ◌∷◌}
use fptl.Prelude.Int.{ℤ, ltb_ℤ, eqb_ℤ}
use fptl.Value.{DataValue, int, string}
use fptl.Ops.{Foreign, same_chars, before_chars, equal, less, greater}

-- A text is a sequence of bytes.
abbrev pub AreBytes : List ℕ → Type 0
AreBytes [] = Unit
AreBytes (x ∷ xs) = (x < 256) × AreBytes xs

-- One of three tests holds and the others do not.
abbrev pub ExactlyOne : Bool → Bool → Bool → Type 0
ExactlyOne true false false = Unit
ExactlyOne false true false = Unit
ExactlyOne false false true = Unit
ExactlyOne _ _ _ = ⊥

same_chars_iff : (s t : List ℕ) → (same_chars s t ≡ true) ↔ (s ≡ t)
unfolding same_chars
same_chars_iff [] [] = ground arith
same_chars_iff [] (y ∷ t) = ground arith
same_chars_iff (x ∷ s) [] = ground arith
same_chars_iff (x ∷ s) (y ∷ t) = ground (arith, same_chars_iff s t)

chars_trichotomy :
    (s t : List ℕ)
    → AreBytes s
    → AreBytes t
    → ExactlyOne (before_chars s t) (same_chars s t) (before_chars t s)
unfolding before_chars same_chars
chars_trichotomy [] [] hs ht = tt
chars_trichotomy [] (y ∷ t) hs ht = tt
chars_trichotomy (x ∷ s) [] hs ht = tt
chars_trichotomy (x ∷ s) (y ∷ t) hs ht = ground (arith, chars_trichotomy s t hs.1 ht.1)

int_trichotomy : (x y : ℤ) → ExactlyOne (ltb_ℤ x y) (eqb_ℤ x y) (ltb_ℤ y x)
int_trichotomy x y = ground arith

eqb_ℤ_iff : (x y : ℤ) → (eqb_ℤ x y ≡ true) ↔ (x ≡ y)
eqb_ℤ_iff x y = ground arith

-- Two integers, or two texts.
pub data Comparable : DataValue → DataValue → Type 0 where
  ints : (x y : ℤ) → Comparable (int x) (int y)
  texts : (s t : List ℕ) → AreBytes s → AreBytes t → Comparable (string s) (string t)

module _ (cpp : Foreign) where
  -- On two integers or two texts, `less`, `equal` and `greater` answer, exactly one of them with
  -- true, and `equal` with true exactly when the values are the same.
  pub compare_lem :
      (v w : DataValue)
      → Comparable v w
      → (lt : Bool) × (eq : Bool) × (gt : Bool) × (less cpp v w ≡ ok lt)
        × (equal cpp v w ≡ ok eq)
        × (greater cpp v w ≡ ok gt)
        × ExactlyOne lt eq gt
        × ((eq ≡ true) ↔ (v ≡ w))
  unfolding less equal greater
  compare_lem v w (ints x y) =
      let (there, back) = eqb_ℤ_iff x y in
      (
        ltb_ℤ x y,
        eqb_ℤ x y,
        ltb_ℤ y x,
        refl,
        refl,
        refl,
        int_trichotomy x y,
        ((λ e. ap int (there e)), (λ e. back (cc))),
      )
  compare_lem v w (texts s t hs ht) =
      let (there, back) = same_chars_iff s t in
      (
        before_chars s t,
        same_chars s t,
        before_chars t s,
        refl,
        refl,
        refl,
        chars_trichotomy s t hs ht,
        ((λ e. ap string (there e)), (λ e. back (cc))),
      )
