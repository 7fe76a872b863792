-- ===== src/Ops/Sums.antt =====
-- Source/DataTypes/Ops/IntegerOps.h and StringOps.cpp: `add` on a tuple.
use fptl.Prelude.{
  ℕ, ◌≡◌, refl, sym, ap, ◌∙◌, Bool-cases, Bool, true, ◌&&◌, inl, inr, ok, err, fault, ◌>>=◌,
  if◌then◌else◌, List, [], ◌∷◌, ◌++◌, map, append_assoc, append-nil, arith,
}
use fptl.Prelude.Int.{ℤ, pos, ◌+ℤ◌, fits_int64, int64}
use fptl.Value.{int, string}
use fptl.Ops.{Foreign, add, sum_ints, join_strings}

-- The sum of numbers, and whether every sum of the first of them, from a number on, is in the range.
abbrev pub sum : List ℤ → ℤ
sum [] = pos 0
sum (x ∷ xs) = x +ℤ sum xs

abbrev pub sums_fit : ℤ → List ℤ → Bool
sums_fit acc [] = true
sums_fit acc (x ∷ xs) = fits_int64 (acc +ℤ x) && sums_fit (acc +ℤ x) xs

abbrev pub concat : List (List ℕ) → List ℕ
concat [] = []
concat (s ∷ ss) = s ++ concat ss

+ℤ_assoc : (x y z : ℤ) → x +ℤ y +ℤ z ≡ x +ℤ (y +ℤ z)
unfolding ◌+ℤ◌
+ℤ_assoc x y z = ground arith

+ℤ_zero : (x : ℤ) → x +ℤ pos 0 ≡ x
unfolding ◌+ℤ◌
+ℤ_zero x = ground arith

zero_+ℤ : (x : ℤ) → pos 0 +ℤ x ≡ x
unfolding ◌+ℤ◌
zero_+ℤ x = ground arith

module _ (cpp : Foreign) where
  sum_ints_lem :
      (acc : ℤ) (xs : List ℤ)
      → sum_ints cpp acc (map int xs) ≡ (if sums_fit acc xs then ok (acc +ℤ sum xs) else err fault)
  unfolding sum_ints int64
  sum_ints_lem acc [] = ap ok (sym (+ℤ_zero acc))
  sum_ints_lem acc (x ∷ xs) = elim (Bool-cases (fits_int64 (acc +ℤ x))) [
    | inl fits ↦ rw fits (
        sum_ints_lem (acc +ℤ x) xs
        ∙ ap (λ z. if sums_fit (acc +ℤ x) xs then ok z else err fault) (+ℤ_assoc acc x (sum xs)))
    | inr over ↦ rw over refl
  ]

  join_strings_lem :
      (acc : List ℕ) (ss : List (List ℕ))
      → join_strings cpp acc (map string ss) ≡ ok (acc ++ concat ss)
  unfolding join_strings
  join_strings_lem acc [] = ap ok (sym (append-nil acc))
  join_strings_lem acc (s ∷ ss) =
      join_strings_lem (acc ++ s) ss ∙ ap ok (append_assoc acc s (concat ss))

  -- `add` on integers gives their sum, if every sum of the first of them is in the range of
  -- `int64_t`, and is undefined otherwise; on texts it gives them one after the other.
  pub add_lem :
      (x : ℤ) (xs : List ℤ) (s : List ℕ) (ss : List (List ℕ))
      → (add cpp (int x) (map int (x ∷ xs))
          ≡ (if sums_fit (pos 0) (x ∷ xs) then ok (int (sum (x ∷ xs))) else err fault))
        × (add cpp (string s) (map string (s ∷ ss)) ≡ ok (string (concat (s ∷ ss))))
  unfolding add
  add_lem x xs s ss = (
    ap (λ r. r >>= λ z. ok (int z)) (sum_ints_lem (pos 0) (x ∷ xs)) ∙ sum_found x xs,
    ap (λ r. r >>= λ t. ok (string t)) (join_strings_lem [] (s ∷ ss)),
  )
    where
      sum_found :
          (x : ℤ) (xs : List ℤ)
          → ((if sums_fit (pos 0) (x ∷ xs) then ok (pos 0 +ℤ sum (x ∷ xs)) else err fault) >>= λ z.
              ok (int z))
            ≡ (if sums_fit (pos 0) (x ∷ xs) then ok (int (sum (x ∷ xs))) else err fault)
      sum_found x xs = elim (Bool-cases (sums_fit (pos 0) (x ∷ xs))) [
        | inl fits ↦ rw fits (ap (λ z. ok (int z)) (zero_+ℤ (sum (x ∷ xs))))
        | inr over ↦ rw over refl
      ]
