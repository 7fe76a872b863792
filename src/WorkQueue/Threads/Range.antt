-- ===== src/WorkQueue/Threads/Range.antt =====
-- Source/Evaluator/LockFreeWorkStealingQueue.h: how often a job stands in a part of the vector.
use fptl.Prelude.{
  ℕ, zero, suc, ◌+◌, ◌-◌, ◌≤◌, ◌<◌, ◌≡◌, refl, ap, List, [], ◌∷◌, ◌==◌, if◌then◌else◌, arith,
}
use fptl.WorkQueue.Threads.{update}

abbrev pub hit : ℕ → ℕ → ℕ
hit v a = if v == a then 1 else 0

unfoldable pub count : ℕ → List ℕ → ℕ
count a [] = 0
count a (v ∷ vs) = hit v a + count a vs

pub count-cons : (a v : ℕ) (vs : List ℕ) → count a (v ∷ vs) ≡ hit v a + count a vs
unfolding count
count-cons a v vs = refl

-- In the `n` elements from index `i` on.
unfoldable pub count_in : ℕ → (ℕ → ℕ) → ℕ → ℕ → ℕ
count_in a q i zero = 0
count_in a q i (suc n) = hit (q i) a + count_in a q (i + 1) n

pub count_in-first :
    (a : ℕ) (q : ℕ → ℕ) (i n m : ℕ)
    → n ≡ suc m
    → count_in a q i n ≡ hit (q i) a + count_in a q (i + 1) m
unfolding count_in
count_in-first a q i n m e = ap (count_in a q i) e

last_hit : (a : ℕ) (q : ℕ → ℕ) (j k : ℕ) → j ≡ k → hit (q j) a ≡ hit (q k) a
last_hit a q j k e = ap (λ n. hit (q n) a) e

pub count_in-last :
    (a : ℕ) (q : ℕ → ℕ) (i n : ℕ) → count_in a q i (suc n) ≡ count_in a q i n + hit (q (i + n)) a
unfolding count_in
count_in-last a q i zero = omega (arith, last_hit a q i (i + 0) (omega arith))
count_in-last a q i (suc n) =
    omega (arith, count_in-last a q (i + 1) n, last_hit a q (i + 1 + n) (i + suc n) (omega arith))

-- A write behind the part.
pub count_in-update :
    (a : ℕ) (q : ℕ → ℕ) (i n k x : ℕ) → i + n ≤ k → count_in a (update q k x) i n ≡ count_in a q i n
unfolding count_in
count_in-update a q i zero k x h = refl
count_in-update a q i (suc n) k x h =
    ground (arith, count_in-update a q (i + 1) n k x (omega arith))

-- The same for a part given by its ends: one more element behind it, and one less in front.
pub count_in-grow :
    (a : ℕ) (q : ℕ → ℕ) (lo hi : ℕ)
    → lo ≤ hi
    → count_in a q lo (hi + 1 - lo) ≡ count_in a q lo (hi - lo) + hit (q hi) a
count_in-grow a q lo hi le = omega (
  arith,
  ap (count_in a q lo) (length_lem),
  count_in-last a q lo (hi - lo),
  last_hit a q (lo + (hi - lo)) hi (omega arith),
)
  where
    length_lem : hi + 1 - lo ≡ suc (hi - lo)
    length_lem = omega arith

pub count_in-drop :
    (a : ℕ) (q : ℕ → ℕ) (lo hi : ℕ)
    → lo < hi
    → count_in a q lo (hi - lo) ≡ hit (q lo) a + count_in a q (lo + 1) (hi - (lo + 1))
count_in-drop a q lo hi lt = count_in-first a q lo (hi - lo) (hi - (lo + 1)) (omega arith)
