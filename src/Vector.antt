-- ===== src/Vector.antt =====
-- What Source/Evaluator/Context.cpp (`unwind`) and Source/Evaluator/LockFreeWorkStealingQueue.h
-- (`push`) do with a vector: elements moved down in place, and `resize`.
pub mod Moves
use fptl.Prelude.{
  ℕ, zero, suc, ◌+◌, ◌-◌, true, false, none, some, List, ◌++◌, length, get_elem?, set, take,
  replicate, ltb, fault, Result, ok, err,
}

-- `v[dst] = v[src]`, `n` times over.
unfoldable pub copy_down {ℓ} : {A : Type ℓ} → ℕ → ℕ → ℕ → List A → Result (List A)
copy_down zero dst src st = ok st
copy_down (suc n) dst src st = elim (get_elem? st src) [
  | none ↦ err fault
  | some v ↦ elim (ltb dst (length st)) [
    | true ↦ copy_down n (dst + 1) (src + 1) (set st dst v)
    | false ↦ err fault
  ]
]

-- `v.resize(n)`, where new elements are `blank`.
unfoldable pub resize {ℓ} : {A : Type ℓ} → A → ℕ → List A → List A
resize blank n st = take n (st ++ replicate (n - length st) blank)
