-- ===== src/Frame/Args.antt =====
-- Source/Evaluator/Context.cpp: what `getArg`, `push` and `advance` do to the argument tuple.
use Prim.Native.Nat.add
use native.Mathlib.Nat.{add-zero}
use fptl.Prelude.{
  ℕ, zero, suc, ◌+◌, ◌≤◌, ◌<◌, ◌≡◌, refl, sym, ◌∙◌, ap, none, inl, inr, Bool-cases, ltb, ltb→lt,
  length-append, drop-append, take-length, out_of_range, err, some, List, [], ◌∷◌, ◌++◌,
  append_assoc, append-nil, length, get_elem?, take, drop, length-drop, length-take, take-append_le,
  drop-append_le, ok, arith,
}
use fptl.Value.{DataValue}
use fptl.Frame.{Frame, sub_size, next_size, at, get_arg, push, push_all, advance}

-- The argument tuple, as a list.
abbrev pub args : Frame → List DataValue
args fr = take fr.arg_num (drop fr.arg_pos fr.stack)

-- The argument tuple lies in the stack.
abbrev pub IsPlaced : Frame → Type 0
IsPlaced fr = fr.arg_pos + fr.arg_num ≤ length fr.stack

pub length-args : (fr : Frame) → IsPlaced fr → length (args fr) ≡ fr.arg_num
length-args fr h =
    length-take fr.arg_num (drop fr.arg_pos fr.stack)
      (omega (arith, length-drop fr.arg_pos fr.stack))

get_elem?-drop : (n i : ℕ) (xs : List DataValue) → get_elem? (drop n xs) i ≡ get_elem? xs (n + i)
get_elem?-drop zero i xs = rw add.zero
get_elem?-drop (suc n) i [] = refl
get_elem?-drop (suc n) i (x ∷ xs) = rw add.suc (get_elem?-drop n i xs)

get_elem?-take : (n i : ℕ) (xs : List DataValue) → i < n → get_elem? (take n xs) i ≡ get_elem? xs i
get_elem?-take zero i xs h = absurd (omega arith)
get_elem?-take (suc n) i [] h = refl
get_elem?-take (suc n) zero (x ∷ xs) h = refl
get_elem?-take (suc n) (suc i) (x ∷ xs) h = get_elem?-take n i xs (omega arith)

-- Reading an argument reads the tuple.
pub get_arg_inside :
    (fr : Frame) (i : ℕ) (v : DataValue)
    → i < fr.arg_num
    → get_elem? (args fr) i ≡ some v
    → get_arg fr i ≡ ok v
unfolding get_arg at
get_arg_inside fr i v h e =
    let read : get_elem? fr.stack (fr.arg_pos + i) ≡ some v =
      sym (get_elem?-drop fr.arg_pos i fr.stack)
      ∙ sym (get_elem?-take fr.arg_num i (drop fr.arg_pos fr.stack) h)
      ∙ e in
    ground (arith, read)

pub push_all_lem :
    (vs : List DataValue) (fr : Frame)
    → push_all vs fr ≡ record fr { stack = fr.stack ++ vs; arity = fr.arity + length vs }
unfolding push_all push
push_all_lem [] fr =
    λ i. record fr { stack = sym (append-nil fr.stack) i; arity = sym (add-zero fr.arity) i }
push_all_lem (v ∷ vs) fr = push_all_lem vs (push v fr) ∙ λ i. record fr {
  stack = append_assoc fr.stack (v ∷ []) vs i;
  arity = arity_step i;
}
  where
    arity_step : fr.arity + 1 + length vs ≡ fr.arity + suc (length vs)
    arity_step = omega arith

pub args-append :
    (fr : Frame) (vs : List DataValue) (a : ℕ)
    → IsPlaced fr
    → args (record fr { stack = fr.stack ++ vs; arity = a }) ≡ args fr
args-append fr vs a h = rw (drop-append_le fr.arg_pos fr.stack vs (omega arith)) (
    take-append_le fr.arg_num (drop fr.arg_pos fr.stack) vs
      (omega (arith, length-drop fr.arg_pos fr.stack)))

-- The tuple from an index on is empty when the index lies outside.
get_elem?-outside : (i : ℕ) (xs : List DataValue) → length xs ≤ i → get_elem? xs i ≡ none
get_elem?-outside i [] h = refl
get_elem?-outside zero (x ∷ xs) h = absurd (omega arith)
get_elem?-outside (suc i) (x ∷ xs) h = get_elem?-outside i xs (omega arith)

get_elem?-inside :
    (i : ℕ) (xs : List DataValue) → i < length xs → (v : DataValue) × (get_elem? xs i ≡ some v)
get_elem?-inside i [] h = absurd (omega arith)
get_elem?-inside zero (x ∷ xs) h = (x, refl)
get_elem?-inside (suc i) (x ∷ xs) h = get_elem?-inside i xs (omega arith)

-- When the argument tuple lies in the stack, `get_arg` reads the tuple at the index, and throws the
-- exception that names the index, counted from 1 in `size_t`, and the tuple's length when the tuple
-- has no such value.
pub get_arg_lem :
    (fr : Frame) (i : ℕ)
    → IsPlaced fr
    → get_arg fr i ≡ elim (get_elem? (args fr) i) [
      | none ↦ err (out_of_range (next_size i) fr.arg_num)
      | some v ↦ ok v
    ]
unfolding get_arg
get_arg_lem fr i h =
    let n = length-args fr h in
    elim (Bool-cases (ltb i fr.arg_num)) [
      | inl inside ↦
          let (v, e) =
            get_elem?-inside i (args fr) (omega (arith, n, ltb→lt i fr.arg_num inside)) in
          rw e (get_arg_inside fr i v (ltb→lt i fr.arg_num inside) e)
      | inr outside ↦ rw (outside, get_elem?-outside i (args fr) (ground (arith, n)))
    ]

-- When the last values of the stack are the results `vs`, `advance` makes them the argument tuple,
-- which lies in the stack, and leaves no results.
pub advance_lem :
    (fr : Frame) (base vs : List DataValue)
    → fr.stack ≡ base ++ vs
    → fr.arity ≡ length vs
    → IsPlaced (advance fr) × (args (advance fr) ≡ vs) × ((advance fr).arity ≡ 0)
unfolding advance sub_size
advance_lem fr base vs st a =
    let pos : sub_size (length fr.stack) fr.arity ≡ length base =
      ground (arith, length-append base vs, ap length st) in
    let whole : length fr.stack ≡ length base + length vs = ap length st ∙ length-append base vs in
    (
      ground arith,
      (λ i. take (a i) (drop (pos i) (st i)))
          ∙ ap (take (length vs)) (drop-append base vs)
          ∙ take-length vs,
      refl,
    )
