-- ===== src/Correct/Tuples.antt =====
-- Source/InternalForm/InternalForm.cpp: the loop of `GetArg`, and the copying of tuples in
-- Source/Evaluator/Context.cpp, as operations on lists.
use native.Mathlib.Numerals.{add-one}
use fptl.Prelude.{
  length-append, leb→le, ltb→lt, drop_of_get_elem?, lt_of_get_elem?, ℕ, zero, suc, ◌+◌, ◌-◌, ◌≤◌,
  ◌<◌, ◌≡◌, refl, sym, ap, ◌∙◌, true, false, inl, inr, some, List, [], ◌∷◌, bind_assoc, length,
  get_elem?, take, drop, split_at, ltb, leb, Bool-cases, ok, ◌>>=◌, arith,
}
use fptl.Value.{DataValue}
use fptl.Frame.{Frame, at, get_arg, push, push_all}
use fptl.Frame.Args.{args, IsPlaced, get_arg_inside, length-args, args-append}
use fptl.Evaluator.{copy_range}
use fptl.Exec.Steps.{push_range}
use fptl.Semantics.{select}

at_lem : (st : List DataValue) (i : ℕ) (v : DataValue) → get_elem? st i ≡ some v → at st i ≡ ok v
unfolding at
at_lem st i v e = rw (at, e)

pub copy_range_lem :
    (n i : ℕ) (st : List DataValue)
    → i + n ≤ length st
    → copy_range n i st ≡ ok (take n (drop i st))
unfolding copy_range
copy_range_lem zero i st h = refl
copy_range_lem (suc n) i st h =
    let (v, e, d) = split_at i st (omega arith) in
    rw (at_lem st i v e, copy_range_lem n (i + 1) st (omega arith), d, add-one)

-- The tuple from an index on, with its first value apart.
take-drop_suc :
    (i to : ℕ) (vs : List DataValue) {v : DataValue}
    → i ≤ to
    → get_elem? vs i ≡ some v
    → take (to + 1 - i) (drop i vs) ≡ v ∷ take (to + 1 - (i + 1)) (drop (i + 1) vs)
take-drop_suc i to vs {v} h e =
    let count : to + 1 - i ≡ suc (to + 1 - (i + 1)) = omega arith in
    rw (count, drop_of_get_elem? i vs e)
      (ap (λ j. v ∷ take (to + 1 - (i + 1)) (drop j vs)) (sym (add-one i)))

-- One more value at the front.
select-suc :
    (i to : ℕ) (vs : List DataValue) (v : DataValue)
    → i ≤ to
    → get_elem? vs i ≡ some v
    → select i to vs ≡ (select (i + 1) to vs >>= λ ws. ok (v ∷ ws))
unfolding select
select-suc i to vs v h e = elim (Bool-cases (leb (i + 1) to)) [
  | inl more ↦ ground (arith, lt_of_get_elem? i vs e, take-drop_suc i to vs h e)
  | inr last ↦
      let none_left : to + 1 - (i + 1) ≡ 0 = ground arith in
      ground (
        arith,
        lt_of_get_elem? i vs e,
        take-drop_suc i to vs h e,
        ap (λ n. take n (drop (i + 1) vs)) none_left,
      )
]

push_range_more :
    (f i to : ℕ) (fr : Frame) (v : DataValue)
    → leb i to ≡ true
    → get_arg fr i ≡ ok v
    → push_range (suc f) i to fr ≡ push_range f (i + 1) to (push v fr)
unfolding push_range
push_range_more f i to fr v more e = rw (push_range, more, e)

push_range_outside :
    (f i to : ℕ) (fr : Frame)
    → IsPlaced fr
    → leb i to ≡ true
    → ltb i fr.arg_num ≡ false
    → push_range (suc f) i to fr ≡ (select i to (args fr) >>= λ vs. ok (push_all vs fr))
unfolding push_range select get_arg
push_range_outside f i to fr placed more outside = ground (arith, length-args fr placed)

push_range_stop :
    (f i to : ℕ) (fr : Frame)
    → leb i to ≡ false
    → push_range (suc f) i to fr ≡ (select i to (args fr) >>= λ vs. ok (push_all vs fr))
unfolding push_range select push_all
push_range_stop f i to fr done = ground arith

push-IsPlaced : (v : DataValue) (fr : Frame) → IsPlaced fr → IsPlaced (push v fr)
unfolding push
push-IsPlaced v fr placed = omega (arith, length-append fr.stack (v ∷ []))

args-push : (v : DataValue) (fr : Frame) → IsPlaced fr → args (push v fr) ≡ args fr
unfolding push
args-push v fr placed = args-append fr (v ∷ []) (fr.arity + 1) placed

push_bound :
    (f i : ℕ) (fr : Frame) (v : DataValue)
    → fr.arg_num + 1 ≤ suc f + i
    → (push v fr).arg_num + 1 ≤ f + (i + 1)
unfolding push
push_bound f i fr v k = omega arith

-- A round that finds its argument, in terms of the rounds after it.
push_range_inside :
    (f i to : ℕ) (fr : Frame) (v : DataValue)
    → IsPlaced fr
    → leb i to ≡ true
    → i < fr.arg_num
    → get_elem? (args fr) i ≡ some v
    → push_range f (i + 1) to (push v fr)
      ≡ (select (i + 1) to (args (push v fr)) >>= λ vs. ok (push_all vs (push v fr)))
    → push_range (suc f) i to fr ≡ (select i to (args fr) >>= λ vs. ok (push_all vs fr))
unfolding push_all
push_range_inside f i to fr v placed more lt e rest =
    push_range_more f i to fr v more (get_arg_inside fr i v lt e)
    ∙ rest
    ∙ ap (λ t. select (i + 1) to t >>= λ vs. ok (push_all vs (push v fr))) (args-push v fr placed)
    ∙ sym (bind_assoc (select (i + 1) to (args fr)) (λ ws. ok (v ∷ ws)) _)
    ∙ ap (λ r. r >>= λ vs. ok (push_all vs fr))
        (sym (select-suc i to (args fr) v (leb→le i to more) e))

-- The loop of `GetArg` pushes the selected values, or throws for the first that is not there.
pub push_range_lem :
    (f i to : ℕ) (fr : Frame)
    → IsPlaced fr
    → 0 < f
    → fr.arg_num + 1 ≤ f + i
    → push_range f i to fr ≡ (select i to (args fr) >>= λ vs. ok (push_all vs fr))
push_range_lem zero i to fr placed h k = absurd (omega arith)
push_range_lem (suc f) i to fr placed h k =
    let rest = push_range_lem f (i + 1) to in
    elim (Bool-cases (leb i to)) [
      | inr done ↦ push_range_stop f i to fr done
      | inl more ↦ elim (Bool-cases (ltb i fr.arg_num)) [
        | inr outside ↦ push_range_outside f i to fr placed more outside
        | inl inside ↦
            let lt : i < fr.arg_num = ltb→lt i fr.arg_num inside in
            let (v, e, _) = split_at i (args fr) (omega (arith, length-args fr placed)) in
            push_range_inside f i to fr v placed more lt e
              (rest (push v fr) (push-IsPlaced v fr placed) (omega arith) (push_bound f i fr v k))
      ]
    ]
