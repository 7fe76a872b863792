-- ===== src/Library/Local.antt =====
-- Source/Libraries: what the basic functions do to the stack, as functions of the argument tuple.
use fptl.Prelude.{
  ℕ, zero, suc, ◌-◌, ◌<◌, ◌≡◌, refl, sym, ap, ◌∙◌, none, some, List, [], ◌∷◌, length, get_elem?,
  take, drop, drop-append, take-length, out_of_range, Result, ok, err, timeout, ◌>>=◌, bind_assoc,
  arith,
}
use fptl.Prelude.Int.{pos}
use fptl.Value.{DataValue, int, undefined}
use fptl.Frame.{Frame, next_size, get_arg, push, push_all}
use fptl.Frame.Args.{args, IsPlaced, get_arg_lem, length-args, push_all_lem}
use fptl.Scheme.{TFunction, push_undefined}
use fptl.Evaluator.{new_frame, copy_range}
use fptl.Ops.{Foreign}
use fptl.Semantics.{apply, IsLocal}
use fptl.Correct.Tuples.{copy_range_lem}
use fptl.Library.{unary, binary, nullary, tuple_length, add_tuple, add_value}

-- The value at an index of the tuple, or the exception of `getArg`.
abbrev pub arg_of : List DataValue → ℕ → Result DataValue
arg_of vs i = elim (get_elem? vs i) [
  | none ↦ err (out_of_range (next_size i) (length vs))
  | some v ↦ ok v
]

pub get_arg-args : (fr : Frame) (i : ℕ) → IsPlaced fr → get_arg fr i ≡ arg_of (args fr) i
get_arg-args fr i h =
    get_arg_lem fr i h
    ∙ ap
        (λ n. elim (get_elem? (args fr) i) [
          | none ↦ err (out_of_range (next_size i) n)
          | some v ↦ ok v
        ])
        (sym (length-args fr h))

-- A function that pushes values, which it computes from the argument tuple; and one value.
abbrev pub PushesAll : TFunction → (List DataValue → Result (List DataValue)) → Type 0
PushesAll fn h = (fr : Frame) → IsPlaced fr → fn fr ≡ (h (args fr) >>= λ vs. ok (push_all vs fr))

abbrev pub Pushes : TFunction → (List DataValue → Result DataValue) → Type 0
Pushes fn h = (fr : Frame) → IsPlaced fr → fn fr ≡ (h (args fr) >>= λ v. ok (push v fr))

pushed :
    (vs : List DataValue) (r : Result (List DataValue)) (fr : Frame)
    → (r >>= λ ws. ok (push_all ws fr)) ≡ (
        (r >>= λ ws. ok (push_all ws (new_frame vs)))
        >>= (λ f. ok (drop (length vs) f.stack))
        >>= λ ws. ok (push_all ws fr))
unfolding new_frame
pushed vs (ok ws) fr =
    ap (λ l. ok (push_all l fr))
      (sym
        (ap (λ f. drop (length vs) f.stack) (push_all_lem ws (new_frame vs)) ∙ drop-append vs ws))
pushed vs (err e) fr = refl
pushed vs timeout fr = refl

pub new_frame-IsPlaced : (vs : List DataValue) → IsPlaced (new_frame vs)
unfolding new_frame
new_frame-IsPlaced vs = omega arith

pub args-new_frame : (vs : List DataValue) → args (new_frame vs) ≡ vs
unfolding new_frame
args-new_frame vs = take-length vs

pub PushesAll-IsLocal :
    (fn : TFunction) (h : List DataValue → Result (List DataValue)) → PushesAll fn h → IsLocal fn
unfolding apply
PushesAll-IsLocal fn h p fr placed =
    let vs = args fr in
    let alone : fn (new_frame vs) ≡ (h vs >>= λ ws. ok (push_all ws (new_frame vs))) =
      p (new_frame vs) (new_frame-IsPlaced vs)
      ∙ ap (λ us. h us >>= λ ws. ok (push_all ws (new_frame vs))) (args-new_frame vs) in
    p fr placed
    ∙ pushed vs (h vs) fr
    ∙ ap (λ r. r >>= (λ f. ok (drop (length vs) f.stack)) >>= λ ws. ok (push_all ws fr)) (sym alone)

pub Pushes-IsLocal :
    (fn : TFunction) (h : List DataValue → Result DataValue) → Pushes fn h → IsLocal fn
unfolding push_all
Pushes-IsLocal fn h p =
    PushesAll-IsLocal fn (λ vs. h vs >>= λ v. ok (v ∷ []))
      (λ fr placed.
        p fr placed ∙ sym (bind_assoc (h (args fr)) (λ v. ok (v ∷ [])) (λ vs. ok (push_all vs fr))))

abbrev unary_args : (DataValue → Result DataValue) → List DataValue → Result DataValue
unary_args f vs = arg_of vs 0 >>= f

abbrev binary_args : (DataValue → DataValue → Result DataValue) → List DataValue → Result DataValue
binary_args f vs = do lhs ← arg_of vs 0; rhs ← arg_of vs 1; f lhs rhs

unary-Pushes : (f : DataValue → Result DataValue) → Pushes (unary f) (unary_args f)
unfolding unary
unary-Pushes f fr h =
    ap (λ r. r >>= λ arg. f arg >>= λ v. ok (push v fr)) (get_arg-args fr 0 h)
    ∙ sym (bind_assoc (arg_of (args fr) 0) f (λ v. ok (push v fr)))

binary-Pushes : (f : DataValue → DataValue → Result DataValue) → Pushes (binary f) (binary_args f)
unfolding binary
binary-Pushes f fr h =
    (λ i. get_arg-args fr 0 h i >>= λ lhs.
    get_arg-args fr 1 h i >>= λ rhs. f lhs rhs >>= λ v. ok (push v fr))
    ∙ (λ i. arg_of (args fr) 0 >>= λ lhs.
        sym (bind_assoc (arg_of (args fr) 1) (f lhs) (λ v. ok (push v fr))) i)
    ∙ sym (
        bind_assoc (arg_of (args fr) 0) (λ lhs. arg_of (args fr) 1 >>= f lhs) (λ v. ok (push v fr)))

-- The rest of a tuple that has a first value.
abbrev pub add_args : Foreign → List DataValue → Result DataValue
add_args cpp [] = err (out_of_range (next_size 0) 0)
add_args cpp (v ∷ vs) = add_value cpp v vs

drop-suc : (i : ℕ) (xs : List DataValue) → drop (suc i) xs ≡ drop 1 (drop i xs)
drop-suc zero xs = refl
drop-suc (suc i) [] = refl
drop-suc (suc i) (x ∷ xs) = drop-suc i xs

take-nil : (n : ℕ) → take {A = DataValue} n [] ≡ []
take-nil zero = refl
take-nil (suc n) = refl

take-drop_one : (n : ℕ) (xs : List DataValue) → take (n - 1) (drop 1 xs) ≡ drop 1 (take n xs)
take-drop_one zero xs = let e : zero - 1 ≡ zero = omega arith in ap (λ k. take k (drop 1 xs)) e
take-drop_one (suc n) [] = take-nil (suc n - 1)
take-drop_one (suc n) (x ∷ xs) = let e : suc n - 1 ≡ n = omega arith in ap (λ k. take k xs) e

-- The arguments behind the first, which `Add` reads in the stack.
rest_read :
    (fr : Frame)
    → IsPlaced fr
    → 0 < fr.arg_num
    → copy_range (fr.arg_num - 1) (suc fr.arg_pos) fr.stack ≡ ok (drop 1 (args fr))
rest_read fr h some_args =
    copy_range_lem (fr.arg_num - 1) (suc fr.arg_pos) fr.stack (omega arith)
    ∙ ap ok (
        ap (take (fr.arg_num - 1)) (drop-suc fr.arg_pos fr.stack)
        ∙ take-drop_one fr.arg_num (drop fr.arg_pos fr.stack))

add_on :
    (cpp : Foreign) (fr : Frame)
    → IsPlaced fr
    → (vs : List DataValue) → args fr ≡ vs
    → (arg_of vs 0 >>= λ first. copy_range (fr.arg_num - 1) (suc fr.arg_pos) fr.stack >>= λ rest.
        add_value cpp first rest >>= λ v. ok (push v fr))
      ≡ (add_args cpp vs >>= λ v. ok (push v fr))
add_on cpp fr h [] e = refl
add_on cpp fr h (v ∷ vs) e =
    ap (λ r. r >>= λ rest. add_value cpp v rest >>= λ v. ok (push v fr))
      (rest_read fr h (omega (arith, length-args fr h, ap length e)) ∙ ap (λ l. ok (drop 1 l)) e)

pub add_tuple-Pushes : (cpp : Foreign) → Pushes (add_tuple cpp) (add_args cpp)
unfolding add_tuple
add_tuple-Pushes cpp fr h =
    ap
      (λ r. r >>= λ first. copy_range (fr.arg_num - 1) (suc fr.arg_pos) fr.stack >>= λ rest.
        add_value cpp first rest >>= λ v. ok (push v fr))
      (get_arg-args fr 0 h)
    ∙ add_on cpp fr h (args fr) refl

pub tuple_length-Pushes : Pushes tuple_length (λ vs. ok (int (pos (length vs))))
unfolding tuple_length
tuple_length-Pushes fr h = ap (λ n. ok (push (int (pos n)) fr)) (sym (length-args fr h))

pub unary-IsLocal : (f : DataValue → Result DataValue) → IsLocal (unary f)
unary-IsLocal f = Pushes-IsLocal (unary f) (unary_args f) (unary-Pushes f)

pub binary-IsLocal : (f : DataValue → DataValue → Result DataValue) → IsLocal (binary f)
binary-IsLocal f = Pushes-IsLocal (binary f) (binary_args f) (binary-Pushes f)

pub nullary-IsLocal : (v : DataValue) → IsLocal (nullary v)
unfolding nullary
nullary-IsLocal v = Pushes-IsLocal (nullary v) (λ vs. ok v) (λ fr h. refl)

pub push_undefined-IsLocal : IsLocal push_undefined
unfolding push_undefined
push_undefined-IsLocal = Pushes-IsLocal push_undefined (λ vs. ok undefined) (λ fr h. refl)
