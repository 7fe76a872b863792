-- ===== src/Correct/Predicate.antt =====
-- Source/InternalForm/InternalForm.cpp: the loop of `CondChoose`, on a predicate's tuple.
use Prim.Native.Nat.add
use native.Mathlib.Numerals.{add-one}
use fptl.Prelude.{
  ℕ, zero, suc, ◌+◌, ◌≡◌, refl, sym, ap, ◌∙◌, Bool, true, false, not, ◌&&◌, ◌||◌, some, none, List,
  [], ◌∷◌, ◌++◌, append_assoc, append-nil, length, get_last?, get_last?-append, drop_last-append,
  ltb, lt→ltb, ok, ◌>>=◌, bind_assoc, arith,
}
use fptl.Value.{DataValue, is_undefined, is_false}
use fptl.Frame.{Frame, sub_size}
use fptl.Form.{ControlValue, out_arity}
use fptl.Evaluator.{Context}
use fptl.Exec.Steps.{choose, pop_value, pop_values}
use fptl.Semantics.{any_undefined, holds}
use fptl.Correct.Run.{extend}

pop_value_lem :
    (v : DataValue) (base : List DataValue) (b : Bool)
    → pop_value b (base ++ v ∷ []) ≡ ok (b || is_undefined v, base)
unfolding pop_value
pop_value_lem v base b = rw (pop_value, get_last?-append base v [], drop_last-append base v)

or_regroup : (a b c : Bool) → a || c || b ≡ a || (b || c)
or_regroup true b c = refl
or_regroup false true true = refl
or_regroup false true false = refl
or_regroup false false true = refl
or_regroup false false false = refl

-- The loop, cut after its first rounds.
pop_values-add :
    (m n : ℕ) (b : Bool) (st : List DataValue)
    → pop_values (m + n) b st ≡ (pop_values m b st >>= λ r. pop_values n r.0 r.1)
unfolding pop_values
pop_values-add zero n b st = rw add.zero
pop_values-add (suc m) n b st =
    ap (λ k. pop_values k b st) (add.suc m n)
    ∙ (λ i. pop_value b st >>= λ r. pop_values-add m n r.0 r.1 i)
    ∙ sym (bind_assoc (pop_value b st) (λ r. pop_values m r.0 r.1) (λ r. pop_values n r.0 r.1))

-- All values of the tuple go, and an undefined one is noticed.
pub pop_values_lem :
    (ps base : List DataValue) (b : Bool)
    → pop_values (length ps) b (base ++ ps) ≡ ok (b || any_undefined ps, base)
unfolding pop_values any_undefined
pop_values_lem [] base b = ground (arith, append-nil base)
pop_values_lem (p ∷ ps) base b =
    let others = pop_values_lem ps (base ++ p ∷ []) b in
    ap (λ k. pop_values k b (base ++ p ∷ ps)) (sym (add-one (length ps)))
    ∙ pop_values-add (length ps) 1 b (base ++ p ∷ ps)
    ∙ ap (λ st. pop_values (length ps) b st >>= λ r. pop_values 1 r.0 r.1)
        (sym (append_assoc base (p ∷ []) ps))
    ∙ ap (λ r. r >>= λ s. pop_values 1 s.0 s.1) others
    ∙ ap (λ r. r >>= λ s. ok (s.0, s.1)) (pop_value_lem p base (b || any_undefined ps))
    ∙ ap (λ c. ok (c, base)) (or_regroup b (is_undefined p) (any_undefined ps))

num_args_lem : (a n : ℕ) → sub_size (a + n) a ≡ n
unfolding sub_size
num_args_lem a n = ground arith

decision_lem :
    (st ps : List DataValue)
    → not (
        ltb 0 (length ps)
        && (any_undefined ps || elim (get_last? (st ++ ps)) [ none ↦ false | some v ↦ is_false v ]))
      ≡ holds ps
unfolding holds
decision_lem st [] = refl
decision_lem st (p ∷ ps) = rw (get_last?-append st p ps, lt→ltb 0 (suc (length ps)) (omega arith))

-- `CondChoose` after a predicate's tuple `ps` decides as `holds ps`, and leaves the stack as it
-- was before the predicate.
pub choose_lem :
    (ctx : Context) (fr : Frame) (rest : List ControlValue) (ps : List DataValue)
    → choose (record ctx { frame = extend ps fr; control_stack = out_arity fr.arity ∷ rest })
      ≡ ok (holds ps, record ctx { frame = fr; control_stack = rest })
unfolding choose
choose_lem ctx fr rest ps =
    rw (num_args_lem fr.arity (length ps), pop_values_lem ps fr.stack false)
      (ap (λ b. ok (b, record ctx { frame = fr; control_stack = rest })) (decision_lem fr.stack ps))
