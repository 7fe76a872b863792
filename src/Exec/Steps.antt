-- ===== src/Exec/Steps.antt =====
-- Source/InternalForm/InternalForm.cpp: what each class does to the context before it goes on with
-- the next form.
use fptl.Prelude.{
  ℕ, zero, suc, ◌+◌, Bool, true, false, not, ◌&&◌, ◌||◌, Option, none, some, List, [], ◌∷◌, length,
  get_last?, drop_last, ltb, leb, ◌==◌, if◌then◌else◌, String, fault, located, Result, ok, err,
  timeout, rethrow, ◌>>=◌,
}
use fptl.Prelude.Int.{ℤ, pos, negsuc}
use fptl.Value.{DataValue, is_undefined, is_false}
use fptl.Frame.{Frame, push, push_all, get_arg, advance, unwind, sub_size}
use fptl.Scheme.{TFunction, Pos}
use fptl.Form.{Form, FormPtr, null, ref, return_to, out_arity, saved}
use fptl.Evaluator.{Context, Evaluator, copy_range, spawn, add_fork_job, load, store}

-- `SeqBegin`
unfoldable pub save_frame : Context → Context
save_frame ctx =
    let fr = ctx.frame in
    record ctx {
      control_stack = saved fr.arg_pos (length fr.stack) fr.arg_num fr.arity ∷ ctx.control_stack;
      frame = record fr { arity = 0 };
    }

-- `SeqEnd`
unfoldable pub fold_frame : Context → Result Context
fold_frame ctx = elim ctx.control_stack [
  | saved p size n a ∷ rest ↦ do
    fr ← unwind p a size ctx.frame
    ok (record ctx { frame = record fr { arg_num = n }; control_stack = rest })
  | _ ↦ err fault
]

-- `SeqAdvance`
unfoldable pub next_stage : Context → Context
next_stage ctx = record ctx { frame = advance ctx.frame }

-- `CondStart`
unfoldable pub save_arity : Context → Context
save_arity ctx = record ctx { control_stack = out_arity ctx.frame.arity ∷ ctx.control_stack }

unfoldable pub fork_branch : FormPtr → Context → Evaluator → Result (Context × Evaluator)
fork_branch null ctx u = ok (ctx, u)
fork_branch (ref f) ctx u = do
  (a, u₁) ← spawn ctx f u
  fork ← load a u₁
  add_fork_job a ctx (store a (record fork { new_proactive_level = true; proactive = true }) u₁)

unfoldable pub fork_branches :
    FormPtr → FormPtr → Context → Evaluator → Result (Context × Evaluator)
unfolding fork_branch
fork_branches t e ctx u = do (ctx₁, u₁) ← fork_branch t ctx u; fork_branch e ctx₁ u₁

-- `CondChoose`: the loop that takes the predicate's values off the stack, with `isUndefined`.
unfoldable pub pop_value : Bool → List DataValue → Result (Bool × List DataValue)
pop_value undef st = elim (get_last? st) [
  | none ↦ err fault
  | some v ↦ ok (undef || is_undefined v, drop_last st)
]

unfoldable pub pop_values : ℕ → Bool → List DataValue → Result (Bool × List DataValue)
unfolding pop_value
pop_values zero undef st = ok (undef, st)
pop_values (suc n) undef st = do r ← pop_value undef st; pop_values n r.0 r.1

-- Does the true branch run, and the context behind the predicate's values. `cond` refers to the last
-- value of the stack, which decides only where the predicate gave values.
unfoldable pub choose : Context → Result (Bool × Context)
choose ctx = elim ctx.control_stack [
  | out_arity a ∷ rest ↦ do
    let num_args = sub_size ctx.frame.arity a
    let is_cond_false : Bool = elim (get_last? ctx.frame.stack) [
      | none ↦ false
      | some v ↦ is_false v
    ]
    (undef, st) ← pop_values num_args false ctx.frame.stack
    ok (
      not (ltb 0 num_args && (undef || is_cond_false)),
      record ctx { control_stack = rest; frame = record (ctx.frame) { stack = st; arity = a } },
    )
  | _ ↦ err fault
]

-- `BasicFn::callFn`
unfoldable pub call_fn : String → Pos → TFunction → Context → Result Context
call_fn name p fn ctx = do
  fr ← rethrow (located p name) (fn ctx.frame)
  ok (record ctx { frame = fr })

-- `GetArg`: a position counted from 1, or from the end if it is negative.
unfoldable pub resolve : ℕ → ℤ → ℕ
resolve arg_num (pos n) = sub_size n 1
resolve arg_num (negsuc k) = sub_size arg_num (k + 1)

-- `for (size_t i = from; i <= to; ++i) aCtx.push(aCtx.getArg(i));`
unfoldable pub push_range : ℕ → ℕ → ℕ → Frame → Result Frame
push_range zero i to fr = timeout
push_range (suc f) i to fr = elim (leb i to) [
  | true ↦ do v ← get_arg fr i; push_range f (i + 1) to (push v fr)
  | false ↦ ok fr
]

-- The loop stops, or `getArg` throws, within one round more than there are arguments.
unfoldable pub try_get_args : ℤ → ℤ → Pos → Context → Result Context
try_get_args from to p ctx = do
  let n = ctx.frame.arg_num
  fr ← rethrow (located p "") (push_range (n + 2) (resolve n from) (resolve n to) ctx.frame)
  ok (record ctx { frame = fr })

-- `Constant`
unfoldable pub push_constant : DataValue → Context → Context
push_constant v ctx = record ctx { frame = push v ctx.frame }

-- `RecFn` and `Ret`
unfoldable pub push_return : Form → Context → Context
push_return k ctx = record ctx { control_stack = return_to k ∷ ctx.control_stack }

unfoldable pub pop_return : Context → Result (Form × Context)
pop_return ctx = elim ctx.control_stack [
  | return_to k ∷ rest ↦ ok (k, record ctx { control_stack = rest })
  | _ ↦ err fault
]

-- `GeneratorContext`'s map from schemes to their bodies, which `resolveRec` puts into `mFn`.
abbrev pub Functions : Type 0
Functions = List (ℕ × FormPtr)

unfoldable pub find_fun : Functions → ℕ → Option FormPtr
find_fun [] k = none
find_fun ((j, f) ∷ fs) k = if j == k then some f else find_fun fs k

unfoldable pub get_fun : Functions → ℕ → Result Form
unfolding find_fun
get_fun fs k = elim (find_fun fs k) [ some (ref f) ↦ ok f | _ ↦ err fault ]

-- The result tuple of a task that was joined.
unfoldable pub push_results : Context → Context → Result Context
push_results joined ctx = do
  let fr = joined.frame
  vs ← copy_range fr.arity (sub_size (length fr.stack) fr.arity) fr.stack
  ok (record ctx { frame = push_all vs ctx.frame })

-- `pendingTasks.erase(pendingTasks.end() - pos)`, the last task first.
unfoldable pub erase_pending : ℕ → List ℕ → List ℕ
erase_pending zero ts = ts
erase_pending (suc p) [] = []
erase_pending (suc zero) (t ∷ ts) = ts
erase_pending (suc (suc p)) (t ∷ ts) = t ∷ erase_pending (suc p) ts

unfoldable pub pop_task : Evaluator → Evaluator
pop_task u = record u { running = elim u.running [ [] ↦ [] | a ∷ rest ↦ rest ] }
