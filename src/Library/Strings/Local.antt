-- ===== src/Library/Strings/Local.antt =====
-- Source/Libraries/StringLib.cpp: what the functions on texts do to the stack, as functions of the
-- argument tuple.
use fptl.Prelude.{sym, ◌∙◌, List, Result, ok, ◌>>=◌, bind_assoc}
use fptl.Value.{DataValue}
use fptl.Frame.{push, push_all}
use fptl.Frame.Args.{args}
use fptl.Semantics.{IsLocal}
use fptl.Ops.{Foreign}
use fptl.Library.Local.{
  arg_of, get_arg-args, PushesAll, Pushes, PushesAll-IsLocal, Pushes-IsLocal, unary-IsLocal,
}
use fptl.Library.Tables.{AllLocal}
use fptl.Library.Strings.{spread, ternary, string_functions}

abbrev spread_args :
    (DataValue → DataValue → Result (List DataValue)) → List DataValue → Result (List DataValue)
spread_args f vs = do lhs ← arg_of vs 0; rhs ← arg_of vs 1; f lhs rhs

abbrev ternary_args :
    (DataValue → DataValue → DataValue → Result DataValue) → List DataValue → Result DataValue
ternary_args f vs = do
  first ← arg_of vs 0
  second ← arg_of vs 1
  third ← arg_of vs 2
  f first second third

spread-PushesAll :
    (f : DataValue → DataValue → Result (List DataValue)) → PushesAll (spread f) (spread_args f)
unfolding spread
spread-PushesAll f fr h =
    (λ i. get_arg-args fr 0 h i >>= λ lhs.
    get_arg-args fr 1 h i >>= λ rhs. f lhs rhs >>= λ vs. ok (push_all vs fr))
    ∙ (λ i. arg_of (args fr) 0 >>= λ lhs.
        sym (bind_assoc (arg_of (args fr) 1) (f lhs) (λ vs. ok (push_all vs fr))) i)
    ∙ sym (
        bind_assoc (arg_of (args fr) 0) (λ lhs. arg_of (args fr) 1 >>= f lhs)
          (λ vs. ok (push_all vs fr)))

ternary-Pushes :
    (f : DataValue → DataValue → DataValue → Result DataValue) → Pushes (ternary f) (ternary_args f)
unfolding ternary
ternary-Pushes f fr h =
    (λ i. get_arg-args fr 0 h i >>= λ x.
    get_arg-args fr 1 h i >>= λ y. get_arg-args fr 2 h i >>= λ z. f x y z >>= λ v. ok (push v fr))
    ∙ (λ i. arg_of (args fr) 0 >>= λ x. arg_of (args fr) 1 >>= λ y.
        sym (bind_assoc (arg_of (args fr) 2) (f x y) (λ v. ok (push v fr))) i)
    ∙ (λ i. arg_of (args fr) 0 >>= λ x.
        sym
          (bind_assoc (arg_of (args fr) 1) (λ y. arg_of (args fr) 2 >>= f x y)
            (λ v. ok (push v fr)))
          i)
    ∙ sym (
        bind_assoc (arg_of (args fr) 0)
          (λ x. arg_of (args fr) 1 >>= λ y. arg_of (args fr) 2 >>= f x y) (λ v. ok (push v fr)))

spread-IsLocal : (f : DataValue → DataValue → Result (List DataValue)) → IsLocal (spread f)
spread-IsLocal f = PushesAll-IsLocal (spread f) (spread_args f) (spread-PushesAll f)

ternary-IsLocal : (f : DataValue → DataValue → DataValue → Result DataValue) → IsLocal (ternary f)
ternary-IsLocal f = Pushes-IsLocal (ternary f) (ternary_args f) (ternary-Pushes f)

pub string_functions-AllLocal : (cpp : Foreign) → AllLocal (string_functions cpp)
unfolding string_functions
string_functions-AllLocal cpp = (
  unary-IsLocal _,
  (spread-IsLocal _, (ternary-IsLocal _, (spread-IsLocal _, (spread-IsLocal _, tt)))),
)
