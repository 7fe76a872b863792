-- ===== src/Correct/Tests.antt =====
-- A small program, with its code as Source/InternalForm/Generator.cpp makes it and the table of its
-- functions, run as in Source/InternalForm/InternalForm.cpp.
use fptl.Prelude.{
  ℕ, subst, none, get_elem?, ◌≡◌, refl, sym, ap, true, false, some, List, [], ◌∷◌, drop-append, ok,
  ◌>>=◌, arith,
}
use fptl.Prelude.Int.{pos, negsuc}
use fptl.Value.{DataValue, boolean, int, undefined, is_undefined, is_false}
use fptl.Frame.{sub_size, push, push_all}
use fptl.Frame.Args.{args}
use fptl.Scheme.{
  FScheme, Node, function, parallel, sequential, condition, scheme, take_node, constant,
  string_constant, Program, push_undefined,
}
use fptl.Form.{Form, out_arity, ref, ret, end_op}
use fptl.Evaluator.{Context, Evaluator, new_context, new_frame}
use fptl.Exec.Steps.{Functions, find_fun, choose, push_range, resolve}
use fptl.Interpreter.{run_program, start}
use fptl.Semantics.{eval, apply, select, holds, any_undefined, IsLocal}
use fptl.Generator.{span, generate}
use fptl.Correct.Settles.{Settles}
use fptl.Correct.Run.{IsActive, extend}
use fptl.Correct.Goal.{Behaves}
use fptl.Correct.Tuples.{push_range_lem}
use fptl.Correct.Predicate.{choose_lem}
use fptl.Correct.Simulation.{IsLinked, IsTable, simulate}
use fptl.Correct.Table.{IsClosed, IsSound}
use fptl.Correct.Measure.{IsCalling, IsProgram}
use fptl.Correct.Generate.{HasLocals, IsComplete, generate_lem, generate-run_program}

push_undefined-IsLocal : IsLocal push_undefined
unfolding push_undefined apply push push_all new_frame
push_undefined-IsLocal fr h =
    ap (λ vs. ok (push_all vs fr)) (sym (drop-append (args fr) (undefined ∷ [])))

-- `F = [1] -> 7, undefined`
abbrev body_node : Node
body_node =
    condition true (take_node (pos 1) (negsuc 0) (1, 1)) (constant (int (pos 7)) (1, 2))
      (function push_undefined false "" (0, 0))

abbrev main_node : Node
main_node =
    sequential true
      (parallel false (constant (int (pos 1)) (2, 1)) (string_constant (3 ∷ []) (2, 2)))
      (parallel true (scheme 0)
        (sequential true (function push_undefined false "" (2, 3)) (scheme 0)))

abbrev sample : Program
sample = record { first_node = body_node; name = "F"; long = true } ∷ []

abbrev table : Functions
table = (0, ref (span sample false false body_node ret)) ∷ []

sample-IsTable : IsTable sample table
unfolding find_fun
sample-IsTable ℕ.zero body found = (
  record { first_node = body_node; name = "F"; long = true },
  refl,
  ap (λ o. elim o [ some (ref b) ↦ b | _ ↦ ret ]) (sym found),
  (tt, tt, push_undefined-IsLocal),
)
sample-IsTable (ℕ.suc k) body found = absurd (ground arith)

main-IsLinked : IsLinked table main_node
unfolding find_fun
main-IsLinked = (
  (tt, tt),
  (
    (span sample false false body_node ret, refl),
    (push_undefined-IsLocal, (span sample false false body_node ret, refl)),
  ),
)

eval_main : eval sample 2 main_node [] ≡ ok (int (pos 7) ∷ undefined ∷ [])
unfolding eval select holds any_undefined is_undefined is_false apply push_undefined push new_frame
    resolve sub_size
eval_main = refl

sample-IsProgram : IsProgram sample
sample-IsProgram ℕ.zero s e =
    subst (IsCalling sample) (ap (λ o. elim o [ none ↦ body_node | some x ↦ x.first_node ]) e)
      (tt, tt, tt)
sample-IsProgram (ℕ.suc k) s e = absurd (ground arith)

sample-HasLocals : (k : ℕ) (s : FScheme) → get_elem? sample k ≡ some s → HasLocals s.first_node
sample-HasLocals ℕ.zero s e =
    subst HasLocals (ap (λ o. elim o [ none ↦ body_node | some x ↦ x.first_node ]) e)
      (tt, tt, push_undefined-IsLocal)
sample-HasLocals (ℕ.suc k) s e = absurd (ground arith)

main-IsCalling : IsCalling sample main_node
main-IsCalling = ((tt, tt), (omega arith, (tt, omega arith)))

generate_lem_example :
    (form : Form) × (funs : Functions) × (generate sample true main_node ≡ ok (form, funs))
    × (form ≡ span sample true false main_node end_op)
    × IsClosed funs main_node
    × IsSound sample true funs
    × IsComplete funs
generate_lem_example = generate_lem sample true main_node sample-IsProgram main-IsCalling

generate-run_program_example :
    (form : Form) × (funs : Functions) × (generate sample false main_node ≡ ok (form, funs))
    × Settles (run_program funs form) (ok (int (pos 7) ∷ undefined ∷ []))
generate-run_program_example =
    generate-run_program sample 2 main_node (ok (int (pos 7) ∷ undefined ∷ [])) sample-IsProgram
      main-IsCalling sample-HasLocals ((tt, tt), (tt, (push_undefined-IsLocal, tt))) eval_main
      (ground arith)

-- A context that holds the tuple `(5, 6)`, and the idle unit.
abbrev ctx : Context
ctx = record (new_context 0 end_op) { frame = new_frame (int (pos 5) ∷ int (pos 6) ∷ []) }

abbrev idle : Evaluator
idle = record (start end_op) { jobs = [] }

ctx-IsActive : IsActive ctx
unfolding new_context new_frame
ctx-IsActive = record { placed = omega arith; not_canceled = refl; not_proactive = refl }

simulate_example :
    Behaves table false
      (eval sample 3 main_node (args ctx.frame))
      ctx
      idle
      (span sample false false main_node end_op)
      end_op
simulate_example =
    simulate sample table sample-IsTable 3 false main_node main-IsLinked end_op ctx idle
      ctx-IsActive tt

push_range_lem_example :
    push_range 4 0 1 ctx.frame ≡ (select 0 1 (args ctx.frame) >>= λ vs. ok (push_all vs ctx.frame))
unfolding new_frame
push_range_lem_example = push_range_lem 4 0 1 ctx.frame (omega arith) (omega arith) (omega arith)

abbrev predicate : List DataValue
predicate = int (pos 5) ∷ boolean (pos 0) ∷ []

choose_lem_example :
    choose (record ctx {
      frame = extend predicate ctx.frame;
      control_stack = out_arity ctx.frame.arity ∷ [];
    })
    ≡ ok (holds predicate, record ctx { frame = ctx.frame; control_stack = [] })
choose_lem_example = choose_lem ctx ctx.frame [] predicate
