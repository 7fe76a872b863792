-- ===== src/Correct/Whole.antt =====
-- Source/Evaluator/Run.cpp with the code of Source/InternalForm/Generator.cpp: the run of a whole
-- program and the meaning of its main scheme.
use fptl.Prelude.{
  ℕ, suc, ◌+◌, ◌<◌, ◌≡◌, ◌≢◌, refl, ◌∙◌, ap, subst, false, true, some, List, [], ◌∷◌, length, drop,
  Result, ok, err, timeout, ◌>>=◌, bind_assoc, get_elem?-set_self, arith,
}
use fptl.Value.{DataValue}
use fptl.Frame.{sub_size}
use fptl.Scheme.{Node, Program}
use fptl.Form.{Form, end_op}
use fptl.Evaluator.{Context, Evaluator, new_context, new_frame, load, store}
use fptl.Exec.{exec, State}
use fptl.Exec.Steps.{Functions, pop_task}
use fptl.Interpreter.{start, results, run_program}
use fptl.Semantics.{eval}
use fptl.Generator.{span}
use fptl.Correct.Settles.{Settles, Settles-suc, Settles-const}
use fptl.Correct.Run.{IsActive, extend, Ends}
use fptl.Correct.Goal.{Behaves}
use fptl.Correct.Fork.Task.{load_lem}
use fptl.Correct.Simulation.{IsLinked, IsTable, simulate}

-- What is left to do when the program's code has ended.
finish : State → Result (List DataValue)
finish s = do
  ctx ← load 0 (store 0 (record s.0 { ready = true }) (pop_task s.1))
  ok (results ctx.frame)

first_ctx : Form → Context
first_ctx main = new_context 0 main

first_unit : Form → Evaluator
first_unit main = record (start main) { jobs = []; running = 0 ∷ [] }

module _ (funs : Functions) (main : Form) where
  program_step :
      (g : ℕ)
      → run_program funs main (suc (suc g))
        ≡ (exec funs g main (first_ctx main) (first_unit main) >>= finish)
  unfolding run_program exec start load new_context first_ctx first_unit finish
  program_step g =
      ap (λ m. m >>= λ u. load 0 u >>= λ ctx. ok (results ctx.frame)) refl
      ∙ bind_assoc (exec funs g main (new_context 0 main) (first_unit main))
          (λ s. ok (store 0 (record s.0 { ready = true }) (pop_task s.1))) _

  program-Ends :
      (r : Result State) (x : Result (List DataValue))
      → Ends funs main (first_ctx main) (first_unit main) r
      → (r >>= finish) ≡ x
      → Settles (run_program funs main) x
  program-Ends r x e q = record {
    fuel = suc (suc e.fuel);
    settled = λ g.
        ap (run_program funs main) (fuel_eq g)
        ∙ program_step (e.fuel + g)
        ∙ ap (λ m. m >>= finish) (e.settled g)
        ∙ q;
  }
    where
      fuel_eq : (g : ℕ) → suc (suc e.fuel) + g ≡ suc (suc (e.fuel + g))
      fuel_eq g = omega arith

results_lem : (vs : List DataValue) → results (extend vs (new_frame [])) ≡ vs
unfolding results new_frame sub_size
results_lem vs =
    let none_below : sub_size (length vs) (0 + length vs) ≡ 0 = ground arith in
    ap (λ n. drop n vs) none_below

finish_lem :
    (c : Context) (y : Evaluator) (vs : List DataValue)
    → 0 < length y.tasks
    → c.frame ≡ extend vs (new_frame [])
    → finish (c, y) ≡ ok vs
unfolding finish load store pop_task
finish_lem c y vs h e =
    ap (λ m. m >>= λ d. ok (results d.frame))
      (load_lem 0 (record c { ready = true }) (store 0 (record c { ready = true }) (pop_task y))
        (get_elem?-set_self y.tasks 0 (some (record c { ready = true })) h))
    ∙ ap (λ fr. ok (results fr)) e
    ∙ ap ok (results_lem vs)

end_op-Ends : (funs : Functions) (c : Context) (y : Evaluator) → Ends funs end_op c y (ok (c, y))
unfolding exec
end_op-Ends funs c y = Settles-suc (λ g. refl) (Settles-const (λ g. refl))

first-IsActive : (main : Form) → IsActive (first_ctx main)
unfolding first_ctx new_context new_frame
first-IsActive main = record { placed = omega arith; not_canceled = refl; not_proactive = refl }

module _ (funs : Functions) (main : Form) where
  program_result :
      (r : Result (List DataValue))
      → r ≢ timeout
      → Behaves funs false r (first_ctx main) (first_unit main) main end_op
      → Settles (run_program funs main) r
  unfolding first_ctx new_context first_unit start
  program_result (ok vs) h b =
      program-Ends funs main (ok (b.end_ctx, b.end_unit)) (ok vs)
        (b.continues _ (end_op-Ends funs b.end_ctx b.end_unit))
        (finish_lem b.end_ctx b.end_unit vs b.same_unit.grown b.leaves)
  program_result (err x) h b = program-Ends funs main (err x) (err x) b refl
  program_result timeout h b = absurd (h refl)

-- A program whose functions are local and whose table of functions holds the code of its schemes,
-- run on one unit without proactive tasks: when its main node means a tuple, then with enough fuel
-- the run ends with that tuple as results, and when it means an exception, the run ends with that
-- exception.
pub run_program_lem :
    (prog : Program) (funs : Functions) (table : IsTable prog funs) (f : ℕ) (n : Node)
    (r : Result (List DataValue))
    → IsLinked funs n
    → eval prog f n [] ≡ r
    → r ≢ timeout
    → Settles (run_program funs (span prog false false n end_op)) r
unfolding first_ctx new_context new_frame
run_program_lem prog funs table f n r linked e h =
    let main = span prog false false n end_op in
    program_result funs main r h (
      subst (λ x. Behaves funs false x (first_ctx main) (first_unit main) main end_op) e
        (simulate prog funs table f false n linked end_op (first_ctx main) (first_unit main)
          (first-IsActive main) tt))
