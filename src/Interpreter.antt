-- ===== src/Interpreter.antt =====
-- Source/Evaluator/Run.cpp (`SchemeEvaluator::run`), Source/Evaluator/EvaluatorUnit.cpp: a program
-- is the only job of an evaluator with one unit, whose turn of `schedule` runs it to its end.
use fptl.Prelude.{ℕ, false, some, List, [], ◌∷◌, drop, length, Result, ok, ◌>>=◌}
use fptl.Value.{DataValue}
use fptl.Frame.{Frame, sub_size}
use fptl.Form.{Form}
use fptl.Evaluator.{Evaluator, new_context, load}
use fptl.Exec.{schedule}
use fptl.Exec.Steps.{Functions}

-- The unit before its first turn, with the program's context at address 0.
unfoldable pub start : Form → Evaluator
unfolding new_context
start main = record {
  tasks = some (new_context 0 main) ∷ [];
  pending = [];
  running = [];
  jobs = 0 ∷ [];
  proactive_jobs = [];
  proactive_mode = false;
}

-- The values that the run has left as results on the context's stack.
unfoldable pub results : Frame → List DataValue
results fr = drop (sub_size (length fr.stack) fr.arity) fr.stack

unfoldable pub run_program : Functions → Form → ℕ → Result (List DataValue)
unfolding start
run_program funs main g = do
  u ← schedule funs g (start main)
  ctx ← load 0 u
  ok (results ctx.frame)
