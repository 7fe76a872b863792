-- ===== src/Exec/Tests.antt =====
-- A join of Source/Evaluator/EvaluatorUnit.cpp on a unit with one proactive task.
use fptl.Prelude.{◌≡◌, refl, true, false, some, [], ◌∷◌, ok, arith}
use fptl.Form.{end_op}
use fptl.Evaluator.{Context, Evaluator, new_context, load, store}
use fptl.Exec.{prepare_join}
use fptl.Exec.Order.{prepare_join_lem}

abbrev parent_ctx : Context
parent_ctx = new_context 0 end_op

abbrev child : Context
child = record (new_context 1 end_op) {
  parent = some 0;
  proactive = true;
  new_proactive_level = true;
}

abbrev unit_state : Evaluator
unit_state = record {
  tasks = some parent_ctx ∷ some child ∷ [];
  pending = 1 ∷ [];
  running = 0 ∷ [];
  jobs = [];
  proactive_jobs = 1 ∷ [];
  proactive_mode = true;
}

prepare_join_lem_example :
    prepare_join 4 parent_ctx 1 unit_state
    ≡ ok (store 1 (record child { new_proactive_level = false }) unit_state)
unfolding load new_context
prepare_join_lem_example =
    prepare_join_lem 3 parent_ctx child 1 unit_state (omega arith) refl refl refl
