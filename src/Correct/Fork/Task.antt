-- ===== src/Correct/Fork/Task.antt =====
-- Source/InternalForm/InternalForm.cpp (`ParFork`, `ParJoin`), Source/Evaluator/Context.cpp
-- (`spawn`, `join`, `run`), Source/Evaluator/EvaluatorUnit.cpp (`addForkJob`, `join`, `schedule`):
-- a fork and the task that it creates.
use fptl.Prelude.{ℕ, ◌≡◌, some, [], ◌∷◌, length, get_elem?, get_elem?-append, ok}
use fptl.Frame.Args.{args}
use fptl.Form.{Form}
use fptl.Evaluator.{
  Context, Evaluator, load, allocate, spawn, add_fork_job, insert_child, new_context,
}
use fptl.Correct.Tuples.{copy_range_lem}
use fptl.Correct.Run.{IsActive}

pub load_lem :
    (a : ℕ) (c : Context) (u : Evaluator) → get_elem? u.tasks a ≡ some (some c) → load a u ≡ ok c
unfolding load
load_lem a c u e = rw (load, e)

-- The task that a fork creates.
unfoldable pub fork_task : Context → Form → Evaluator → Context
unfolding new_context
fork_task ctx r u = record (new_context (length u.tasks) r) {
  parent = some ctx.address;
  proactive = ctx.proactive;
  frame = record { stack = args ctx.frame; arg_pos = 0; arity = 0; arg_num = ctx.frame.arg_num };
}

-- The unit and the context behind a fork.
unfoldable pub forked_unit : Context → Form → Evaluator → Evaluator
unfolding allocate
forked_unit ctx r u =
    let v = allocate (fork_task ctx r u) u in
    record v { pending = length u.tasks ∷ u.pending; jobs = length u.tasks ∷ u.jobs }

unfoldable pub forked_ctx : Context → Evaluator → Context
forked_ctx ctx u = record ctx { childs = insert_child (length u.tasks) ctx.childs }

pub spawn_lem :
    (ctx : Context) (r : Form) (u : Evaluator)
    → IsActive ctx
    → spawn ctx r u ≡ ok (length u.tasks, allocate (fork_task ctx r u) u)
unfolding spawn fork_task
spawn_lem ctx r u act = rw (
  act.not_canceled,
  copy_range_lem ctx.frame.arg_num ctx.frame.arg_pos ctx.frame.stack act.placed,
)

pub add_fork_job_lem :
    (ctx : Context) (r : Form) (u : Evaluator)
    → IsActive ctx
    → add_fork_job (length u.tasks) ctx (allocate (fork_task ctx r u) u)
      ≡ ok (forked_ctx ctx u, forked_unit ctx r u)
unfolding add_fork_job fork_task forked_ctx forked_unit allocate
add_fork_job_lem ctx r u act = rw (
  load_lem (length u.tasks) (fork_task ctx r u) (allocate (fork_task ctx r u) u)
      (get_elem?-append u.tasks [] (some (fork_task ctx r u))),
  act.not_canceled,
  act.not_proactive,
)
