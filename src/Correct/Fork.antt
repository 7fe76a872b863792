-- ===== src/Correct/Fork.antt =====
-- Source/InternalForm/InternalForm.cpp (`ParFork`, `ParJoin`), Source/Evaluator/Context.cpp
-- (`spawn`, `join`, `run`), Source/Evaluator/EvaluatorUnit.cpp (`addForkJob`, `join`, `schedule`):
-- a fork, its task, and the join that takes the task's results.
pub mod Task
pub mod Join
use Prim.Native.Nat.add
use fptl.Correct.Compose.{extend-extend}
use fptl.Prelude.{
  ℕ, zero, suc, ◌+◌, ◌-◌, ◌≤◌, ◌<◌, ◌≡◌, refl, sym, ◌∙◌, ap, Bool, true, false, some, none, List,
  [], ◌∷◌, ◌++◌, length, length-append, length-set, get_elem?, get_elem?-append,
  get_elem?-append_lt, get_elem?-set_self, get_elem?-set_ne, set, take, drop, drop-append,
  take-length, Error, Result, ok, err, timeout, ◌>>=◌, arith,
}
use fptl.Value.{DataValue}
use fptl.Frame.{Frame, push_all, sub_size}
use fptl.Frame.Args.{args, IsPlaced, push_all_lem, length-args}
use fptl.Form.{Form, par_fork, par_join, end_op}
use fptl.Evaluator.{
  Context, Evaluator, load, store, allocate, release, spawn, add_fork_job, insert_child, copy_range,
  new_context,
}
use fptl.Exec.{exec, join, wait, schedule, run, prepare_join, State}
use fptl.Exec.Steps.{Functions, push_results, pop_task, erase_pending}
use fptl.Correct.Settles.{Settles, Settles-suc, Settles-const, Settles-bind, Settles-err}
use fptl.Correct.Tuples.{copy_range_lem}
use fptl.Correct.Run.{
  Ends, Run, extend, IsActive, SameContext, SameContext-trans, SameUnit, SameUnit-trans,
  IsActive-extend, args-extend,
}
use fptl.Correct.Goal.{Behaves}
use Task.{fork_task, forked_unit, forked_ctx, spawn_lem, add_fork_job_lem, load_lem}
use Join.{Awaits, running_unit, done_unit, joined_unit, join_lem, join_err}

module _ (funs : Functions) (ctx : Context) (u : Evaluator) (act : IsActive ctx)
    (l r tail : Form) where
  fork_step :
      (g : ℕ)
      → exec funs (suc g) (par_fork l r) ctx u
        ≡ exec funs g l (forked_ctx ctx u) (forked_unit ctx r u)
  unfolding exec
  fork_step g = rw (spawn_lem ctx r u act, add_fork_job_lem ctx r u act)

  forked-IsActive : IsActive (forked_ctx ctx u)
  unfolding forked_ctx
  forked-IsActive = record {
    placed = act.placed;
    not_canceled = act.not_canceled;
    not_proactive = act.not_proactive;
  }

  task-IsActive : IsActive (fork_task ctx r u)
  unfolding fork_task
  task-IsActive = record {
    placed = omega (arith, length-args ctx.frame act.placed);
    not_canceled = refl;
    not_proactive = act.not_proactive;
  }

  args-task : args (fork_task ctx r u).frame ≡ args ctx.frame
  unfolding fork_task
  args-task =
      ap (λ n. take n (args ctx.frame)) (sym (length-args ctx.frame act.placed))
      ∙ take-length (args ctx.frame)

  task_awaited :
      (v : Evaluator)
      → SameUnit (forked_unit ctx r u) v
      → Awaits (length u.tasks) (fork_task ctx r u) u v
  unfolding forked_unit fork_task
  task_awaited v same = record {
    pending = same.pending;
    jobs = same.jobs;
    running = same.running;
    found = load_lem (length u.tasks) (fork_task ctx r u) v (
        same.tasks (length u.tasks)
          (omega (arith, length-append u.tasks (some (fork_task ctx r u) ∷ [])))
        ∙ get_elem?-append u.tasks [] (some (fork_task ctx r u)));
    not_ready = refl;
    not_proactive = act.not_proactive;
  }

  -- The unit behind the join holds what it held before the fork.
  unit_after :
      (v y : Evaluator) (d : Context)
      → SameUnit (forked_unit ctx r u) v
      → SameUnit (running_unit (length u.tasks) u v) y
      → SameUnit u (joined_unit (length u.tasks) d y)
  unfolding forked_unit release store pop_task erase_pending
  unit_after v y d before during = record {
    pending = ap (erase_pending 1) (during.pending ∙ before.pending);
    running = ap (λ l. elim l [ [] ↦ [] | a ∷ rest ↦ rest ]) during.running ∙ before.running;
    jobs = during.jobs;
    grown = omega (
      arith,
      length-append u.tasks (some (fork_task ctx r u) ∷ []),
      length-set (set y.tasks (length u.tasks) (some (record d { ready = true }))) (length u.tasks)
          none,
      length-set y.tasks (length u.tasks) (some (record d { ready = true })),
    );
    tasks = λ i h.
        get_elem?-set_ne (set y.tasks (length u.tasks) (some (record d { ready = true })))
          (length u.tasks) i none h
        ∙ get_elem?-set_ne y.tasks (length u.tasks) i (some (record d { ready = true })) h
        ∙ during.tasks i
            (omega (arith, length-append u.tasks (some (fork_task ctx r u) ∷ []), before.grown))
        ∙ before.tasks i (omega (arith, length-append u.tasks (some (fork_task ctx r u) ∷ [])))
        ∙ get_elem?-append_lt u.tasks (some (fork_task ctx r u) ∷ []) i h;
  }

  task_inside :
      (v y : Evaluator)
      → SameUnit (forked_unit ctx r u) v
      → SameUnit (running_unit (length u.tasks) u v) y
      → length u.tasks < length y.tasks
  unfolding forked_unit
  task_inside v y before during =
      omega
        (arith, length-append u.tasks (some (fork_task ctx r u) ∷ []), before.grown, during.grown)

  -- A task that has run to its `EndOp`.
  task-Ends :
      (v : Evaluator) (bs : List DataValue)
      (second : Run funs false bs (fork_task ctx r u) (running_unit (length u.tasks) u v) r end_op)
      → Ends funs r
          (fork_task ctx r u)
          (running_unit (length u.tasks) u v)
          (ok (second.end_ctx, second.end_unit))
  unfolding exec
  task-Ends v bs second = second.continues _ (Settles-suc (λ g. refl) (Settles-const (λ g. refl)))

  fork-Run :
      (xs bs : List DataValue)
      (first : Run funs false xs (forked_ctx ctx u) (forked_unit ctx r u) l (par_join tail))
      → Run funs false bs
          (fork_task ctx r u)
          (running_unit (length u.tasks) u first.end_unit)
          r
          end_op
      → Run funs false (xs ++ bs) ctx u (par_fork l r) tail
  unfolding exec fork_task forked_ctx
  fork-Run xs bs first second =
      let v = first.end_unit in
      let c = first.end_ctx in
      let d = second.end_ctx in
      let y = second.end_unit in
      let a = length u.tasks in
      record {
        end_ctx = record c { frame = extend bs c.frame };
        end_unit = joined_unit a d y;
        leaves = ap (extend bs) first.leaves ∙ extend-extend xs bs ctx.frame;
        same_ctx = record {
          control = first.same_ctx.control;
          canceled = first.same_ctx.canceled;
          proactive = first.same_ctx.proactive;
        };
        same_unit = unit_after v y d first.same_unit second.same_unit;
        continues = λ x q. Settles-suc fork_step (
            first.continues x (
              Settles-suc (λ g. refl)
                (Settles-bind (λ g. join funs g c v) (λ s g. exec funs g tail s.0 s.1)
                  (join_lem funs a (fork_task ctx r u) u v (task_awaited v first.same_unit) c d y
                    (args ctx.frame) bs (task_inside v y first.same_unit second.same_unit)
                    second.same_ctx.canceled (ap (λ fr. fr.stack) second.leaves)
                    (ap (λ fr. fr.arity) second.leaves ∙ add.zero (length bs))
                    (task-Ends v bs second))
                  q)));
      }

  joined_result :
      (xs : List DataValue) (rb : Result (List DataValue))
      (first : Run funs false xs (forked_ctx ctx u) (forked_unit ctx r u) l (par_join tail))
      → Behaves funs false rb
          (fork_task ctx r u)
          (running_unit (length u.tasks) u first.end_unit)
          r
          end_op
      → Behaves funs false (rb >>= λ bs. ok (xs ++ bs)) ctx u (par_fork l r) tail
  unfolding exec fork_task
  joined_result xs (ok bs) first second = fork-Run xs bs first second
  joined_result xs (err x) first second =
      let v = first.end_unit in
      Settles-suc fork_step (
        first.continues (err x) (
          Settles-suc (λ g. refl)
            (Settles-err (λ g. join funs g first.end_ctx v) (λ s g. exec funs g tail s.0 s.1)
              (join_err funs (length u.tasks) (fork_task ctx r u) u v
                (task_awaited v first.same_unit) first.end_ctx x second))))
  joined_result xs timeout first second = tt

  -- Two operands, the right one as a task of its own, which the join takes from the queue.
  pub Behaves-fork :
      (ra rb : Result (List DataValue))
      → (IsActive (forked_ctx ctx u)
          → Behaves funs false ra (forked_ctx ctx u) (forked_unit ctx r u) l (par_join tail))
      → ((v : Evaluator)
          → IsActive (fork_task ctx r u)
          → args (fork_task ctx r u).frame ≡ args ctx.frame
          → Behaves funs false rb (fork_task ctx r u) (running_unit (length u.tasks) u v) r end_op)
      → Behaves funs false (ra >>= λ xs. rb >>= λ bs. ok (xs ++ bs)) ctx u (par_fork l r) tail
  Behaves-fork (ok xs) rb first second =
      let done = first forked-IsActive in
      joined_result xs rb done (second done.end_unit task-IsActive args-task)
  Behaves-fork (err x) rb first second = Settles-suc fork_step (first forked-IsActive)
  Behaves-fork timeout rb first second = tt
