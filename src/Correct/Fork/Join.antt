-- ===== src/Correct/Fork/Join.antt =====
-- Source/Evaluator/EvaluatorUnit.cpp, Context.cpp: the join, from the moment when the left operand
-- is done. The task on top of the unit's queue is the one that is waited for.
use fptl.Prelude.{
  ℕ, suc, ◌<◌, ◌≡◌, refl, ap, Bool, true, false, some, List, ◌∷◌, ◌++◌, length, length-append,
  get_elem?-set_self, drop-append, take-length, Error, Result, ok, err, ◌>>=◌, arith,
}
use fptl.Value.{DataValue}
use fptl.Frame.{sub_size}
use fptl.Frame.Args.{push_all_lem}
use fptl.Evaluator.{Context, Evaluator, load, store, release, copy_range}
use fptl.Exec.{exec, join, wait, schedule, run, prepare_join, State}
use fptl.Exec.Steps.{Functions, push_results, pop_task, erase_pending}
use fptl.Correct.Settles.{Settles, Settles-suc, Settles-const, Settles-bind, Settles-err}
use fptl.Correct.Tuples.{copy_range_lem}
use fptl.Correct.Run.{Ends, extend}

-- A unit `v` that waits for the task `task` at `a`, its newest job.
pub record Awaits (a : ℕ) (task : Context) (u v : Evaluator) : Type 0 where
  pub pending : v.pending ≡ a ∷ u.pending
  pub jobs : v.jobs ≡ a ∷ u.jobs
  pub running : v.running ≡ u.running
  pub found : load a v ≡ ok task
  pub not_ready : task.ready ≡ false
  pub not_proactive : task.proactive ≡ false

-- The unit while it runs the task.
abbrev pub running_unit : ℕ → Evaluator → Evaluator → Evaluator
running_unit a u v = record v { jobs = u.jobs; running = a ∷ v.running }

-- The unit when the task has ended with context `d` on unit `y`.
abbrev pub done_unit : ℕ → Context → Evaluator → Evaluator
done_unit a d y = store a (record d { ready = true }) (pop_task y)

-- What `join` does when the task is ready.
take_results : ℕ → Context → Evaluator → Result State
take_results a c w = do
  joined ← load a w
  elim joined.canceled [
    | true ↦ ok (c, record w { pending = erase_pending 1 w.pending })
    | false ↦ do
      c' ← push_results joined c
      ok (c', release a (record w { pending = erase_pending 1 w.pending }))
  ]

module _ (funs : Functions) (a : ℕ) (task : Context) (u v : Evaluator)
    (aw : Awaits a task u v) where
  run_step :
      (g : ℕ)
      → run funs (suc g) a (record v { jobs = u.jobs })
        ≡ (exec funs g task.body task (running_unit a u v) >>= λ s. ok (done_unit a s.0 s.1))
  unfolding exec load
  run_step g = rw aw.found

  run_lem :
      (d : Context) (y : Evaluator)
      → Ends funs task.body task (running_unit a u v) (ok (d, y))
      → Settles (λ g. run funs g a (record v { jobs = u.jobs })) (ok (done_unit a d y))
  run_lem d y e = Settles-suc run_step (
      Settles-bind (λ g. exec funs g task.body task (running_unit a u v))
        (λ s g. ok (done_unit a s.0 s.1)) e (Settles-const (λ g. refl)))

  run_err :
      (x : Error)
      → Ends funs task.body task (running_unit a u v) (err x)
      → Settles (λ g. run funs g a (record v { jobs = u.jobs })) (err x)
  run_err x e = Settles-suc run_step (
      Settles-err (λ g. exec funs g task.body task (running_unit a u v))
        (λ s g. ok (done_unit a s.0 s.1)) e)

  schedule_lem :
      (r : Result Evaluator)
      → Settles (λ g. run funs g a (record v { jobs = u.jobs })) r
      → Settles (λ g. schedule funs g v) r
  unfolding exec
  schedule_lem r = Settles-suc (λ g. rw aw.jobs)

  wait_step : (g : ℕ) → wait funs (suc g) a v ≡ (schedule funs g v >>= λ w. wait funs g a w)
  unfolding exec
  wait_step g = rw (aw.found, aw.not_ready)

  prepare_join_lem : (g : ℕ) (c : Context) → prepare_join g c a v ≡ ok v
  unfolding prepare_join
  prepare_join_lem g c = rw (aw.found, aw.not_proactive)

  join_step :
      (g : ℕ) (c : Context) → join funs (suc g) c v ≡ (wait funs g a v >>= λ w. take_results a c w)
  unfolding exec take_results
  join_step g c = simp aw.pending (rw (prepare_join_lem g c))

  -- The task fails.
  pub join_err :
      (c : Context) (x : Error)
      → Ends funs task.body task (running_unit a u v) (err x)
      → Settles (λ g. join funs g c v) (err x)
  join_err c x e =
      Settles-suc (λ g. join_step g c)
        (Settles-err (λ g. wait funs g a v) (λ w g. take_results a c w)
          (Settles-suc wait_step (
            Settles-err (λ g. schedule funs g v) (λ w g. wait funs g a w)
              (schedule_lem (err x) (run_err x e)))))

results_pos : (ws bs : List DataValue) → sub_size (length (ws ++ bs)) (length bs) ≡ length ws
unfolding sub_size
results_pos ws bs = ground (arith, length-append ws bs)

copy_results :
    (ws bs : List DataValue)
    → copy_range (length bs) (sub_size (length (ws ++ bs)) (length bs)) (ws ++ bs) ≡ ok bs
copy_results ws bs = rw (
  results_pos ws bs,
  copy_range_lem (length bs) (length ws) (ws ++ bs) (omega (arith, length-append ws bs)),
  drop-append ws bs,
  take-length bs,
)

load_done :
    (a : ℕ) (d : Context) (y : Evaluator)
    → a < length y.tasks
    → load a (done_unit a d y) ≡ ok (record d { ready = true })
unfolding load store pop_task
load_done a d y h = rw (load, get_elem?-set_self y.tasks a (some (record d { ready = true })) h)

-- The results of a task, which started with its arguments alone on its stack.
push_results_lem :
    (d c : Context) (ws bs : List DataValue)
    → d.frame.stack ≡ ws ++ bs
    → d.frame.arity ≡ length bs
    → push_results d c ≡ ok (record c { frame = extend bs c.frame })
unfolding push_results
push_results_lem d c ws bs es ea = rw (es, ea, copy_results ws bs, push_all_lem bs c.frame)

-- The unit behind the join.
abbrev pub joined_unit : ℕ → Context → Evaluator → Evaluator
joined_unit a d y =
    let w = done_unit a d y in release a (record w { pending = erase_pending 1 w.pending })

take_results_lem :
    (a : ℕ) (d c : Context) (y : Evaluator) (ws bs : List DataValue)
    → a < length y.tasks
    → d.canceled ≡ false
    → d.frame.stack ≡ ws ++ bs
    → d.frame.arity ≡ length bs
    → take_results a c (done_unit a d y)
      ≡ ok (record c { frame = extend bs c.frame }, joined_unit a d y)
unfolding take_results push_results release
take_results_lem a d c y ws bs h nc es ea =
    rw (load_done a d y h)
      (simp nc (rw (push_results_lem (record d { ready = true }) c ws bs es ea)))

module _ (funs : Functions) (a : ℕ) (task : Context) (u v : Evaluator)
    (aw : Awaits a task u v) where
  wait_lem :
      (d : Context) (y : Evaluator)
      → a < length y.tasks
      → Ends funs task.body task (running_unit a u v) (ok (d, y))
      → Settles (λ g. wait funs g a v) (ok (done_unit a d y))
  unfolding exec
  wait_lem d y h e = Settles-suc (wait_step funs a task u v aw) (
      Settles-bind (λ g. schedule funs g v) (λ w g. wait funs g a w)
        (schedule_lem funs a task u v aw (ok (done_unit a d y)) (run_lem funs a task u v aw d y e))
        (Settles-suc (λ g. ap (λ m. m >>= λ t. ready_or g t.ready) (load_done a d y h))
          (Settles-const (λ g. refl))))
    where
      ready_or : ℕ → Bool → Result Evaluator
      ready_or g b = elim b [
        | true ↦ ok (done_unit a d y)
        | false ↦ schedule funs g (done_unit a d y) >>= λ w. wait funs g a w
      ]

  -- The task succeeds: its results are pushed, and it leaves the unit.
  pub join_lem :
      (c d : Context) (y : Evaluator) (ws bs : List DataValue)
      → a < length y.tasks
      → d.canceled ≡ false
      → d.frame.stack ≡ ws ++ bs
      → d.frame.arity ≡ length bs
      → Ends funs task.body task (running_unit a u v) (ok (d, y))
      → Settles
          (λ g. join funs g c v)
          (ok (record c { frame = extend bs c.frame }, joined_unit a d y))
  join_lem c d y ws bs h nc es ea e =
      Settles-suc (λ g. join_step funs a task u v aw g c)
        (Settles-bind (λ g. wait funs g a v) (λ w g. take_results a c w) (wait_lem d y h e)
          (Settles-const (λ g. take_results_lem a d c y ws bs h nc es ea)))
