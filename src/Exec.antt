-- ===== src/Exec.antt =====
-- Source/InternalForm/InternalForm.cpp (`exec` of each class), Source/Evaluator/Context.cpp
-- (`join`, `run`), Source/Evaluator/EvaluatorUnit.cpp (`join`, `schedule`,
-- `cancelFromPendingEnd`): the execution of an internal form by one evaluator unit. The machine
-- need not stop, so it runs on fuel, which bounds the depth of the calls.
pub mod Steps
pub mod Order
mod Tests
use fptl.Prelude.{
  ℕ, zero, suc, ◌+◌, ◌-◌, ◌^◌, Bool, true, false, not, ◌&&◌, ◌||◌, Option, none, some, List, [],
  ◌∷◌, ◌++◌, length, get_elem?, ltb, leb, if◌then◌else◌, String, Error, fault, located, Result, ok,
  err, timeout, rethrow, ◌>>=◌,
}
use fptl.Prelude.Int.{ℤ}
use fptl.Value.{DataValue}
use fptl.Frame.{Frame, push, push_all, sub_size}
use fptl.Form.{
  Form, FormPtr, null, ref, par_fork, par_join, seq_begin, seq_end, seq_advance, cond_start,
  cond_choose, rec_fn, ret, basic_fn, get_args, load_constant, end_op,
}
use fptl.Evaluator.{
  Context, Evaluator, load, store, release, copy_range, spawn, add_fork_job, deref, cancel,
  move_to_main_order,
}
use Steps.{
  save_frame, fold_frame, next_stage, save_arity, fork_branches, choose, call_fn, try_get_args,
  push_constant, push_return, pop_return, get_fun, Functions, push_results, erase_pending, pop_task,
}

abbrev pub State : Type 0
State = Context × Evaluator

-- What `EvaluatorUnit::join` does before its loop.
unfoldable pub prepare_join : ℕ → Context → ℕ → Evaluator → Result Evaluator
prepare_join g ctx a u = do
  task ← load a u
  elim task.proactive [
    | false ↦ ok u
    | true ↦ do
      let lowered = store a (record task { new_proactive_level = false }) u
      parent ← deref ctx u task.parent
      elim parent.proactive [ true ↦ ok lowered | false ↦ move_to_main_order g ctx a lowered ]
  ]

module _ (funs : Functions) where
  unfoldable mutual
    pub exec : ℕ → Form → Context → Evaluator → Result State
    exec zero form ctx u = timeout
    exec (suc g) (par_fork l r) ctx u = do
      (a, u₁) ← spawn ctx r u
      (ctx₁, u₂) ← add_fork_job a ctx u₁
      exec g l ctx₁ u₂
    exec (suc g) (par_join k) ctx u = do (ctx₁, u₁) ← join g ctx u; exec g k ctx₁ u₁
    exec (suc g) (seq_begin k) ctx u = exec g k (save_frame ctx) u
    exec (suc g) (seq_end k) ctx u = do ctx₁ ← fold_frame ctx; exec g k ctx₁ u
    exec (suc g) (seq_advance k) ctx u = exec g k (next_stage ctx) u
    exec (suc g) (cond_start c t e) ctx u = do
      (ctx₁, u₁) ← fork_branches t e (save_arity ctx) u
      exec g c ctx₁ u₁
    exec (suc g) (cond_choose t e k) ctx u = do
      (holds, ctx₁) ← choose ctx
      elim holds [
        | false ↦ do
          u₁ ← (elim t [
            | null ↦ cancel_from_pending_end g (elim e [ null ↦ 2 | ref _ ↦ 1 ]) ctx₁ u
            | ref _ ↦ ok u
          ])
          elim e [
            | ref f ↦ exec g f ctx₁ u₁
            | null ↦ do (ctx₂, u₂) ← join g ctx₁ u₁; exec g k ctx₂ u₂
          ]
        | true ↦ do
          u₁ ← (elim e [ null ↦ cancel_from_pending_end g 1 ctx₁ u | ref _ ↦ ok u ])
          elim t [
            | ref f ↦ exec g f ctx₁ u₁
            | null ↦ do (ctx₂, u₂) ← join g ctx₁ u₁; exec g k ctx₂ u₂
          ]
      ]
    exec (suc g) (rec_fn f k name) ctx u = do
      body ← get_fun funs f
      exec g body (push_return k ctx) u
    exec (suc g) ret ctx u = do (k, ctx₁) ← pop_return ctx; exec g k ctx₁ u
    exec (suc g) (basic_fn k name p fn) ctx u = do ctx₁ ← call_fn name p fn ctx; exec g k ctx₁ u
    exec (suc g) (get_args k from to p) ctx u = do
      ctx₁ ← try_get_args from to p ctx
      exec g k ctx₁ u
    exec (suc g) (load_constant k v) ctx u = exec g k (push_constant v ctx) u
    exec (suc g) end_op ctx u = ok (ctx, u)

    -- `SExecutionContext::join` with `EvaluatorUnit::join` in it.
    pub join : ℕ → Context → Evaluator → Result State
    join zero ctx u = timeout
    join (suc g) ctx u = elim u.pending [
      | [] ↦ ok (ctx, u)
      | a ∷ rest ↦ do
        u₁ ← prepare_join g ctx a u
        u₂ ← wait g a u₁
        joined ← load a u₂
        elim joined.canceled [
          | true ↦ ok (ctx, record u₂ { pending = erase_pending 1 u₂.pending })
          | false ↦ do
            ctx₁ ← push_results joined ctx
            ok (ctx₁, release a (record u₂ { pending = erase_pending 1 u₂.pending }))
        ]
    ]

    -- `while (!task->Ready) schedule();`
    pub wait : ℕ → ℕ → Evaluator → Result Evaluator
    wait zero a u = timeout
    wait (suc g) a u = do
      task ← load a u
      elim task.ready [ true ↦ ok u | false ↦ do u₁ ← schedule g u; wait g a u₁ ]

    -- `schedule`. There is no other unit to steal from; a proactive task that was canceled or
    -- moved is dropped.
    pub schedule : ℕ → Evaluator → Result Evaluator
    schedule zero u = timeout
    schedule (suc g) u = elim u.jobs [
      | a ∷ rest ↦ run g a (record u { jobs = rest })
      | [] ↦ elim u.proactive_mode [
        | false ↦ ok u
        | true ↦ elim u.proactive_jobs [
          | [] ↦ ok u
          | a ∷ rest ↦ do
            let popped = record u { proactive_jobs = rest }
            task ← load a popped
            elim (not task.canceled && task.proactive) [
              | true ↦ run g a (store a (record task { working = true }) popped)
              | false ↦ ok popped
            ]
        ]
      ]
    ]

    -- `IFExecutionContext::run`
    pub run : ℕ → ℕ → Evaluator → Result Evaluator
    run zero a u = timeout
    run (suc g) a u = do
      ctx ← load a u
      (ctx₁, u₁) ← exec g ctx.body ctx (record u { running = a ∷ u.running })
      ok (store a (record ctx₁ { ready = true }) (pop_task u₁))

    pub cancel_from_pending_end : ℕ → ℕ → Context → Evaluator → Result Evaluator
    cancel_from_pending_end zero p ctx u = timeout
    cancel_from_pending_end (suc g) p ctx u = elim (get_elem? u.pending (p - 1)) [
      | none ↦ ok u
      | some a ↦ do
        task ← load a u
        u₁ ← (elim task.canceled [ true ↦ ok u | false ↦ cancel g a u ])
        u₂ ← wait g a u₁
        ok (record u₂ { pending = erase_pending p u₂.pending })
    ]
