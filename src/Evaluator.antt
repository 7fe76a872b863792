-- ===== src/Evaluator.antt =====
-- Source/Evaluator/Context.h, Context.cpp, EvaluatorUnit.cpp: execution contexts and the state of
-- an evaluator unit, for one unit. Contexts live in `tasks` at their addresses; a deleted one
-- leaves `none`. The context that the unit is executing is handed round by value beside the unit,
-- and written back when its run ends.
use fptl.Prelude.{
  ℕ, zero, suc, ◌+◌, Bool, true, false, not, ◌&&◌, Option, none, some, List, [], ◌∷◌, ◌++◌, length,
  get_elem?, set, ◌==◌, if◌then◌else◌, fault, Result, ok, err, timeout, ◌>>=◌,
}
use fptl.Value.{DataValue}
use fptl.Frame.{Frame, at}
use fptl.Form.{Form, ControlValue, end_op, zeroing}

pub record Context : Type 0 where
  -- `this`, and `mInternalForm`
  pub address : ℕ
  pub body : Form
  pub frame : Frame
  pub control_stack : List ControlValue
  pub parent : Option ℕ
  pub childs : List ℕ
  pub ready : Bool
  pub working : Bool
  pub proactive : Bool
  pub new_proactive_level : Bool
  pub canceled : Bool
  pub exchanged_nodes : List Form

-- The vectors and queues of addresses, the end at which the unit works first. `proactive_mode` is
-- `EvalConfig::Proactive`.
pub record Evaluator : Type 0 where
  pub tasks : List (Option Context)
  pub pending : List ℕ
  pub running : List ℕ
  pub jobs : List ℕ
  pub proactive_jobs : List ℕ
  pub proactive_mode : Bool

unfoldable pub new_frame : List DataValue → Frame
new_frame args = record { stack = args; arg_pos = 0; arity = 0; arg_num = length args }

unfoldable pub new_context : ℕ → Form → Context
unfolding new_frame
new_context a body = record {
  address = a;
  body = body;
  frame = new_frame [];
  control_stack = [];
  parent = none;
  childs = [];
  ready = false;
  working = false;
  proactive = false;
  new_proactive_level = false;
  canceled = false;
  exchanged_nodes = [];
}

-- Reading through a pointer to a context, writing through it, `new`, and `delete`.
unfoldable pub load : ℕ → Evaluator → Result Context
load a u = elim (get_elem? u.tasks a) [
  | none ↦ err fault
  | some none ↦ err fault
  | some (some c) ↦ ok c
]

unfoldable pub store : ℕ → Context → Evaluator → Evaluator
store a c u = record u { tasks = set u.tasks a (some c) }

unfoldable pub allocate : Context → Evaluator → Evaluator
allocate c u = record u { tasks = u.tasks ++ some c ∷ [] }

unfoldable pub release : ℕ → Evaluator → Evaluator
release a u = record u { tasks = set u.tasks a none }

-- `stack.at(i)`, ..., `stack.at(i + n - 1)`
unfoldable pub copy_range : ℕ → ℕ → List DataValue → Result (List DataValue)
copy_range zero i st = ok []
copy_range (suc n) i st = do v ← at st i; vs ← copy_range n (i + 1) st; ok (v ∷ vs)

-- `IFExecutionContext::spawn`; the new context stands at the returned address.
unfoldable pub spawn : Context → Form → Evaluator → Result (ℕ × Evaluator)
unfolding new_context
spawn ctx fork_body u =
    let a = length u.tasks in
    elim ctx.canceled [
      | false ↦ do
        args ← copy_range ctx.frame.arg_num ctx.frame.arg_pos ctx.frame.stack
        let fork = new_context a fork_body
        ok (
          a,
          allocate
              (record fork {
                parent = some ctx.address;
                proactive = ctx.proactive;
                frame = record {
                  stack = args;
                  arg_pos = 0;
                  arity = 0;
                  arg_num = ctx.frame.arg_num;
                };
              })
              u,
        )
      | true ↦ ok (a, allocate (new_context a end_op) u)
    ]

-- `std::set::insert`
unfoldable pub insert_child : ℕ → List ℕ → List ℕ
insert_child a [] = a ∷ []
insert_child a (b ∷ bs) = if a == b then b ∷ bs else b ∷ insert_child a bs

-- `addForkJob`, for a task whose parent, if it has one, is the executing context.
unfoldable pub add_fork_job : ℕ → Context → Evaluator → Result (Context × Evaluator)
unfolding insert_child
add_fork_job a ctx u = do
  task ← load a u
  elim task.parent [
    | none ↦ ok (ctx, u)
    | some _ ↦
        if not ctx.canceled
        then ok (
          record ctx { childs = insert_child a ctx.childs },
          if task.proactive
              then record u { pending = a ∷ u.pending; proactive_jobs = a ∷ u.proactive_jobs }
              else record u { pending = a ∷ u.pending; jobs = a ∷ u.jobs },
        )
        else ok (ctx, u)
  ]

-- The context behind a pointer, the executing one included.
unfoldable pub deref : Context → Evaluator → Option ℕ → Result Context
deref ctx u none = err fault
deref ctx u (some a) = if a == ctx.address then ok ctx else load a u

-- `moveToMainOrder`; the fuel bounds the depth of the tree of children.
unfoldable mutual
  pub move_to_main_order : ℕ → Context → ℕ → Evaluator → Result Evaluator
  move_to_main_order zero ctx a u = timeout
  move_to_main_order (suc f) ctx a u = do
    task ← load a u
    parent ← deref ctx u task.parent
    u₁ ← (elim parent.proactive [
      | false ↦ ok u
      | true ↦ move_children f ctx task.childs (
          let moved = store a (record task { proactive = false }) u in
          if not task.ready && not task.working
          then record moved { jobs = a ∷ moved.jobs }
          else moved)
    ])
    task' ← load a u₁
    ok (store a (record task' { new_proactive_level = false }) u₁)

  pub move_children : ℕ → Context → List ℕ → Evaluator → Result Evaluator
  move_children zero ctx cs u = timeout
  move_children (suc f) ctx [] u = ok u
  move_children (suc f) ctx (c ∷ cs) u = do
    child ← load c u
    u₁ ← (elim child.new_proactive_level [ true ↦ ok u | false ↦ move_to_main_order f ctx c u ])
    move_children f ctx cs u₁

-- `EvaluatorUnit::cancel`, and `IFExecutionContext::cancel` in it.
unfoldable mutual
  pub cancel : ℕ → ℕ → Evaluator → Result Evaluator
  cancel zero a u = timeout
  cancel (suc f) a u = do
    task ← load a u
    cancel_children f task.childs (
        store a
          (if task.ready
            then record task { canceled = true }
            else if task.working
            then record task {
              canceled = true;
              ready = true;
              exchanged_nodes = zeroing task.body task.exchanged_nodes;
            }
            else record task { canceled = true; ready = true })
          u)

  pub cancel_children : ℕ → List ℕ → Evaluator → Result Evaluator
  cancel_children zero cs u = timeout
  cancel_children (suc f) [] u = ok u
  cancel_children (suc f) (c ∷ cs) u = do
    child ← load c u
    u₁ ← (elim child.canceled [ true ↦ ok u | false ↦ cancel f c u ])
    cancel_children f cs u₁
