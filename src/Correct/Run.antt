-- ===== src/Correct/Run.antt =====
-- The run of a piece of code up to its tail: what it pushes and what it leaves alone.
use fptl.Prelude.{
  ℕ, ◌+◌, ◌≤◌, ◌<◌, ◌≡◌, refl, ◌∙◌, ap, Bool, true, false, List, ◌++◌, length, length-append,
  get_elem?, Result, arith,
}
use fptl.Value.{DataValue}
use fptl.Frame.{Frame}
use fptl.Frame.Args.{args, IsPlaced, args-append}
use fptl.Form.{Form}
use fptl.Evaluator.{Context, Evaluator}
use fptl.Exec.{exec, State}
use fptl.Exec.Steps.{Functions}
use fptl.Correct.Settles.{Settles}

-- The code, started on the context, ends with the result, whatever fuel is left over.
abbrev pub Ends : Functions → Form → Context → Evaluator → Result State → Type 0
Ends funs form ctx u r = Settles (λ g. exec funs g form ctx u) r

-- The frame with results pushed.
abbrev pub extend : List DataValue → Frame → Frame
extend vs fr = record fr { stack = fr.stack ++ vs; arity = fr.arity + length vs }

-- A context that is executed, on a unit that works on tasks that are not proactive.
pub record IsActive (ctx : Context) : Type 0 where
  pub placed : IsPlaced ctx.frame
  pub not_canceled : ctx.canceled ≡ false
  pub not_proactive : ctx.proactive ≡ false

-- What an executing context keeps besides its frame.
pub record SameContext (ctx ctx' : Context) : Type 0 where
  pub control : ctx'.control_stack ≡ ctx.control_stack
  pub canceled : ctx'.canceled ≡ ctx.canceled
  pub proactive : ctx'.proactive ≡ ctx.proactive

-- The unit's queues are as before, and so are the tasks that were there.
pub record SameUnit (u u' : Evaluator) : Type 0 where
  pub pending : u'.pending ≡ u.pending
  pub running : u'.running ≡ u.running
  pub jobs : u'.jobs ≡ u.jobs
  pub grown : length u.tasks ≤ length u'.tasks
  pub tasks : (a : ℕ) → a < length u.tasks → get_elem? u'.tasks a ≡ get_elem? u.tasks a

pub SameContext-refl : (ctx : Context) → SameContext ctx ctx
SameContext-refl ctx = record { control = refl; canceled = refl; proactive = refl }

pub SameContext-trans : {a b c : Context} → SameContext a b → SameContext b c → SameContext a c
SameContext-trans p q = record {
  control = q.control ∙ p.control;
  canceled = q.canceled ∙ p.canceled;
  proactive = q.proactive ∙ p.proactive;
}

pub SameUnit-refl : (u : Evaluator) → SameUnit u u
SameUnit-refl u = record {
  pending = refl;
  running = refl;
  jobs = refl;
  grown = omega arith;
  tasks = λ a h. refl;
}

pub SameUnit-trans : {a b c : Evaluator} → SameUnit a b → SameUnit b c → SameUnit a c
SameUnit-trans {a} {b} {c} p q = record {
  pending = q.pending ∙ p.pending;
  running = q.running ∙ p.running;
  jobs = q.jobs ∙ p.jobs;
  grown = grown_trans;
  tasks = λ i h. q.tasks i (inside i h) ∙ p.tasks i h;
}
  where
    grown_trans : length a.tasks ≤ length c.tasks
    grown_trans = omega (arith, p.grown, q.grown)

    inside : (i : ℕ) → i < length a.tasks → i < length b.tasks
    inside i h = omega (arith, p.grown)

-- The frame that a piece of code leaves. In a chain of compositions the operands of the stages lie
-- under the results, and the argument tuple is that of the last stage.
abbrev pub Leaves : Bool → List DataValue → Frame → Frame → Type 0
Leaves false vs fr fr' = fr' ≡ extend vs fr
Leaves true vs fr fr' =
    (mid : List DataValue) × (p : ℕ) × (n : ℕ) × (fr'
      ≡ record { stack = fr.stack ++ (mid ++ vs); arg_pos = p; arity = length vs; arg_num = n })

-- `form`, started on `ctx`, comes to `tail` with `vs` pushed.
pub record Run (funs : Functions) (chain : Bool) (vs : List DataValue) (ctx : Context)
    (u : Evaluator) (form tail : Form) : Type 0 where
  pub end_ctx : Context
  pub end_unit : Evaluator
  pub leaves : Leaves chain vs ctx.frame end_ctx.frame
  pub same_ctx : SameContext ctx end_ctx
  pub same_unit : SameUnit u end_unit
  pub continues : (r : Result State) → Ends funs tail end_ctx end_unit r → Ends funs form ctx u r

-- The context of a stage's end is active again, with the same argument tuple.
pub IsActive-extend :
    (ctx ctx' : Context) (vs : List DataValue)
    → IsActive ctx
    → SameContext ctx ctx'
    → ctx'.frame ≡ extend vs ctx.frame
    → IsActive ctx'
IsActive-extend ctx ctx' vs act same e = record {
  placed = rw (e, length-append ctx.frame.stack vs) (omega (arith, act.placed));
  not_canceled = same.canceled ∙ act.not_canceled;
  not_proactive = same.proactive ∙ act.not_proactive;
}

pub args-extend :
    (ctx ctx' : Context) (vs : List DataValue)
    → IsActive ctx
    → ctx'.frame ≡ extend vs ctx.frame
    → args ctx'.frame ≡ args ctx.frame
args-extend ctx ctx' vs act e =
    ap args e ∙ args-append ctx.frame vs (ctx.frame.arity + length vs) act.placed
