-- ===== src/Correct/Compose.antt =====
-- Source/InternalForm/InternalForm.cpp: the forms of compositions of schemes, `f . g` (`SeqBegin`,
-- `SeqAdvance`, `SeqEnd`) and `f * g` where the two are run one after the other.
use fptl.Prelude.{
  ℕ, ◌+◌, ◌≡◌, refl, sym, ◌∙◌, ap, true, false, List, ◌++◌, append_assoc, length, length-append,
  drop-append, take-length, Result, ok, err, timeout, ◌>>=◌, arith,
}
use native.Mathlib.Nat.{add_comm}
use fptl.Value.{DataValue}
use fptl.Frame.{Frame, advance, sub_size}
use fptl.Frame.Args.{args, IsPlaced}
use fptl.Frame.Unwind.{unwind_lem}
use fptl.Form.{Form, seq_begin, seq_end, seq_advance}
use fptl.Evaluator.{Context, Evaluator}
use fptl.Exec.{exec}
use fptl.Exec.Steps.{Functions, save_frame, fold_frame, next_stage}
use fptl.Correct.Settles.{Settles-suc}
use fptl.Correct.Run.{
  Run, extend, IsActive, SameContext, SameContext-trans, SameUnit-trans, IsActive-extend,
  args-extend,
}
use fptl.Correct.Goal.{Behaves}

pub extend-extend :
    (vs ws : List DataValue) (fr : Frame) → extend ws (extend vs fr) ≡ extend (vs ++ ws) fr
extend-extend vs ws fr =
    λ i. record fr { stack = append_assoc fr.stack vs ws i; arity = arity_eq i }
  where
    arity_eq : fr.arity + length vs + length ws ≡ fr.arity + length (vs ++ ws)
    arity_eq = omega (arith, length-append vs ws)

module _ (funs : Functions) where
  Run-trans :
      (vs ws : List DataValue) (ctx : Context) (u : Evaluator) (f g tail : Form)
      (first : Run funs false vs ctx u f g)
      → Run funs false ws first.end_ctx first.end_unit g tail
      → Run funs false (vs ++ ws) ctx u f tail
  Run-trans vs ws ctx u f g tail first second = record {
    end_ctx = second.end_ctx;
    end_unit = second.end_unit;
    leaves = second.leaves ∙ ap (extend ws) first.leaves ∙ extend-extend vs ws ctx.frame;
    same_ctx = SameContext-trans first.same_ctx second.same_ctx;
    same_unit = SameUnit-trans first.same_unit second.same_unit;
    continues = λ r e. first.continues r (second.continues r e);
  }

  then_right :
      (vs : List DataValue) (rb : Result (List DataValue)) (ctx : Context) (u : Evaluator)
      (f g tail : Form) (first : Run funs false vs ctx u f g)
      → Behaves funs false rb first.end_ctx first.end_unit g tail
      → Behaves funs false (rb >>= λ ws. ok (vs ++ ws)) ctx u f tail
  then_right vs (ok ws) ctx u f g tail first second = Run-trans vs ws ctx u f g tail first second
  then_right vs (err e) ctx u f g tail first second = first.continues (err e) second
  then_right vs timeout ctx u f g tail first second = tt

  -- Two operands, one after the other, on the same argument tuple.
  pub Behaves-both :
      (ra rb : Result (List DataValue)) (ctx : Context) (u : Evaluator) (f g tail : Form)
      → IsActive ctx
      → Behaves funs false ra ctx u f g
      → ((ctx' : Context) (u' : Evaluator)
          → IsActive ctx'
          → args ctx'.frame ≡ args ctx.frame
          → Behaves funs false rb ctx' u' g tail)
      → Behaves funs false (ra >>= λ a. rb >>= λ b. ok (a ++ b)) ctx u f tail
  Behaves-both (ok vs) rb ctx u f g tail act first second =
      let c = first.end_ctx in
      then_right vs rb ctx u f g tail first (
        second c first.end_unit (IsActive-extend ctx c vs act first.same_ctx first.leaves)
          (args-extend ctx c vs act first.leaves))
  Behaves-both (err e) rb ctx u f g tail act first second = first
  Behaves-both timeout rb ctx u f g tail act first second = tt

-- The frame of the next stage: the results become the argument tuple.
advance_lem :
    (base vs : List DataValue) (p n : ℕ)
    → advance (record { stack = base ++ vs; arg_pos = p; arity = length vs; arg_num = n })
      ≡ record { stack = base ++ vs; arg_pos = length base; arity = 0; arg_num = length vs }
unfolding advance
advance_lem base vs p n =
    λ i. record { stack = base ++ vs; arg_pos = pos_eq i; arity = 0; arg_num = length vs }
  where
    pos_eq : sub_size (length (base ++ vs)) (length vs) ≡ length base
    pos_eq = ground (arith, length-append base vs)

-- The context at the start of a stage of a chain.
abbrev stage : List DataValue → List DataValue → Frame
stage base vs = record { stack = base ++ vs; arg_pos = length base; arity = 0; arg_num = length vs }

args-stage : (base vs : List DataValue) → args (stage base vs) ≡ vs
args-stage base vs = rw (drop-append base vs) (take-length vs)

stage-IsPlaced : (base vs : List DataValue) → IsPlaced (stage base vs)
stage-IsPlaced base vs = omega (arith, length-append base vs)

next_stage_lem :
    (st mid vs : List DataValue) (p n : ℕ) (ctx : Context)
    → ctx.frame ≡ record { stack = st ++ (mid ++ vs); arg_pos = p; arity = length vs; arg_num = n }
    → (next_stage ctx).frame ≡ stage (st ++ mid) vs
unfolding next_stage
next_stage_lem st mid vs p n ctx e =
    ap advance (
      e ∙ λ i. record {
        stack = sym (append_assoc st mid vs) i;
        arg_pos = p;
        arity = length vs;
        arg_num = n;
      })
    ∙ advance_lem (st ++ mid) vs p n

regroup : (a b c d : List DataValue) → a ++ b ++ c ++ d ≡ a ++ ((b ++ c) ++ d)
regroup a b c d = simp append_assoc

extend-stage :
    (st mid vs ws : List DataValue)
    → extend ws (stage (st ++ mid) vs) ≡ record {
      stack = st ++ ((mid ++ vs) ++ ws);
      arg_pos = length (st ++ mid);
      arity = length ws;
      arg_num = length vs;
    }
extend-stage st mid vs ws = λ i. record {
  stack = regroup st mid vs ws i;
  arg_pos = length (st ++ mid);
  arity = zero_left i;
  arg_num = length vs;
}
  where
    zero_left : 0 + length ws ≡ length ws
    zero_left = omega arith

next_stage-SameContext : (ctx : Context) → SameContext ctx (next_stage ctx)
unfolding next_stage
next_stage-SameContext ctx = record { control = refl; canceled = refl; proactive = refl }

next_stage-IsActive :
    (ctx ctx' : Context) (base vs : List DataValue)
    → IsActive ctx
    → SameContext ctx ctx'
    → ctx'.frame ≡ stage base vs
    → IsActive ctx'
next_stage-IsActive ctx ctx' base vs act same e = record {
  placed = rw e (stage-IsPlaced base vs);
  not_canceled = same.canceled ∙ act.not_canceled;
  not_proactive = same.proactive ∙ act.not_proactive;
}

module _ (funs : Functions) where
  -- The end of a chain's stage, after the stages before it have left `vs`.
  stage_end :
      (vs ws : List DataValue) (ctx : Context) (u : Evaluator) (f s last : Form)
      (first : Run funs true vs ctx u f (seq_advance s))
      → Run funs false ws (next_stage first.end_ctx) first.end_unit s last
      → Run funs true ws ctx u f last
  unfolding exec
  stage_end vs ws ctx u f s last first second =
      let (mid, p, n, e) = first.leaves in
      let st = ctx.frame.stack in
      record {
        end_ctx = second.end_ctx;
        end_unit = second.end_unit;
        leaves = (
          mid ++ vs,
          length (st ++ mid),
          length vs,
          second.leaves
              ∙ ap (extend ws) (next_stage_lem st mid vs p n first.end_ctx e)
              ∙ extend-stage st mid vs ws,
        );
        same_ctx =
            SameContext-trans first.same_ctx
              (SameContext-trans (next_stage-SameContext first.end_ctx) second.same_ctx);
        same_unit = SameUnit-trans first.same_unit second.same_unit;
        continues = λ r q. first.continues r (Settles-suc (λ g. refl) (second.continues r q));
      }

  stage_result :
      (vs : List DataValue) (rb : Result (List DataValue)) (ctx : Context) (u : Evaluator)
      (f s last : Form) (first : Run funs true vs ctx u f (seq_advance s))
      → Behaves funs false rb (next_stage first.end_ctx) first.end_unit s last
      → Behaves funs true rb ctx u f last
  unfolding exec
  stage_result vs (ok ws) ctx u f s last first second = stage_end vs ws ctx u f s last first second
  stage_result vs (err e) ctx u f s last first second =
      first.continues (err e) (Settles-suc (λ g. refl) second)
  stage_result vs timeout ctx u f s last first second = tt

  -- A stage of a chain runs on the tuple that the stages before it leave.
  pub Behaves-stage :
      (ra : Result (List DataValue)) (k : List DataValue → Result (List DataValue)) (ctx : Context)
      (u : Evaluator) (f s last : Form)
      → IsActive ctx
      → Behaves funs true ra ctx u f (seq_advance s)
      → ((vs : List DataValue) (ctx' : Context) (u' : Evaluator)
          → IsActive ctx'
          → args ctx'.frame ≡ vs
          → Behaves funs false (k vs) ctx' u' s last)
      → Behaves funs true (ra >>= k) ctx u f last
  Behaves-stage (ok vs) k ctx u f s last act first second =
      let (mid, p, n, e) = first.leaves in
      let c = first.end_ctx in
      let placed = next_stage_lem ctx.frame.stack mid vs p n c e in
      let same = SameContext-trans first.same_ctx (next_stage-SameContext c) in
      stage_result vs (k vs) ctx u f s last first (
        second vs (next_stage c) first.end_unit
          (next_stage-IsActive ctx (next_stage c) (ctx.frame.stack ++ mid) vs act same placed)
          (ap args placed ∙ args-stage (ctx.frame.stack ++ mid) vs))
  Behaves-stage (err e) k ctx u f s last act first second = first
  Behaves-stage timeout k ctx u f s last act first second = tt

-- `SeqBegin` and `SeqEnd` round a chain.
pub save_frame-IsActive : (ctx : Context) → IsActive ctx → IsActive (save_frame ctx)
unfolding save_frame
save_frame-IsActive ctx act = record {
  placed = act.placed;
  not_canceled = act.not_canceled;
  not_proactive = act.not_proactive;
}

fold_frame_lem :
    (ctx c : Context) (mid vs : List DataValue) (p n : ℕ)
    → c.frame ≡ record {
      stack = ctx.frame.stack ++ (mid ++ vs);
      arg_pos = p;
      arity = length vs;
      arg_num = n;
    }
    → c.control_stack ≡ (save_frame ctx).control_stack
    → fold_frame c
      ≡ ok (record c { frame = extend vs ctx.frame; control_stack = ctx.control_stack })
unfolding fold_frame save_frame
fold_frame_lem ctx c mid vs p n e q =
    rw (q, e, unwind_lem ctx.frame.stack mid vs p n ctx.frame.arg_pos ctx.frame.arity)
      (ap
        (λ a. ok (record c {
          frame = record (extend vs ctx.frame) { arity = a };
          control_stack = ctx.control_stack;
        }))
        (add_comm (length vs) ctx.frame.arity))

module _ (funs : Functions) where
  sequential-Run :
      (vs : List DataValue) (ctx : Context) (u : Evaluator) (f tail : Form)
      → Run funs true vs (save_frame ctx) u f (seq_end tail)
      → Run funs false vs ctx u (seq_begin f) tail
  unfolding exec save_frame
  sequential-Run vs ctx u f tail first =
      let (mid, p, n, e) = first.leaves in
      let c = first.end_ctx in
      let folds = fold_frame_lem ctx c mid vs p n e first.same_ctx.control in
      record {
        end_ctx = record c { frame = extend vs ctx.frame; control_stack = ctx.control_stack };
        end_unit = first.end_unit;
        leaves = refl;
        same_ctx = record {
          control = refl;
          canceled = first.same_ctx.canceled;
          proactive = first.same_ctx.proactive;
        };
        same_unit = first.same_unit;
        continues = λ r q.
            Settles-suc (λ g. refl)
              (first.continues r (
                Settles-suc (λ g. ap (λ x. x >>= λ c'. exec funs g tail c' first.end_unit) folds)
                  q));
      }

  -- A chain of compositions, with its operands folded away at the end.
  pub Behaves-sequential :
      (r : Result (List DataValue)) (ctx : Context) (u : Evaluator) (f tail : Form)
      → Behaves funs true r (save_frame ctx) u f (seq_end tail)
      → Behaves funs false r ctx u (seq_begin f) tail
  unfolding exec
  Behaves-sequential (ok vs) ctx u f tail first = sequential-Run vs ctx u f tail first
  Behaves-sequential (err e) ctx u f tail first = Settles-suc (λ g. refl) first
  Behaves-sequential timeout ctx u f tail first = tt
