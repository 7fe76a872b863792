-- ===== src/Correct/Goal.antt =====
-- The two halves of the simulation, for one node: what happens when its meaning is a tuple, and
-- when it is an exception.
use fptl.Prelude.{
  ℕ, suc, ◌+◌, ◌≡◌, refl, ◌∙◌, Bool, true, false, List, [], length, Result, ok, err, ◌>>=◌, arith,
}
use fptl.Value.{DataValue}
use fptl.Frame.{Frame}
use fptl.Frame.Args.{args}
use fptl.Scheme.{Node, Program}
use fptl.Form.{Form}
use fptl.Evaluator.{Context, Evaluator}
use fptl.Exec.{exec}
use fptl.Exec.Steps.{Functions}
use fptl.Semantics.{eval}
use fptl.Generator.{span}
use fptl.Correct.Settles.{Settles-suc, Settles-const}
use fptl.Correct.Run.{Ends, Run, Leaves, extend, IsActive, SameUnit-refl}

-- A chain begins with no results.
abbrev pub Begins : Bool → Context → Type 0
Begins false ctx = Unit
Begins true ctx = ctx.frame.arity ≡ 0

-- The form comes to its tail with the tuple pushed, if the result is a tuple, and ends with the
-- exception, if it is one.
abbrev pub Behaves :
    Functions → Bool → Result (List DataValue) → Context → Evaluator → Form → Form → Type 0
Behaves funs chain (ok vs) ctx u form tail = Run funs chain vs ctx u form tail
Behaves funs chain (err e) ctx u form tail = Ends funs form ctx u (err e)
Behaves funs chain Result.timeout ctx u form tail = Unit

-- The code of the node does what the node means, on every active context and for every tail.
abbrev pub Simulates : Program → Functions → ℕ → Bool → Node → Type 0
Simulates prog funs f chain n =
    (tail : Form) (ctx : Context) (u : Evaluator)
    → IsActive ctx
    → Begins chain ctx
    → Behaves funs chain (eval prog f n (args ctx.frame)) ctx u (span prog false chain n tail) tail

module _ (funs : Functions) where
  pub Leaves-weaken :
      (vs : List DataValue) (fr fr' : Frame)
      → fr.arity ≡ 0
      → Leaves false vs fr fr'
      → Leaves true vs fr fr'
  Leaves-weaken vs fr fr' z e =
      let arity_eq : fr.arity + length vs ≡ length vs = omega arith in
      ([], fr.arg_pos, fr.arg_num, e ∙ λ i. record (extend vs fr) { arity = arity_eq i })

  -- A node that is no composition is run alike within a chain and outside.
  pub Behaves-weaken :
      (r : Result (List DataValue)) (ctx : Context) (u : Evaluator) (form tail : Form)
      → ctx.frame.arity ≡ 0
      → Behaves funs false r ctx u form tail
      → Behaves funs true r ctx u form tail
  Behaves-weaken (ok vs) ctx u form tail z b = record {
    end_ctx = b.end_ctx;
    end_unit = b.end_unit;
    leaves = Leaves-weaken vs ctx.frame b.end_ctx.frame z b.leaves;
    same_ctx = b.same_ctx;
    same_unit = b.same_unit;
    continues = b.continues;
  }
  Behaves-weaken (err e) ctx u form tail z b = b
  Behaves-weaken Result.timeout ctx u form tail z b = b

  -- A form that makes one step on the context, a step that pushes a tuple or throws.
  pub Behaves-step :
      (r : Result (List DataValue)) (ctx : Context) (u : Evaluator) (form tail : Form)
      → ((g : ℕ)
          → exec funs (suc g) form ctx u
            ≡ (r >>= λ vs. exec funs g tail (record ctx { frame = extend vs ctx.frame }) u))
      → Behaves funs false r ctx u form tail
  Behaves-step (ok vs) ctx u form tail step = record {
    end_ctx = record ctx { frame = extend vs ctx.frame };
    end_unit = u;
    leaves = refl;
    same_ctx = record { control = refl; canceled = refl; proactive = refl };
    same_unit = SameUnit-refl u;
    continues = λ r. Settles-suc step;
  }
  Behaves-step (err e) ctx u form tail step = Settles-suc step (Settles-const (λ g. refl))
  Behaves-step Result.timeout ctx u form tail step = tt
