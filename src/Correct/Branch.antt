-- ===== src/Correct/Branch.antt =====
-- Source/InternalForm/InternalForm.cpp: conditions (`CondStart`, `CondChoose`) with both branches
-- in place, and the calls of schemes (`RecFn`, `Ret`).
use fptl.Prelude.{
  ℕ, suc, ◌≡◌, refl, ◌∙◌, ap, Bool, true, false, String, List, ◌∷◌, Result, ok, err, timeout, ◌>>=◌,
}
use fptl.Value.{DataValue}
use fptl.Form.{
  Form, null, ref, cond_start, cond_choose, rec_fn, ret, return_to, out_arity, ControlValue,
}
use fptl.Evaluator.{Context, Evaluator}
use fptl.Exec.{exec, State}
use fptl.Exec.Steps.{Functions, save_arity, fork_branches, choose, push_return, pop_return, get_fun}
use fptl.Semantics.{holds}
use fptl.Correct.Settles.{Settles-suc}
use fptl.Correct.Predicate.{choose_lem}
use fptl.Correct.Run.{
  Ends, Run, extend, IsActive, SameContext, SameUnit, SameContext-trans, SameUnit-trans,
}
use fptl.Correct.Goal.{Behaves}

-- The context in which the chosen branch starts.
abbrev after_choice : Context → Context → Context
after_choice ctx c = record c { frame = ctx.frame; control_stack = ctx.control_stack }

choice_lem :
    (ctx c : Context) (ps : List DataValue)
    → c.frame ≡ extend ps ctx.frame
    → c.control_stack ≡ out_arity ctx.frame.arity ∷ ctx.control_stack
    → choose c ≡ ok (holds ps, after_choice ctx c)
choice_lem ctx c ps e q =
    (λ i. choose (record c { frame = e i; control_stack = q i }))
    ∙ choose_lem c ctx.frame ctx.control_stack ps

pop_return_lem :
    (c : Context) (k : Form) (rest : List ControlValue)
    → c.control_stack ≡ return_to k ∷ rest
    → pop_return c ≡ ok (k, record c { control_stack = rest })
unfolding pop_return
pop_return_lem c k rest e = rw e

module _ (funs : Functions) where
  choose-true :
      (ctx c : Context) (u : Evaluator) (t e tail : Form)
      → choose c ≡ ok (true, after_choice ctx c)
      → (g : ℕ)
      → exec funs (suc g) (cond_choose (ref t) (ref e) tail) c u
        ≡ exec funs g t (after_choice ctx c) u
  unfolding exec
  choose-true ctx c u t e tail q g = rw q

  choose-false :
      (ctx c : Context) (u : Evaluator) (t e tail : Form)
      → choose c ≡ ok (false, after_choice ctx c)
      → (g : ℕ)
      → exec funs (suc g) (cond_choose (ref t) (ref e) tail) c u
        ≡ exec funs g e (after_choice ctx c) u
  unfolding exec
  choose-false ctx c u t e tail q g = rw q

  -- Code that first comes, with the same frame, to other code.
  Behaves-prefix :
      (r : Result (List DataValue)) (ctx c : Context) (u v : Evaluator) (form form' tail : Form)
      → c.frame ≡ ctx.frame
      → SameContext ctx c
      → SameUnit u v
      → ((x : Result State) → Ends funs form' c v x → Ends funs form ctx u x)
      → Behaves funs false r c v form' tail
      → Behaves funs false r ctx u form tail
  Behaves-prefix (ok vs) ctx c u v form form' tail e same kept come b = record {
    end_ctx = b.end_ctx;
    end_unit = b.end_unit;
    leaves = b.leaves ∙ ap (extend vs) e;
    same_ctx = SameContext-trans same b.same_ctx;
    same_unit = SameUnit-trans kept b.same_unit;
    continues = λ x q. come x (b.continues x q);
  }
  Behaves-prefix (err x) ctx c u v form form' tail e same kept come b = come (err x) b
  Behaves-prefix timeout ctx c u v form form' tail e same kept come b = tt

  after_predicate :
      (ps : List DataValue) (d : Bool) (rt re : Result (List DataValue)) (ctx : Context)
      (u : Evaluator) (c t e tail : Form)
      (first : Run funs false ps (save_arity ctx) u c (cond_choose (ref t) (ref e) tail))
      → choose first.end_ctx ≡ ok (d, after_choice ctx first.end_ctx)
      → Behaves funs false rt (after_choice ctx first.end_ctx) first.end_unit t tail
      → Behaves funs false re (after_choice ctx first.end_ctx) first.end_unit e tail
      → Behaves funs false (elim d [ true ↦ rt | false ↦ re ]) ctx u (cond_start c null null) tail
  unfolding exec save_arity fork_branches
  after_predicate ps true rt re ctx u c t e tail first q bt be =
      Behaves-prefix rt ctx (after_choice ctx first.end_ctx) u first.end_unit _ t tail refl
        (record {
          control = refl;
          canceled = first.same_ctx.canceled;
          proactive = first.same_ctx.proactive;
        })
        first.same_unit
        (λ x h.
          Settles-suc (λ g. refl)
            (first.continues x
              (Settles-suc (choose-true ctx first.end_ctx first.end_unit t e tail q) h)))
        bt
  after_predicate ps false rt re ctx u c t e tail first q bt be =
      Behaves-prefix re ctx (after_choice ctx first.end_ctx) u first.end_unit _ e tail refl
        (record {
          control = refl;
          canceled = first.same_ctx.canceled;
          proactive = first.same_ctx.proactive;
        })
        first.same_unit
        (λ x h.
          Settles-suc (λ g. refl)
            (first.continues x
              (Settles-suc (choose-false ctx first.end_ctx first.end_unit t e tail q) h)))
        be

  after_choice-IsActive :
      (ctx c : Context)
      → IsActive ctx
      → SameContext (save_arity ctx) c
      → IsActive (after_choice ctx c)
  unfolding save_arity
  after_choice-IsActive ctx c act same = record {
    placed = act.placed;
    not_canceled = same.canceled ∙ act.not_canceled;
    not_proactive = same.proactive ∙ act.not_proactive;
  }

  -- A condition runs the branch that its predicate's tuple selects.
  pub Behaves-condition :
      (rc rt re : Result (List DataValue)) (ctx : Context) (u : Evaluator) (c t e tail : Form)
      → IsActive ctx
      → Behaves funs false rc (save_arity ctx) u c (cond_choose (ref t) (ref e) tail)
      → ((ctx' : Context) (u' : Evaluator)
          → IsActive ctx'
          → ctx'.frame ≡ ctx.frame
          → Behaves funs false rt ctx' u' t tail)
      → ((ctx' : Context) (u' : Evaluator)
          → IsActive ctx'
          → ctx'.frame ≡ ctx.frame
          → Behaves funs false re ctx' u' e tail)
      → Behaves funs false
          (rc >>= λ p. elim (holds p) [ true ↦ rt | false ↦ re ])
          ctx
          u
          (cond_start c null null)
          tail
  unfolding exec save_arity fork_branches
  Behaves-condition (ok ps) rt re ctx u c t e tail act first bt be =
      let d = first.end_ctx in
      let active = after_choice-IsActive ctx d act first.same_ctx in
      after_predicate ps (holds ps) rt re ctx u c t e tail first
        (choice_lem ctx d ps first.leaves first.same_ctx.control)
        (bt (after_choice ctx d) first.end_unit active refl)
        (be (after_choice ctx d) first.end_unit active refl)
  Behaves-condition (err x) rt re ctx u c t e tail act first bt be = Settles-suc (λ g. refl) first
  Behaves-condition timeout rt re ctx u c t e tail act first bt be = tt

  -- A call runs the body, whose `Ret` comes back to the form after the call.
  pub Behaves-call :
      (r : Result (List DataValue)) (k : ℕ) (name : String) (ctx : Context) (u : Evaluator)
      (body tail : Form)
      → get_fun funs k ≡ ok body
      → Behaves funs false r (push_return tail ctx) u body ret
      → Behaves funs false r ctx u (rec_fn k tail name) tail
  unfolding exec push_return
  Behaves-call (ok vs) k name ctx u body tail found b =
      let c = b.end_ctx in
      record {
        end_ctx = record c { control_stack = ctx.control_stack };
        end_unit = b.end_unit;
        leaves = b.leaves;
        same_ctx = record {
          control = refl;
          canceled = b.same_ctx.canceled;
          proactive = b.same_ctx.proactive;
        };
        same_unit = b.same_unit;
        continues = λ x q.
            Settles-suc (λ g. ap (λ m. m >>= λ f. exec funs g f (push_return tail ctx) u) found)
              (b.continues x (
                Settles-suc
                  (λ g.
                    ap (λ m. m >>= λ s. exec funs g s.0 s.1 b.end_unit)
                      (pop_return_lem c tail ctx.control_stack b.same_ctx.control))
                  q));
      }
  Behaves-call (err x) k name ctx u body tail found b =
      Settles-suc (λ g. ap (λ m. m >>= λ f. exec funs g f (push_return tail ctx) u) found) b
  Behaves-call timeout k name ctx u body tail found b = tt

pub save_arity-IsActive : (ctx : Context) → IsActive ctx → IsActive (save_arity ctx)
unfolding save_arity
save_arity-IsActive ctx act = record {
  placed = act.placed;
  not_canceled = act.not_canceled;
  not_proactive = act.not_proactive;
}
