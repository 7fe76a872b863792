-- ===== src/Correct/Leaf.antt =====
-- Source/InternalForm/InternalForm.cpp: the forms of basic functions, tuple selections and
-- constants.
use fptl.Prelude.{
  ℕ, ◌+◌, ◌≡◌, refl, ◌∙◌, ap, false, String, List, [], ◌∷◌, Error, located, Result, ok, ◌>>=◌,
  rethrow, bind_assoc, bind-rethrow, arith,
}
use fptl.Prelude.Int.{ℤ}
use fptl.Value.{DataValue, string}
use fptl.Frame.{Frame, push, push_all}
use fptl.Frame.Args.{args, IsPlaced, push_all_lem}
use fptl.Scheme.{TFunction, Pos}
use fptl.Form.{Form, basic_fn, get_args, load_constant}
use fptl.Evaluator.{Context, Evaluator}
use fptl.Exec.{exec}
use fptl.Exec.Steps.{Functions, call_fn, try_get_args, push_constant, push_range, resolve}
use fptl.Semantics.{apply, select, IsLocal}
use fptl.Generator.{push_string}
use fptl.Correct.Tuples.{push_range_lem}
use fptl.Correct.Run.{extend, IsActive}
use fptl.Correct.Goal.{Behaves, Behaves-step}

-- Pushing a tuple onto the frame of a context.
push_result :
    (h : Error → Error) (m : Result (List DataValue)) (ctx : Context) (fr' : Result Frame)
    → fr' ≡ (m >>= λ vs. ok (push_all vs ctx.frame))
    → (rethrow h fr' >>= λ fr. ok (record ctx { frame = fr }))
      ≡ (rethrow h m >>= λ vs. ok (record ctx { frame = extend vs ctx.frame }))
push_result h m ctx fr' e =
    ap (λ r. rethrow h r >>= λ fr. ok (record ctx { frame = fr })) e
    ∙ ap (λ r. r >>= λ fr. ok (record ctx { frame = fr }))
        (bind-rethrow h m (λ vs. push_all vs ctx.frame))
    ∙ bind_assoc (rethrow h m) (λ vs. ok (push_all vs ctx.frame)) _
    ∙ λ i. rethrow h m >>= λ vs. ok (record ctx { frame = push_all_lem vs ctx.frame i })

call_fn_lem :
    (name : String) (p : Pos) (fn : TFunction) (ctx : Context)
    → IsLocal fn
    → IsPlaced ctx.frame
    → call_fn name p fn ctx ≡ (
        rethrow (located p name) (apply fn (args ctx.frame)) >>= λ vs.
        ok (record ctx { frame = extend vs ctx.frame }))
unfolding call_fn
call_fn_lem name p fn ctx loc placed =
    push_result (located p name) (apply fn (args ctx.frame)) ctx (fn ctx.frame)
      (loc ctx.frame placed)

try_get_args_lem :
    (from to : ℤ) (p : Pos) (ctx : Context)
    → IsPlaced ctx.frame
    → try_get_args from to p ctx ≡ (
        rethrow
          (located p "")
          (select (resolve ctx.frame.arg_num from) (resolve ctx.frame.arg_num to) (args ctx.frame))
        >>= λ vs. ok (record ctx { frame = extend vs ctx.frame }))
unfolding try_get_args
try_get_args_lem from to p ctx placed =
    let n = ctx.frame.arg_num in
    push_result (located p "") (select (resolve n from) (resolve n to) (args ctx.frame)) ctx
      (push_range (n + 2) (resolve n from) (resolve n to) ctx.frame)
      (push_range_lem (n + 2) (resolve n from) (resolve n to) ctx.frame placed (omega arith)
        (omega arith))

module _ (funs : Functions) (ctx : Context) (u : Evaluator) (act : IsActive ctx) where
  pub Behaves-basic_fn :
      (fn : TFunction) (name : String) (p : Pos) (tail : Form)
      → IsLocal fn
      → Behaves funs false
          (rethrow (located p name) (apply fn (args ctx.frame)))
          ctx
          u
          (basic_fn tail name p fn)
          tail
  unfolding exec
  Behaves-basic_fn fn name p tail loc = Behaves-step funs _ ctx u _ tail (λ g.
      ap (λ r. r >>= λ c. exec funs g tail c u) (call_fn_lem name p fn ctx loc act.placed)
      ∙ bind_assoc (rethrow (located p name) (apply fn (args ctx.frame))) _ _)

  pub Behaves-get_args :
      (from to : ℤ) (p : Pos) (tail : Form)
      → Behaves funs false
          (rethrow (located p "") (
            select
              (resolve ctx.frame.arg_num from)
              (resolve ctx.frame.arg_num to)
              (args ctx.frame)))
          ctx
          u
          (get_args tail from to p)
          tail
  unfolding exec
  Behaves-get_args from to p tail = Behaves-step funs _ ctx u _ tail (λ g.
      ap (λ r. r >>= λ c. exec funs g tail c u) (try_get_args_lem from to p ctx act.placed)
      ∙ bind_assoc
          (rethrow (located p "") (
            select (resolve ctx.frame.arg_num from) (resolve ctx.frame.arg_num to)
              (args ctx.frame)))
          _ _)

  pub Behaves-load_constant :
      (v : DataValue) (tail : Form)
      → Behaves funs false (ok (v ∷ [])) ctx u (load_constant tail v) tail
  unfolding exec push_constant push
  Behaves-load_constant v tail = Behaves-step funs (ok (v ∷ [])) ctx u _ tail (λ g. refl)

  pub Behaves-push_string :
      (s : List ℕ) (name : String) (p : Pos) (tail : Form)
      → Behaves funs false (ok (string s ∷ [])) ctx u (basic_fn tail name p (push_string s)) tail
  unfolding exec call_fn push_string push
  Behaves-push_string s name p tail =
      Behaves-step funs (ok (string s ∷ [])) ctx u _ tail (λ g. refl)
