-- ===== src/Correct/Cases.antt =====
-- Source/InternalForm/Generator.cpp: the code of each class of nodes, given what the code of its
-- parts does.
use fptl.Prelude.{
  ℕ, zero, suc, ◌≡◌, refl, sym, ap, subst, Bool, true, false, ◌&&◌, some, List, length, get_elem?,
  ok, rethrow, located, String,
}
use fptl.Prelude.Int.{ℤ}
use fptl.Value.{DataValue}
use fptl.Frame.Args.{args, length-args}
use fptl.Scheme.{
  TFunction, Pos, Node, function, parallel, sequential, condition, scheme, take_node, constant,
  string_constant, FScheme, Program, is_long,
}
use fptl.Form.{Form, rec_fn, get_args, ref, ret, par_fork, end_op, par_join, seq_end, seq_advance}
use fptl.Evaluator.{Context, Evaluator}
use fptl.Exec.Steps.{Functions, find_fun, get_fun, save_frame, save_arity, push_return, resolve}
use fptl.Semantics.{eval, select, IsLocal}
use fptl.Generator.{span, scheme_name}
use fptl.Correct.Run.{IsActive}
use fptl.Correct.Goal.{Behaves, Behaves-weaken, Simulates}
use fptl.Correct.Leaf.{
  Behaves-basic_fn, Behaves-get_args, Behaves-load_constant, Behaves-push_string,
}
use fptl.Correct.Compose.{Behaves-both, Behaves-stage, Behaves-sequential, save_frame-IsActive}
use fptl.Correct.Branch.{Behaves-condition, Behaves-call, save_arity-IsActive}
use fptl.Correct.Fork.{Behaves-fork}
use fptl.Correct.Fork.Task.{fork_task, forked_ctx, forked_unit}
use fptl.Correct.Fork.Join.{running_unit}

push_return-IsActive : (k : Form) (ctx : Context) → IsActive ctx → IsActive (push_return k ctx)
unfolding push_return
push_return-IsActive k ctx act = record {
  placed = act.placed;
  not_canceled = act.not_canceled;
  not_proactive = act.not_proactive;
}

eval-scheme :
    (prog : Program) (f k : ℕ) (s : FScheme) (vs : List DataValue)
    → get_elem? prog k ≡ some s
    → eval prog (suc f) (scheme k) vs ≡ eval prog f s.first_node vs
unfolding eval
eval-scheme prog f k s vs e = rw (eval, e)

get_fun_lem :
    (funs : Functions) (k : ℕ) (body : Form)
    → find_fun funs k ≡ some (ref body)
    → get_fun funs k ≡ ok body
unfolding get_fun
get_fun_lem funs k body e = rw (get_fun, e)

forked-args : (ctx : Context) (u : Evaluator) → args (forked_ctx ctx u).frame ≡ args ctx.frame
unfolding forked_ctx
forked-args ctx u = refl

module _ (prog : Program) (funs : Functions) where
  -- A simulated node, started on a context with the same argument tuple as another.
  at_args :
      (f : ℕ) (n : Node) (vs : List DataValue)
      → Simulates prog funs f false n
      → (tail : Form) (ctx : Context) (u : Evaluator) → IsActive ctx
      → args ctx.frame ≡ vs
      → Behaves funs false (eval prog f n vs) ctx u (span prog false false n tail) tail
  at_args f n vs sim tail ctx u act e =
      subst (λ ws. Behaves funs false (eval prog f n ws) ctx u (span prog false false n tail) tail)
        e (sim tail ctx u act tt)

  pub parallel_case :
      (f : ℕ) (long : Bool) (l r : Node)
      → Simulates prog funs f false l
      → Simulates prog funs f false r
      → Simulates prog funs f false (parallel long l r)
  unfolding eval span
  parallel_case f long l r sl sr tail ctx u act z =
      let vs = args ctx.frame in
      elim (is_long prog l && is_long prog r)
        as (λ b.
          Behaves funs false (eval prog f (parallel long l r) vs) ctx u
            (elim b [
              | true ↦
                  par_fork (span prog false false l (par_join tail))
                    (span prog false false r end_op)
              | false ↦ span prog false false l (span prog false false r tail)
            ])
            tail) [
              | true ↦
                  Behaves-fork funs ctx u act (span prog false false l (par_join tail))
                    (span prog false false r end_op) tail (eval prog f l vs) (eval prog f r vs)
                    (λ active.
                      at_args f l vs sl (par_join tail) (forked_ctx ctx u)
                        (forked_unit ctx (span prog false false r end_op) u) active
                        (forked-args ctx u))
                    (λ v active e.
                      at_args f r vs sr end_op (fork_task ctx (span prog false false r end_op) u)
                        (running_unit (length u.tasks) u v) active e)
              | false ↦
                  Behaves-both funs (eval prog f l vs) (eval prog f r vs) ctx u
                    (span prog false false l (span prog false false r tail))
                    (span prog false false r tail) tail act
                    (sl (span prog false false r tail) ctx u act tt)
                    (λ ctx' u' act' e. at_args f r vs sr tail ctx' u' act' e)
            ]

  pub sequential_case :
      (f : ℕ) (long : Bool) (l r : Node)
      → Simulates prog funs f true l
      → Simulates prog funs f false r
      → Simulates prog funs f true (sequential long l r)
  unfolding eval span
  sequential_case f long l r sl sr tail ctx u act z =
      Behaves-stage funs (eval prog f l (args ctx.frame)) (eval prog f r) ctx u
        (span prog false true l (seq_advance (span prog false false r tail)))
        (span prog false false r tail) tail act
        (sl (seq_advance (span prog false false r tail)) ctx u act z)
        (λ vs ctx' u' act' e. at_args f r vs sr tail ctx' u' act' e)

  -- The chain's code stands between `SeqBegin` and `SeqEnd`.
  pub sequential_whole :
      (f : ℕ) (long : Bool) (l r : Node)
      → Simulates prog funs f true (sequential long l r)
      → Simulates prog funs f false (sequential long l r)
  unfolding eval span save_frame
  sequential_whole f long l r sim tail ctx u act z =
      Behaves-sequential funs (eval prog f (sequential long l r) (args ctx.frame)) ctx u
        (span prog false true (sequential long l r) (seq_end tail)) tail
        (sim (seq_end tail) (save_frame ctx) u (save_frame-IsActive ctx act) refl)

  pub condition_case :
      (f : ℕ) (long : Bool) (c t e : Node)
      → Simulates prog funs f false c
      → Simulates prog funs f false t
      → Simulates prog funs f false e
      → Simulates prog funs f false (condition long c t e)
  unfolding eval span save_arity
  condition_case f long c t e sc st se tail ctx u act z =
      let vs = args ctx.frame in
      Behaves-condition funs (eval prog f c vs) (eval prog f t vs) (eval prog f e vs) ctx u _
        (span prog false false t tail) (span prog false false e tail) tail act
        (sc _ (save_arity ctx) u (save_arity-IsActive ctx act) tt)
        (λ ctx' u' act' q. at_args f t vs st tail ctx' u' act' (ap args q))
        (λ ctx' u' act' q. at_args f e vs se tail ctx' u' act' (ap args q))

  pub chain_case :
      (f : ℕ) (n : Node) (tail : Form) (ctx : Context) (u : Evaluator)
      → ctx.frame.arity ≡ 0
      → Behaves funs false
          (eval prog f n (args ctx.frame))
          ctx
          u
          (span prog false false n tail)
          tail
      → Behaves funs true (eval prog f n (args ctx.frame)) ctx u (span prog false false n tail) tail
  chain_case f n tail ctx u z b =
      Behaves-weaken funs (eval prog f n (args ctx.frame)) ctx u (span prog false false n tail) tail
        z b

  pub function_case :
      (f : ℕ) (fn : TFunction) (long : Bool) (name : String) (p : Pos)
      → IsLocal fn
      → Simulates prog funs f false (function fn long name p)
  unfolding eval span
  function_case f fn long name p loc tail ctx u act z =
      Behaves-basic_fn funs ctx u act fn name p tail loc

  pub take_case :
      (f : ℕ) (from to : ℤ) (p : Pos) → Simulates prog funs f false (take_node from to p)
  unfolding eval span
  take_case f from to p tail ctx u act z =
      subst
        (λ n.
          Behaves funs false
            (rethrow (located p "") (select (resolve n from) (resolve n to) (args ctx.frame))) ctx u
            (get_args tail from to p) tail)
        (sym (length-args ctx.frame act.placed)) (Behaves-get_args funs ctx u act from to p tail)

  pub constant_case : (f : ℕ) (v : DataValue) (p : Pos) → Simulates prog funs f false (constant v p)
  unfolding eval span
  constant_case f v p tail ctx u act z = Behaves-load_constant funs ctx u act v tail

  pub string_case :
      (f : ℕ) (s : List ℕ) (p : Pos) → Simulates prog funs f false (string_constant s p)
  unfolding eval span
  string_case f s p tail ctx u act z = Behaves-push_string funs ctx u act s "c_string" (0, 0) tail

  pub scheme_zero : (k : ℕ) → Simulates prog funs zero false (scheme k)
  unfolding eval
  scheme_zero k tail ctx u act z = tt

  -- A call, given that the bodies in the table are simulated.
  pub scheme_case :
      (f k : ℕ) (s : FScheme) (body : Form)
      → find_fun funs k ≡ some (ref body)
      → get_elem? prog k ≡ some s
      → body ≡ span prog false false s.first_node ret
      → Simulates prog funs f false s.first_node
      → Simulates prog funs (suc f) false (scheme k)
  unfolding eval span push_return
  scheme_case f k s body found there code sim tail ctx u act z =
      let called = eval prog f s.first_node (args ctx.frame) in
      let inner =
        subst (λ form. Behaves funs false called (push_return tail ctx) u form ret) (sym code)
          (sim ret (push_return tail ctx) u (push_return-IsActive tail ctx act) tt) in
      subst (λ r. Behaves funs false r ctx u (rec_fn k tail (scheme_name prog k)) tail)
        (sym (eval-scheme prog f k s (args ctx.frame) there))
        (Behaves-call funs called k (scheme_name prog k) ctx u body tail
          (get_fun_lem funs k body found) inner)
