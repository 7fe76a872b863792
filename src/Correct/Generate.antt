-- ===== src/Correct/Generate.antt =====
-- Source/InternalForm/Generator.cpp (`generate`): the translation of a whole program, from an empty
-- table, and the run of what it yields.
use fptl.Prelude.{
  ℕ, zero, suc, ◌≡◌, ◌≢◌, refl, sym, subst, Bool, true, false, some, List, [], length, get_elem?,
  split_at, Result, ok, timeout, arith,
}
use fptl.Value.{DataValue}
use fptl.Scheme.{
  Node, function, parallel, sequential, condition, scheme, take_node, constant, string_constant,
  FScheme, Program,
}
use fptl.Form.{Form, FormPtr, null, ref, end_op}
use fptl.Exec.Steps.{Functions, find_fun}
use fptl.Semantics.{eval, IsLocal}
use fptl.Interpreter.{run_program}
use fptl.Generator.{span, visit, generate}
use fptl.Correct.Settles.{Settles}
use fptl.Correct.Table.{IsClosed, IsSound}
use fptl.Correct.Measure.{IsCalling, IsProgram, missing-start}
use fptl.Correct.Nodes.{leaf-Visited}
use fptl.Correct.Visit.{
  VisitsWell, parallel_visited, chain_visited, sequential_visited, branches_visited, scheme_zero,
  scheme_suc,
}
use fptl.Correct.Simulation.{IsLinked, IsTable}
use fptl.Correct.Whole.{run_program_lem}

module _ (prog : Program) (pro : Bool) (calls : IsProgram prog) where
  -- When the node and the program's schemes call only schemes of the program, and the fuel is at
  -- least the number of schemes without an entry in a sound table, then the visit of the node, in a
  -- chain or outside, ends with the code of the node and a sound table that keeps its entries,
  -- leaves none open that was not open before, and has an entry for every scheme that the node
  -- calls.
  pub visit_lem :
      (f : ℕ) (chain : Bool) (n : Node) → IsCalling prog n → VisitsWell prog pro f chain n
  unfolding visit span
  visit_lem f chain (function fn long name p) h =
      λ tail fs sound fuel. (_, refl, leaf-Visited prog pro chain _ tail _ fs refl tt sound)
  visit_lem f chain (parallel long l r) (hl, hr) =
      parallel_visited prog pro f chain long l r (visit_lem f false l hl) (visit_lem f false r hr)
  visit_lem f true (sequential long l r) (hl, hr) =
      chain_visited prog pro f long l r (visit_lem f true l hl) (visit_lem f false r hr)
  visit_lem f false (sequential long l r) (hl, hr) =
      sequential_visited prog pro f long l r (visit_lem f true l hl) (visit_lem f false r hr)
  visit_lem f chain (condition long c t e) (hc, ht, he) =
      branches_visited prog pro f chain long c t e (visit_lem f false c hc) (visit_lem f false t ht)
        (visit_lem f false e he)
  visit_lem zero chain (scheme k) h = scheme_zero prog pro chain k h
  visit_lem (suc f) chain (scheme k) h =
      let (s, there, rest) = split_at k prog h in
      scheme_suc prog pro f chain k s h there (visit_lem f false s.first_node (calls k s there))
  visit_lem f chain (take_node from to p) h =
      λ tail fs sound fuel. (_, refl, leaf-Visited prog pro chain _ tail _ fs refl tt sound)
  visit_lem f chain (constant v p) h =
      λ tail fs sound fuel. (_, refl, leaf-Visited prog pro chain _ tail _ fs refl tt sound)
  visit_lem f chain (string_constant s p) h =
      λ tail fs sound fuel. (_, refl, leaf-Visited prog pro chain _ tail _ fs refl tt sound)

-- Every basic function of the node works on its argument tuple.
abbrev pub HasLocals : Node → Type 0
HasLocals (function fn long name p) = IsLocal fn
HasLocals (parallel long l r) = HasLocals l × HasLocals r
HasLocals (sequential long l r) = HasLocals l × HasLocals r
HasLocals (condition long c t e) = HasLocals c × HasLocals t × HasLocals e
HasLocals (scheme k) = Unit
HasLocals (take_node from to p) = Unit
HasLocals (constant v p) = Unit
HasLocals (string_constant s p) = Unit

-- No entry is open.
abbrev pub IsComplete : Functions → Type 0
IsComplete funs = (k : ℕ) → find_fun funs k ≢ some null

-- When the node and the program's schemes call only schemes of the program, `generate` ends, with
-- the code of the node and a table that has an entry for every scheme that the node calls, and in
-- which every entry is the finished code of its scheme and calls only schemes with an entry.
pub generate_lem :
    (prog : Program) (pro : Bool) (n : Node)
    → IsProgram prog
    → IsCalling prog n
    → (form : Form) × (funs : Functions) × (generate prog pro n ≡ ok (form, funs))
      × (form ≡ span prog pro false n end_op)
      × IsClosed funs n
      × IsSound prog pro funs
      × IsComplete funs
unfolding generate find_fun
generate_lem prog pro n calls h =
    let (r, e, v) =
      visit_lem prog pro calls (suc (length prog)) false n h end_op []
        (λ k body q. absurd (ground arith)) (omega (arith, missing-start (length prog))) in
    (r.0, r.1, e, v.code, v.closed, v.sound, λ k q. absurd (nothing k (v.keeps_open k q)))
  where
    nothing : (k : ℕ) → find_fun [] k ≢ some null
    nothing k q = ground arith

entry_filled :
    (funs : Functions) (k : ℕ)
    → IsComplete funs
    → (p : FormPtr) → find_fun funs k ≡ some p
    → (body : Form) × (find_fun funs k ≡ some (ref body))
entry_filled funs k full null e = absurd (full k e)
entry_filled funs k full (ref body) e = (body, e)

closed-IsLinked :
    (funs : Functions)
    → IsComplete funs
    → (n : Node) → IsClosed funs n
    → HasLocals n
    → IsLinked funs n
closed-IsLinked funs full (function fn long name p) c h = h
closed-IsLinked funs full (parallel long l r) (cl, cr) (hl, hr) =
    (closed-IsLinked funs full l cl hl, closed-IsLinked funs full r cr hr)
closed-IsLinked funs full (sequential long l r) (cl, cr) (hl, hr) =
    (closed-IsLinked funs full l cl hl, closed-IsLinked funs full r cr hr)
closed-IsLinked funs full (condition long c t e) (cc, ct, ce) (hc, ht, he) = (
  closed-IsLinked funs full c cc hc,
  closed-IsLinked funs full t ct ht,
  closed-IsLinked funs full e ce he,
)
closed-IsLinked funs full (scheme k) (p, e) h = entry_filled funs k full p e
closed-IsLinked funs full (take_node from to p) c h = tt
closed-IsLinked funs full (constant v p) c h = tt
closed-IsLinked funs full (string_constant s p) c h = tt

-- When the node and the program's schemes call only schemes of the program, and their basic
-- functions work on their argument tuple, then `generate` ends, and what it yields, run on one unit
-- without proactive tasks, ends with enough fuel with the tuple or the exception that the node
-- means.
pub generate-run_program :
    (prog : Program) (f : ℕ) (n : Node) (r : Result (List DataValue))
    → IsProgram prog
    → IsCalling prog n
    → ((k : ℕ) (s : FScheme) → get_elem? prog k ≡ some s → HasLocals s.first_node)
    → HasLocals n
    → eval prog f n [] ≡ r
    → r ≢ timeout
    → (form : Form) × (funs : Functions) × (generate prog false n ≡ ok (form, funs))
      × Settles (run_program funs form) r
generate-run_program prog f n r calls h locals here e not_timeout =
    let (form, funs, made, code, closed, sound, full) = generate_lem prog false n calls h in
    let table : IsTable prog funs = λ k body found.
      let (s, there, body_code, body_closed) = sound k body found in
      (
        s,
        there,
        body_code,
        closed-IsLinked funs full s.first_node body_closed (locals k s there),
      ) in
    (
      form,
      funs,
      made,
      subst (λ main. Settles (run_program funs main) r) (sym code)
          (run_program_lem prog funs table f n r (closed-IsLinked funs full n closed here) e
            not_timeout),
    )
