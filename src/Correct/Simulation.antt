-- ===== src/Correct/Simulation.antt =====
-- Source/InternalForm/Generator.cpp: the code of a scheme and the meaning of the scheme, by induction
-- on the node, for a unit that works without proactive tasks.
use fptl.Prelude.{ℕ, zero, suc, ◌≡◌, Bool, true, false, some, get_elem?}
use fptl.Scheme.{
  Node, function, parallel, sequential, condition, scheme, take_node, constant, string_constant,
  FScheme, Program,
}
use fptl.Form.{Form, ref, ret}
use fptl.Exec.Steps.{Functions, find_fun}
use fptl.Semantics.{IsLocal}
use fptl.Generator.{span}
use fptl.Correct.Goal.{Simulates}
use fptl.Correct.Cases.{
  parallel_case, sequential_case, sequential_whole, condition_case, chain_case, function_case,
  take_case, constant_case, string_case, scheme_zero, scheme_case,
}

-- Every basic function of the node works on its argument tuple, and every scheme that it calls has
-- a body in the table.
abbrev pub IsLinked : Functions → Node → Type 0
IsLinked funs (function fn long name p) = IsLocal fn
IsLinked funs (parallel long l r) = IsLinked funs l × IsLinked funs r
IsLinked funs (sequential long l r) = IsLinked funs l × IsLinked funs r
IsLinked funs (condition long c t e) = IsLinked funs c × IsLinked funs t × IsLinked funs e
IsLinked funs (scheme k) = (body : Form) × (find_fun funs k ≡ some (ref body))
IsLinked funs (take_node from to p) = Unit
IsLinked funs (constant v p) = Unit
IsLinked funs (string_constant s p) = Unit

-- The table's bodies are the code of the program's schemes.
abbrev pub IsTable : Program → Functions → Type 0
IsTable prog funs =
    (k : ℕ) (body : Form)
    → find_fun funs k ≡ some (ref body)
    → (s : FScheme) × (get_elem? prog k ≡ some s)
      × (body ≡ span prog false false s.first_node ret)
      × IsLinked funs s.first_node

module _ (prog : Program) (funs : Functions) (table : IsTable prog funs) where
  -- Within a chain and outside, the code of a node does what the node means.
  pub simulate : (f : ℕ) (chain : Bool) (n : Node) → IsLinked funs n → Simulates prog funs f chain n
  unfolding span
  simulate f false (function fn long name p) h = function_case prog funs f fn long name p h
  simulate f false (parallel long l r) (hl, hr) =
      parallel_case prog funs f long l r (simulate f false l hl) (simulate f false r hr)
  simulate f false (sequential long l r) (hl, hr) =
      sequential_whole prog funs f long l r
        (sequential_case prog funs f long l r (simulate f true l hl) (simulate f false r hr))
  simulate f false (condition long c t e) (hc, ht, he) =
      condition_case prog funs f long c t e (simulate f false c hc) (simulate f false t ht)
        (simulate f false e he)
  simulate zero false (scheme k) h = scheme_zero prog funs k
  simulate (suc f) false (scheme k) (body, found) =
      let (s, there, code, linked) = table k body found in
      scheme_case prog funs f k s body found there code (simulate f false s.first_node linked)
  simulate f false (take_node from to p) h = take_case prog funs f from to p
  simulate f false (constant v p) h = constant_case prog funs f v p
  simulate f false (string_constant s p) h = string_case prog funs f s p
  simulate f true (function fn long name p) h = λ tail ctx u act z.
      chain_case prog funs f (function fn long name p) tail ctx u z
        (function_case prog funs f fn long name p h tail ctx u act tt)
  simulate f true (parallel long l r) (hl, hr) = λ tail ctx u act z.
      chain_case prog funs f (parallel long l r) tail ctx u z (
        parallel_case prog funs f long l r (simulate f false l hl) (simulate f false r hr) tail ctx
          u act tt)
  simulate f true (sequential long l r) (hl, hr) =
      sequential_case prog funs f long l r (simulate f true l hl) (simulate f false r hr)
  simulate f true (condition long c t e) (hc, ht, he) = λ tail ctx u act z.
      chain_case prog funs f (condition long c t e) tail ctx u z (
        condition_case prog funs f long c t e (simulate f false c hc) (simulate f false t ht)
          (simulate f false e he) tail ctx u act tt)
  simulate zero true (scheme k) h = λ tail ctx u act z.
      chain_case prog funs zero (scheme k) tail ctx u z (scheme_zero prog funs k tail ctx u act tt)
  simulate (suc f) true (scheme k) (body, found) =
      let (s, there, code, linked) = table k body found in
      λ tail ctx u act z. chain_case prog funs (suc f) (scheme k) tail ctx u z (
        scheme_case prog funs f k s body found there code (simulate f false s.first_node linked)
          tail ctx u act tt)
  simulate f true (take_node from to p) h = λ tail ctx u act z.
      chain_case prog funs f (take_node from to p) tail ctx u z
        (take_case prog funs f from to p tail ctx u act tt)
  simulate f true (constant v p) h = λ tail ctx u act z.
      chain_case prog funs f (constant v p) tail ctx u z
        (constant_case prog funs f v p tail ctx u act tt)
  simulate f true (string_constant s p) h = λ tail ctx u act z.
      chain_case prog funs f (string_constant s p) tail ctx u z
        (string_case prog funs f s p tail ctx u act tt)
