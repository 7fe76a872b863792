-- ===== src/Builder/Made.antt =====
-- Source/FScheme/FSchemeGenerator.cpp: the node that the generator makes for an expression.
use fptl.Prelude.{
  ℕ, ◌≡◌, refl, ◌∙◌, ◌&&◌, Bool, true, false, Bool-cases, inl, inr, none, some, List, ◌∷◌, ◌++◌,
  String, located, ok, rethrow, ◌>>=◌,
}
use fptl.Prelude.Int.{ℤ, pos, eqb_ℤ}
use fptl.Value.{DataValue, int, double}
use fptl.Frame.{sub_size}
use fptl.Scheme.{
  TFunction, Pos, Node, function, scheme, constant, string_constant, Program, parallel_node,
  condition_node, push_undefined,
}
use fptl.Exec.Steps.{resolve}
use fptl.Semantics.{eval, apply, select, holds}
use fptl.Ops.{Foreign}
use fptl.Adt.{TypeInfo, Constructor, exec_constructor, exec_destructor}
use fptl.Library.{create_boolean, get_function}
use fptl.Correct.Measure.{IsCalling}
use fptl.Library.Source.{IsBuilt}
use fptl.Builder.Rotation.{eval-sequential_of, sequential_of-IsBuilt, sequential_of-IsCalling}
use fptl.Builder.{
  Ast, int_constant, real_constant, text_constant, truth_constant, take_term, built_in,
  constructor_name, destructor_name, defined, known, sequential_term, composition_term,
  condition_term, choice_term, take_of, sequential_of, handle,
}
use fptl.Builder.Meaning.{positions, mean, IsReadable}

module _ (cpp : Foreign) (table : List (String × TFunction × Bool)) (ctors : List Constructor)
    (array_type : ℕ → TypeInfo) (prog : Program) where
  eval-take_of :
      (a b : ℤ) (p : Pos) (f : ℕ) (vs : List DataValue)
      → eval prog f (take_of a b p) vs ≡ positions cpp table ctors array_type prog a b p vs
  unfolding take_of eval select resolve sub_size
  eval-take_of a b p f vs = elim (Bool-cases (eqb_ℤ a (pos 0) && eqb_ℤ b (pos 0))) [
    | inl both ↦ rw both refl
    | inr other ↦ rw other refl
  ]

  take_of-IsBuilt : (a b : ℤ) (p : Pos) → IsBuilt ctors array_type table (take_of a b p)
  unfolding take_of
  take_of-IsBuilt a b p = elim (Bool-cases (eqb_ℤ a (pos 0) && eqb_ℤ b (pos 0))) [
    | inl both ↦ rw both tt
    | inr other ↦ rw other tt
  ]

  take_of-IsCalling : (a b : ℤ) (p : Pos) → IsCalling prog (take_of a b p)
  unfolding take_of
  take_of-IsCalling a b p = elim (Bool-cases (eqb_ℤ a (pos 0) && eqb_ℤ b (pos 0))) [
    | inl both ↦ rw both tt
    | inr other ↦ rw other tt
  ]

  -- What is made for an expression on a stack.
  pub record Made (ast : Ast) (stack : List Node) : Type 0 where
    pub node : Node
    pub pushed : handle cpp table ctors array_type prog ast stack ≡ ok (node ∷ stack)
    pub means :
        (f : ℕ) (vs : List DataValue)
        → eval prog f node vs ≡ mean cpp table ctors array_type prog f ast vs
    pub built : IsBuilt ctors array_type table node
    pub calls : IsCalling prog node

  pub made :
      (ast : Ast) (stack : List Node)
      → IsReadable cpp table ctors array_type prog ast
      → Made ast stack
  unfolding handle mean eval parallel_node condition_node
  made (int_constant text p) stack (z, e) = record {
    node = constant (int z) p;
    pushed = rw e refl;
    means = λ f vs. rw e refl;
    built = tt;
    calls = tt;
  }
  made (real_constant text p) stack (x, e) = record {
    node = constant (double x) p;
    pushed = rw e refl;
    means = λ f vs. rw e refl;
    built = tt;
    calls = tt;
  }
  made (text_constant text p) stack h = record {
    node = string_constant text p;
    pushed = refl;
    means = λ f vs. refl;
    built = tt;
    calls = tt;
  }
  made (truth_constant b p) stack h = record {
    node = constant (create_boolean b) p;
    pushed = refl;
    means = λ f vs. refl;
    built = tt;
    calls = tt;
  }
  made (take_term from to p) stack ((a, ea), (b, eb)) = record {
    node = take_of a b p;
    pushed = rw (ea, eb) refl;
    means = λ f vs. rw (ea, eb) (eval-take_of a b p f vs);
    built = take_of-IsBuilt a b p;
    calls = take_of-IsCalling a b p;
  }
  made (built_in name p) stack h = record {
    node = function (get_function table name).0 (get_function table name).1 name p;
    pushed = refl;
    means = λ f vs. refl;
    built = inl refl;
    calls = tt;
  }
  made (constructor_name name p) stack (k, e) = record {
    node = function (exec_constructor ctors array_type k) false name p;
    pushed = rw e refl;
    means = λ f vs. rw e refl;
    built = inr (inl (k, refl));
    calls = tt;
  }
  made (destructor_name name p) stack (k, e) = record {
    node = function (exec_destructor ctors array_type k) false (String.◌∷◌ "~" name) p;
    pushed = rw e refl;
    means = λ f vs. rw e refl;
    built = inr (inr (inl (k, refl)));
    calls = tt;
  }
  made (defined body) stack h =
      let m = made body stack h in
      record { node = m.node; pushed = m.pushed; means = m.means; built = m.built; calls = m.calls }
  made (known k) stack h = record {
    node = scheme k;
    pushed = refl;
    means = λ f vs. refl;
    built = tt;
    calls = h;
  }
  made (sequential_term l r) stack (hl, hr) =
      let a = made l stack hl in
      let b = made r (a.node ∷ stack) hr in
      record {
        node = sequential_of prog a.node b.node;
        pushed = rw (a.pushed, b.pushed) refl;
        means = λ f vs.
            eval-sequential_of prog a.node b.node f vs
            ∙ (λ i. a.means f vs i >>= λ ws. b.means f ws i);
        built = sequential_of-IsBuilt prog ctors array_type table a.node b.node a.built b.built;
        calls = sequential_of-IsCalling prog a.node b.node a.calls b.calls;
      }
  made (composition_term l r) stack (hl, hr) =
      let a = made l stack hl in
      let b = made r (a.node ∷ stack) hr in
      record {
        node = parallel_node prog a.node b.node;
        pushed = rw (a.pushed, b.pushed) refl;
        means = λ f vs. λ i. a.means f vs i >>= λ us. b.means f vs i >>= λ ws. ok (us ++ ws);
        built = (a.built, b.built);
        calls = (a.calls, b.calls);
      }
  made (condition_term c t) stack (hc, ht) =
      let a = made c stack hc in
      let b = made t (a.node ∷ stack) ht in
      record {
        node = condition_node prog a.node b.node none;
        pushed = rw (a.pushed, b.pushed) refl;
        means = λ f vs. λ i. a.means f vs i >>= λ q. elim (holds q) [
          | true ↦ b.means f vs i
          | false ↦ rethrow (located (0, 0) "") (apply push_undefined vs)
        ];
        built = (a.built, b.built, inr (inr (inr refl)));
        calls = (a.calls, b.calls, tt);
      }
  made (choice_term c t e) stack (hc, ht, he) =
      let a = made c stack hc in
      let d = made e (a.node ∷ stack) he in
      let b = made t (d.node ∷ a.node ∷ stack) ht in
      record {
        node = condition_node prog a.node b.node (some d.node);
        pushed = rw (a.pushed, d.pushed, b.pushed) refl;
        means = λ f vs. λ i. a.means f vs i >>= λ q. elim (holds q) [
          | true ↦ b.means f vs i
          | false ↦ d.means f vs i
        ];
        built = (a.built, b.built, d.built);
        calls = (a.calls, b.calls, d.calls);
      }

  -- On every expression whose numbers can be read, whose constructors are declared and whose known
  -- functions have schemes, the generator ends with one node more on the stack, and the node means,
  -- for every fuel and tuple, what the expression means.
  pub handle_lem :
      (ast : Ast) (stack : List Node)
      → IsReadable cpp table ctors array_type prog ast
      → (node : Node) × (handle cpp table ctors array_type prog ast stack ≡ ok (node ∷ stack))
        × ((f : ℕ) (vs : List DataValue)
            → eval prog f node vs ≡ mean cpp table ctors array_type prog f ast vs)
  handle_lem ast stack h = let m = made ast stack h in (m.node, m.pushed, m.means)
