-- ===== src/Builder.antt =====
-- Source/FScheme/FSchemeGenerator.cpp: the generator of functional schemes on the expressions of the
-- syntax tree. The nodes under way stand on the stack mNodeStack, the newest first. A name that is
-- resolved stands in the tree with what it is resolved to: a definition that is not recursive with
-- its expression, and a function that is in mDefinitions with its scheme.
pub mod Rotation
pub mod Meaning
pub mod Made
pub mod Run
mod Tests
use fptl.Prelude.{
  ℕ, ◌&&◌, Bool, true, false, Option, none, some, List, [], ◌∷◌, if◌then◌else◌, String, fault,
  bad_access, Result, ok, err, ◌>>=◌,
}
use text.Mathlib.Text.{◌==◌ as eq_text}
use fptl.Prelude.Int.{ℤ, pos, negsuc, eqb_ℤ}
use fptl.Value.{DataValue, int, double}
use fptl.Scheme.{
  TFunction, Pos, Node, function, sequential, scheme, take_node, constant, string_constant, Program,
  parallel_node, sequential_node, condition_node,
}
use fptl.Ops.{Foreign}
use fptl.Adt.{TypeInfo, Constructor, exec_constructor, exec_destructor}
use fptl.Library.{create_boolean, get_function}

pub data Ast : Type 0 where
  int_constant : List ℕ → Pos → Ast
  real_constant : List ℕ → Pos → Ast
  text_constant : List ℕ → Pos → Ast
  truth_constant : Bool → Pos → Ast
  take_term : Option (List ℕ) → Option (List ℕ) → Pos → Ast
  built_in : String → Pos → Ast
  constructor_name : String → Pos → Ast
  destructor_name : String → Pos → Ast
  defined : Ast → Ast
  known : ℕ → Ast
  sequential_term : Ast → Ast → Ast
  composition_term : Ast → Ast → Ast
  condition_term : Ast → Ast → Ast
  choice_term : Ast → Ast → Ast → Ast

-- `mConstructors.at(name)`, from index `i` on
unfoldable pub constructor_at : ℕ → List Constructor → String → Result ℕ
constructor_at i [] name = err bad_access
constructor_at i (c ∷ ctors) name =
    let rest = constructor_at (ℕ.suc i) ctors name in
    if eq_text c.constructor_name name then ok i else rest

-- `mNodeStack.top()` and `pop()`
unfoldable pub pop : List Node → Result (Node × List Node)
pop [] = err fault
pop (n ∷ stack) = ok (n, stack)

-- The empty tuple for `from` and `to` both 0
unfoldable pub take_of : ℤ → ℤ → Pos → Node
take_of from to p =
    if eqb_ℤ from (pos 0) && eqb_ℤ to (pos 0)
    then take_node (pos 2) (pos 1) p
    else take_node from to p

-- A composition whose second part is one itself becomes one that branches to the left.
unfoldable pub sequential_of : Program → Node → Node → Node
sequential_of prog first (sequential long second third) =
    sequential_node prog (sequential_node prog first second) third
sequential_of prog first second = sequential_node prog first second

-- `handle(ExpressionNode *)` after the two parts are on the stack
unfoldable pub sequential_step : Program → List Node → Result (List Node)
unfolding pop sequential_of
sequential_step prog stack = do
  second ← pop stack
  first ← pop second.1
  ok (sequential_of prog first.0 second.0 ∷ first.1)

unfoldable pub composition_step : Program → List Node → Result (List Node)
unfolding pop
composition_step prog stack = do
  right ← pop stack
  left ← pop right.1
  ok (parallel_node prog left.0 right.0 ∷ left.1)

-- `handle(ConditionNode *)` after the parts are on the stack, with a third part or without
unfoldable pub condition_step : Program → Bool → List Node → Result (List Node)
unfolding pop
condition_step prog false stack = do
  then_branch ← pop stack
  predicate ← pop then_branch.1
  ok (condition_node prog predicate.0 then_branch.0 none ∷ predicate.1)
condition_step prog true stack = do
  then_branch ← pop stack
  else_branch ← pop then_branch.1
  predicate ← pop else_branch.1
  ok (condition_node prog predicate.0 then_branch.0 (some else_branch.0) ∷ predicate.1)

-- `processBuildInFunction`
unfoldable pub built_in_node : List (String × TFunction × Bool) → String → Pos → Node
built_in_node table name p = let (fn, long) = get_function table name in function fn long name p

-- The text of a position, or what stands for a missing one.
unfoldable pub position : Foreign → Option (List ℕ) → ℤ → Result ℤ
position cpp none default = ok default
position cpp (some text) default = cpp.cast_int text

module _ (cpp : Foreign) (table : List (String × TFunction × Bool)) (ctors : List Constructor)
    (array_type : ℕ → TypeInfo) (prog : Program) where
  -- `handle` of each class, for a stack of nodes. `prog` has the schemes that exist.
  unfoldable pub handle : Ast → List Node → Result (List Node)
  unfolding constructor_at take_of position sequential_step composition_step condition_step
      built_in_node
  handle (int_constant text p) stack = do z ← cpp.cast_int text; ok (constant (int z) p ∷ stack)
  handle (real_constant text p) stack = do
    x ← cpp.cast_double text
    ok (constant (double x) p ∷ stack)
  handle (text_constant text p) stack = ok (string_constant text p ∷ stack)
  handle (truth_constant b p) stack = ok (constant (create_boolean b) p ∷ stack)
  handle (take_term from to p) stack = do
    a ← position cpp from (pos 1)
    b ← position cpp to (negsuc 0)
    ok (take_of a b p ∷ stack)
  handle (built_in name p) stack = ok (built_in_node table name p ∷ stack)
  handle (constructor_name name p) stack = do
    k ← constructor_at 0 ctors name
    ok (function (exec_constructor ctors array_type k) false name p ∷ stack)
  handle (destructor_name name p) stack = do
    k ← constructor_at 0 ctors name
    ok (function (exec_destructor ctors array_type k) false (String.◌∷◌ "~" name) p ∷ stack)
  handle (defined body) stack = handle body stack
  handle (known k) stack = ok (scheme k ∷ stack)
  handle (sequential_term l r) stack = do
    one ← handle l stack
    two ← handle r one
    sequential_step prog two
  handle (composition_term l r) stack = do
    one ← handle l stack
    two ← handle r one
    composition_step prog two
  handle (condition_term c t) stack = do
    one ← handle c stack
    two ← handle t one
    condition_step prog false two
  handle (choice_term c t e) stack = do
    one ← handle c stack
    two ← handle e one
    three ← handle t two
    condition_step prog true three
