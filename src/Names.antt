-- ===== src/Names.antt =====
-- Source/Parser/Semantic.cpp, SemanticCheck.h: NamesChecker, which binds the names of a program to
-- what they stand for. Lists of the tree stand in the order in which the visitor takes them.
pub mod Bindings
pub mod Blocks
pub mod Whole
mod Tests
use text.Mathlib.Text.{◌==◌}
use fptl.Prelude.{
  ℕ, Bool, true, false, not, ◌&&◌, ◌||◌, Option, none, some, List, [], ◌∷◌, ◌++◌, get_last?,
  drop_last, if◌then◌else◌, String, fault, Result, ok, err, ◌>>=◌,
}
use fptl.Prelude.{◌==◌ as eq_ℕ}

-- A node that a name can stand for: the node, numParameters(), and whether it is a FunctionBlock.
pub record Target : Type 0 where
  pub target : ℕ
  pub parameters : ℕ
  pub is_function : Bool

-- STermDescriptor: a NameRefNode; `running` for a RunningSchemeName.
pub record TermDescriptor : Type 0 where
  pub term_name : String
  pub node : ℕ
  pub arguments : ℕ
  pub running : Bool

pub record LexicalContext : Type 0 where
  pub terms : List TermDescriptor
  pub definitions : List (String × Target)

pub data SemanticError : Type 0 where
  duplicate_definition missing_main_definition undefined_identifier : String → SemanticError
  undefined_scheme_name invalid_number_of_parameters : String → SemanticError

-- mContext and mContextStack, the errors of Support, and the `mTarget` that were set.
pub record NamesChecker : Type 0 where
  pub context : LexicalContext
  pub stack : List LexicalContext
  pub errors : List SemanticError
  pub targets : List (ℕ × ℕ)

-- The nodes by what the checker does with them. A function has the names of its nested functions
-- with their nodes, and whether it has an equation of its own name.
mutual
  pub data Tree : Type 0 where
    data_block : String → Target → Trees → Tree
    function_block : String → Target → List (String × Target) → Bool → Trees → Tree
    definition : String → Target → Trees → Tree
    constructor_definition : String → Target → Trees → Tree
    local_name : TermDescriptor → Trees → Tree
    type_name : TermDescriptor → Trees → Tree
    application_block : Trees → Tree
    other_node : Trees → Tree

  pub data Trees : Type 0 where
    no_trees : Trees
    tree_then : Tree → Trees → Trees

unfoldable pub find_name : String → List (String × Target) → Option Target
find_name name [] = none
find_name name ((own, t) ∷ defs) =
    let rest = find_name name defs in if own == name then some t else rest

-- `insertName`, where the name is bound or free: whether it was new, and the context after it.
unfoldable pub insert_where :
    Option Target → String → Target → LexicalContext → Bool × LexicalContext
insert_where (some bound) name t c = (false, c)
insert_where none name t c = (true, record c { definitions = (name, t) ∷ c.definitions })

unfoldable pub insert_name : String → Target → LexicalContext → Bool × LexicalContext
unfolding find_name insert_where
insert_name name t c = insert_where (find_name name c.definitions) name t c

unfoldable pub report : SemanticError → NamesChecker → NamesChecker
report e s = record s { errors = s.errors ++ e ∷ [] }

-- A definition in the current context, with an error where the name is taken
unfoldable pub define : String → Target → NamesChecker → NamesChecker
unfolding insert_name report
define name t s =
    let (new, c) = insert_name name t s.context in
    let t = record s { context = c } in if new then t else report (duplicate_definition name) t

unfoldable pub define_all : List (String × Target) → NamesChecker → NamesChecker
unfolding define
define_all [] s = s
define_all ((name, t) ∷ rest) s = define_all rest (define name t s)

-- A definition in mContextStack[0]
unfoldable pub define_below :
    List LexicalContext → String → Target → NamesChecker → Result NamesChecker
unfolding insert_name report
define_below [] name t s = err fault
define_below (global ∷ rest) name t s =
    let (new, c) = insert_name name t global in
    let next = record s { stack = c ∷ rest } in
    ok (if new then next else report (duplicate_definition name) next)

unfoldable pub define_global : String → Target → NamesChecker → Result NamesChecker
unfolding define_below
define_global name t s = define_below s.stack name t s

-- The three places where `checkName` looks
unfoldable pub in_global : String → List LexicalContext → Option Target
unfolding find_name
in_global name [] = none
in_global name (global ∷ rest) = find_name name global.definitions

unfoldable pub in_parent : String → List LexicalContext → Option Target
unfolding find_name in_global
in_parent name stack = elim (get_last? stack) [
  | none ↦ none
  | some parent ↦ elim (find_name name parent.definitions) [
    | some t ↦ some t
    | none ↦ in_global name stack
  ]
]

unfoldable pub look_up : String → NamesChecker → Option Target
unfolding find_name in_parent
look_up name s = elim (find_name name s.context.definitions) [
  | some t ↦ some t
  | none ↦ in_parent name s.stack
]

-- `checkName`, with what the name stands for
unfoldable pub check_found : Option Target → TermDescriptor → NamesChecker → NamesChecker
unfolding report
check_found none term s = report (undefined_identifier term.term_name) s
check_found (some t) term s =
    let scheme =
      if term.running && not t.is_function
      then report (undefined_scheme_name term.term_name) s
      else s in
    if eq_ℕ term.arguments t.parameters
    then record scheme { targets = scheme.targets ++ (term.node, t.target) ∷ [] }
    else report (invalid_number_of_parameters term.term_name) scheme

unfoldable pub check_name : TermDescriptor → NamesChecker → NamesChecker
unfolding look_up check_found
check_name term s = check_found (look_up term.term_name s) term s

unfoldable pub check_all : List TermDescriptor → NamesChecker → NamesChecker
unfolding check_name
check_all [] s = s
check_all (term ∷ rest) s = check_all rest (check_name term s)

-- `checkNames`
unfoldable pub check_names : NamesChecker → NamesChecker
unfolding check_all
check_names s = check_all s.context.terms s

unfoldable pub push_context : NamesChecker → NamesChecker
push_context s = record s {
  stack = s.stack ++ s.context ∷ [];
  context = record { terms = []; definitions = [] };
}

unfoldable pub pop_to : Option LexicalContext → NamesChecker → Result NamesChecker
pop_to none s = err fault
pop_to (some c) s = ok (record s { context = c; stack = drop_last s.stack })

unfoldable pub pop_context : NamesChecker → Result NamesChecker
unfolding pop_to
pop_context s = pop_to (get_last? s.stack) s

unfoldable pub add_term : TermDescriptor → LexicalContext → LexicalContext
add_term term c = record c { terms = c.terms ++ term ∷ [] }

unfoldable pub add_below : List LexicalContext → TermDescriptor → NamesChecker → Result NamesChecker
unfolding add_term
add_below [] term s = err fault
add_below (global ∷ rest) term s = ok (record s { stack = add_term term global ∷ rest })

unfoldable pub add_global_term : TermDescriptor → NamesChecker → Result NamesChecker
unfolding add_below
add_global_term term s = add_below s.stack term s

-- The main equation of a function is there, or an error is reported.
unfoldable pub check_main : String → Bool → NamesChecker → NamesChecker
unfolding report
check_main name true s = s
check_main name false s = report (missing_main_definition name) s

unfoldable mutual
  unfolding define insert_name define_all define_global check_names push_context pop_context
      add_term add_global_term check_main

  pub handle : Tree → NamesChecker → Result NamesChecker
  handle (data_block name t children) s = do
    inner ← handle_all children (push_context (define name t s))
    pop_context (check_names inner)
  handle (function_block name t nested main children) s = do
    inner ←
        handle_all children (
          define_all nested
            (push_context (record s { context = (insert_name name t s.context).1 })))
    pop_context (check_names (check_main name main inner))
  handle (definition name t children) s = handle_all children (define name t s)
  handle (constructor_definition name t children) s = do
    next ← define_global name t s
    handle_all children next
  handle (local_name term children) s =
      handle_all children (record s { context = add_term term s.context })
  handle (type_name term children) s = do next ← add_global_term term s; handle_all children next
  handle (application_block children) s = do inner ← handle_all children s; ok (check_names inner)
  handle (other_node children) s = handle_all children s

  pub handle_all : Trees → NamesChecker → Result NamesChecker
  handle_all no_trees s = ok s
  handle_all (tree_then t ts) s = do next ← handle t s; handle_all ts next
