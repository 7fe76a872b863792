-- ===== src/Names/Tests.antt =====
-- Source/Parser/Semantic.cpp at a small program.
use fptl.Prelude.{ℕ, ◌≡◌, refl, Bool, true, false, List, [], ◌∷◌, String, Result, ok}
use fptl.Names.{
  Target, TermDescriptor, SemanticError, NamesChecker, Tree, data_block, function_block, definition,
  constructor_definition, local_name, type_name, application_block, Trees, no_trees, tree_then,
  find_name, insert_where, insert_name, report, define, define_all, define_below, define_global,
  in_global, in_parent, look_up, check_found, check_name, check_all, check_names, push_context,
  pop_to, pop_context, add_term, add_below, add_global_term, check_main, handle, handle_all,
}
use fptl.Names.Blocks.{Handled}
use fptl.Names.Whole.{IsInside, handle-Handled}

abbrev node : ℕ → Bool → Target
node n is_function = record { target = n; parameters = 0; is_function = is_function }

abbrev name_of : String → ℕ → TermDescriptor
name_of name n = record { term_name = name; node = n; arguments = 0; running = false }

-- data List { List = Int * List.cons ++ nil; }
abbrev list_block : Tree
list_block = data_block "List" (node 1 false) (
    tree_then
      (constructor_definition "cons" (node 2 false)
        (tree_then (type_name (name_of "List" 10) no_trees) no_trees))
      (tree_then (constructor_definition "nil" (node 3 false) no_trees) no_trees))

-- scheme Main { Main = Step.cons; Step = Step.Missing; Step = nil; }
abbrev main_block : Tree
main_block = function_block "Main" (node 4 true) [] true (
    tree_then
      (definition "Main" (node 5 false) (
        tree_then (local_name (name_of "Step" 11) no_trees)
          (tree_then (local_name (name_of "cons" 12) no_trees) no_trees)))
      (tree_then
        (definition "Step" (node 6 false) (
          tree_then (local_name (name_of "Step" 13) no_trees)
            (tree_then (local_name (name_of "Missing" 14) no_trees) no_trees)))
        (tree_then
          (definition "Step" (node 7 false)
            (tree_then (local_name (name_of "nil" 15) no_trees) no_trees))
          no_trees)))

abbrev nothing : NamesChecker
nothing = record {
  context = record { terms = []; definitions = [] };
  stack = [];
  errors = [];
  targets = [];
}

abbrev program : Trees
program =
    tree_then list_block (tree_then main_block (tree_then (application_block no_trees) no_trees))

abbrev errors_of : Result NamesChecker → List SemanticError
errors_of (ok s) = s.errors
errors_of _ = []

abbrev targets_of : Result NamesChecker → List (ℕ × ℕ)
targets_of (ok s) = s.targets
targets_of _ = []

program_errors :
    errors_of (handle_all program nothing)
    ≡ SemanticError.duplicate_definition "Step" ∷ SemanticError.undefined_identifier "Missing" ∷ []
unfolding handle define define_all define_global define_below insert_name insert_where find_name
    report in_global in_parent look_up check_found check_name check_all check_names push_context
    pop_to pop_context add_term add_below add_global_term check_main
program_errors = refl

program_targets :
    targets_of (handle_all program nothing) ≡ (11, 6) ∷ (12, 2) ∷ (13, 6) ∷ (15, 3) ∷ (10, 1) ∷ []
unfolding handle define define_all define_global define_below insert_name insert_where find_name
    report in_global in_parent look_up check_found check_name check_all check_names push_context
    pop_to pop_context add_term add_below add_global_term check_main
program_targets = refl

handle-Handled_example : Handled (handle main_block nothing) nothing
unfolding IsInside
handle-Handled_example = handle-Handled main_block nothing tt
