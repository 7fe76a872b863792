-- ===== src/Names/Whole.antt =====
-- Source/Parser/Semantic.cpp: the checker on whole trees.
use fptl.Prelude.{refl, ap, List, Result, ok, ◌>>=◌}
use fptl.Names.{
  LexicalContext, NamesChecker, Tree, data_block, function_block, definition,
  constructor_definition, local_name, type_name, application_block, other_node, Trees, no_trees,
  tree_then, insert_name, define, define_all, define_global, check_names, add_term, add_global_term,
  check_main, handle, handle_all,
}
use fptl.Names.Bindings.{
  KeepsAll, KeepsAll-refl, Extends, Extends-refl, Extends-trans, better-Extends, insert_name-Keeps,
  define-Extends, define_all-Extends, check_names-Extends, check_main-Extends,
}
use fptl.Names.Blocks.{
  HasGlobal, HasGlobal-kept, Handled, enclosed, define_below-Handled, add_below-Handled,
  then-Handled,
}

-- Types and constructors stand inside a block, where there is a global context below.
unfoldable mutual
  pub IsInside : Tree → List LexicalContext → Type 0
  IsInside (data_block name t children) stack = Unit
  IsInside (function_block name t nested main children) stack = Unit
  IsInside (definition name t children) stack = IsInsideAll children stack
  IsInside (constructor_definition name t children) stack = HasGlobal stack
  IsInside (local_name term children) stack = IsInsideAll children stack
  IsInside (type_name term children) stack = HasGlobal stack
  IsInside (application_block children) stack = IsInsideAll children stack
  IsInside (other_node children) stack = IsInsideAll children stack

  pub IsInsideAll : Trees → List LexicalContext → Type 0
  IsInsideAll no_trees stack = Unit
  IsInsideAll (tree_then t ts) stack = IsInside t stack × IsInsideAll ts stack

mutual
  unfolding IsInside

  IsInside-kept :
      (t : Tree) (cs ds : List LexicalContext) → IsInside t cs → KeepsAll cs ds → IsInside t ds
  IsInside-kept (data_block name x children) cs ds h k = tt
  IsInside-kept (function_block name x nested main children) cs ds h k = tt
  IsInside-kept (definition name x children) cs ds h k = IsInsideAll-kept children cs ds h k
  IsInside-kept (constructor_definition name x children) cs ds h k = HasGlobal-kept cs ds h k
  IsInside-kept (local_name term children) cs ds h k = IsInsideAll-kept children cs ds h k
  IsInside-kept (type_name term children) cs ds h k = HasGlobal-kept cs ds h k
  IsInside-kept (application_block children) cs ds h k = IsInsideAll-kept children cs ds h k
  IsInside-kept (other_node children) cs ds h k = IsInsideAll-kept children cs ds h k

  IsInsideAll-kept :
      (ts : Trees) (cs ds : List LexicalContext)
      → IsInsideAll ts cs
      → KeepsAll cs ds
      → IsInsideAll ts ds
  IsInsideAll-kept no_trees cs ds h k = tt
  IsInsideAll-kept (tree_then t ts) cs ds (h, hs) k =
      (IsInside-kept t cs ds h k, IsInsideAll-kept ts cs ds hs k)

mutual
  unfolding IsInside

  IsInside-global : (t : Tree) (cs : List LexicalContext) → HasGlobal cs → IsInside t cs
  IsInside-global (data_block name x children) cs h = tt
  IsInside-global (function_block name x nested main children) cs h = tt
  IsInside-global (definition name x children) cs h = IsInsideAll-global children cs h
  IsInside-global (constructor_definition name x children) cs h = h
  IsInside-global (local_name term children) cs h = IsInsideAll-global children cs h
  IsInside-global (type_name term children) cs h = h
  IsInside-global (application_block children) cs h = IsInsideAll-global children cs h
  IsInside-global (other_node children) cs h = IsInsideAll-global children cs h

  IsInsideAll-global : (ts : Trees) (cs : List LexicalContext) → HasGlobal cs → IsInsideAll ts cs
  IsInsideAll-global no_trees cs h = tt
  IsInsideAll-global (tree_then t ts) cs h = (IsInside-global t cs h, IsInsideAll-global ts cs h)

-- A part that is handled after a change
Handled-from :
    (r : Result NamesChecker) (s t : NamesChecker) → Extends s t → Handled r t → Handled r s
Handled-from r s t h (u, e, k) = (u, e, Extends-trans s t u h k)

mutual
  unfolding handle IsInside define_global add_global_term add_term

  Handled-one : (tree : Tree) (s : NamesChecker) → IsInside tree s.stack → Handled (handle tree s) s
  Handled-one (data_block name t children) s h =
      Handled-from (handle (data_block name t children) s) s (define name t s)
        (define-Extends name t s)
        (enclosed children (λ r. r) check_names (define name t s) Extends-refl check_names-Extends
          (λ r has. Handled-all children r (IsInsideAll-global children r.stack has)))
  Handled-one (function_block name t nested main children) s h =
      let own = record s { context = (insert_name name t s.context).1 } in
      Handled-from (handle (function_block name t nested main children) s) s own
        (better-Extends s (insert_name name t s.context).1 s.stack
          (insert_name-Keeps name t s.context) (KeepsAll-refl s.stack))
        (enclosed children (define_all nested) (λ r. check_names (check_main name main r)) own
          (define_all-Extends nested)
          (λ r.
            Extends-trans r (check_main name main r) (check_names (check_main name main r))
              (check_main-Extends name main r) (check_names-Extends (check_main name main r)))
          (λ r has. Handled-all children r (IsInsideAll-global children r.stack has)))
  Handled-one (definition name t children) s h =
      Handled-from (handle_all children (define name t s)) s (define name t s)
        (define-Extends name t s)
        (Handled-all children (define name t s) (
          IsInsideAll-kept children s.stack (define name t s).stack h
            (define-Extends name t s).stack))
  Handled-one (constructor_definition name t children) s h =
      then-Handled (define_global name t s) (handle_all children) s
        (define_below-Handled s.stack name t s refl h)
        (λ r k.
          Handled-all children r
            (IsInsideAll-global children r.stack (HasGlobal-kept s.stack r.stack h k.stack)))
  Handled-one (local_name term children) s h =
      let next = record s { context = add_term term s.context } in
      Handled-from (handle_all children next) s next
        (better-Extends s (add_term term s.context) s.stack (λ x u f. f) (KeepsAll-refl s.stack))
        (Handled-all children next h)
  Handled-one (type_name term children) s h =
      then-Handled (add_global_term term s) (handle_all children) s
        (add_below-Handled s.stack term s refl h)
        (λ r k.
          Handled-all children r
            (IsInsideAll-global children r.stack (HasGlobal-kept s.stack r.stack h k.stack)))
  Handled-one (application_block children) s h =
      let (t, e, k) = Handled-all children s h in
      (
        check_names t,
        ap (λ (r : Result NamesChecker). r >>= λ x. ok (check_names x)) e,
        Extends-trans s t (check_names t) k (check_names-Extends t),
      )
  Handled-one (other_node children) s h = Handled-all children s h

  Handled-all :
      (ts : Trees) (s : NamesChecker) → IsInsideAll ts s.stack → Handled (handle_all ts s) s
  Handled-all no_trees s h = (s, refl, Extends-refl s)
  Handled-all (tree_then t ts) s (h, hs) =
      then-Handled (handle t s) (handle_all ts) s (Handled-one t s h)
        (λ r k. Handled-all ts r (IsInsideAll-kept ts s.stack r.stack hs k.stack))

-- The checker ends on every tree whose types and constructors stand inside a block. Afterwards there
-- are as many contexts as before, every name in each of them stands for what it stood for, also
-- where it was defined again, and neither an error that was reported nor a name that was bound is
-- forgotten.
pub handle-Handled :
    (tree : Tree) (s : NamesChecker) → IsInside tree s.stack → Handled (handle tree s) s
handle-Handled = Handled-one
