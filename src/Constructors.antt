-- ===== src/Constructors.antt =====
-- Source/FScheme/ConstructorGenerator.cpp: the constructors of the data blocks, from the syntax tree.
-- A list of the tree stands in the order of mChilds, which is the source text's from the end, and a
-- visitor takes it from the last child on (Source/Parser/NodeVisitor.cpp).
pub mod Declared
pub mod Whole
pub mod Lookup
mod Tests
use text.Mathlib.Text.{◌==◌}
use fptl.Prelude.{
  Bool, true, false, List, [], ◌∷◌, ◌++◌, if◌then◌else◌, String, fault, Result, ok, err, ◌>>=◌,
}
use fptl.Adt.{TypeInfo, info, TypeInfos, none_left, more, plain, Constructor, new_constructor}

-- A NameRefNode: a base type, a type or a type parameter; or a type with parameters, with the names
-- of the parameters of the data block that it refers to.
mutual
  pub data TypeTerm : Type 0 where
    simple_type : String → TypeTerm
    template : String → List String → TypeTerms → TypeTerm

  pub data TypeTerms : Type 0 where
    no_terms : TypeTerms
    one_more : TypeTerm → TypeTerms → TypeTerms

-- TypeConstructorDefinition
pub record ConstructorDef : Type 0 where
  pub constructor_name : String
  pub parameters : TypeTerms

-- The right side of a TypeDefinition
pub data TypeExpression : Type 0 where
  alternative : ConstructorDef → TypeExpression
  union : ConstructorDef → TypeExpression → TypeExpression

-- DataNode; `old_constructors` has the parameters of the constructors in the older form.
pub record DataNode : Type 0 where
  pub data_name : String
  pub old_constructors : List TypeTerms
  pub type_parameters : List String
  pub type_defs : List TypeExpression

-- ConstructorGenerator: mConstructors, mTypeTuple, mStack and mTypeParameters. The map is the list
-- of its constructors, whose names differ.
pub record ConstructorGenerator : Type 0 where
  pub constructors : List Constructor
  pub type_tuple : List TypeInfo
  pub stack : List (List TypeInfo)
  pub parameters : List String

-- The parameters of a template: `mTypeTuple[i]` for each
unfoldable pub bind_parameters : List String → List TypeInfo → Result TypeInfos
bind_parameters [] types = ok none_left
bind_parameters (p ∷ ps) [] = err fault
bind_parameters (p ∷ ps) (t ∷ types) = do
  rest ← bind_parameters ps types
  ok (more (info p (more t none_left)) rest)

unfoldable pub restore : TypeInfo → ConstructorGenerator → Result ConstructorGenerator
restore t g = elim g.stack [
  | [] ↦ err fault
  | saved ∷ rest ↦ ok (record g { type_tuple = saved ++ t ∷ []; stack = rest })
]

-- `handle(NameRefNode *)`
unfoldable mutual
  unfolding bind_parameters restore

  pub handle_type : TypeTerm → ConstructorGenerator → Result ConstructorGenerator
  handle_type (simple_type name) g = ok (record g { type_tuple = g.type_tuple ++ plain name ∷ [] })
  handle_type (template name params args) g = do
    inner ← handle_types args (record g { type_tuple = []; stack = g.type_tuple ∷ g.stack })
    bound ← bind_parameters params inner.type_tuple
    restore (info name bound) inner

  pub handle_types : TypeTerms → ConstructorGenerator → Result ConstructorGenerator
  handle_types no_terms g = ok g
  handle_types (one_more t ts) g = do later ← handle_types ts g; handle_type t later

-- `mConstructors.insert(...)`, which keeps an entry that is there
unfoldable pub insert : Constructor → List Constructor → List Constructor
insert c [] = c ∷ []
insert c (d ∷ ctors) =
    let rest = insert c ctors in
    if d.constructor_name == c.constructor_name then d ∷ ctors else d ∷ rest

-- The constructor of a definition; EmptyConstructor for an empty tuple
unfoldable pub constructor_of : String → String → List TypeInfo → List String → Constructor
unfolding new_constructor
constructor_of name data_name [] params = new_constructor name data_name [] []
constructor_of name data_name (t ∷ types) params = new_constructor name data_name (t ∷ types) params

-- `handle(DefinitionNode *)` for a TypeConstructorDefinition
unfoldable pub handle_constructor :
    String → ConstructorDef → ConstructorGenerator → Result ConstructorGenerator
unfolding handle_types insert constructor_of
handle_constructor data_name def g = do
  h ← handle_types def.parameters g
  ok (record h {
    constructors =
        insert (constructor_of def.constructor_name data_name h.type_tuple h.parameters)
          h.constructors;
    type_tuple = [];
  })

-- `handle(ExpressionNode *)` of NodeVisitor
unfoldable pub handle_expression :
    String → TypeExpression → ConstructorGenerator → Result ConstructorGenerator
unfolding handle_constructor
handle_expression data_name (alternative def) g = handle_constructor data_name def g
handle_expression data_name (union def rest) g = do
  h ← handle_constructor data_name def g
  handle_expression data_name rest h

-- `handle(ListNode *)` for the lists of a data block
unfoldable pub handle_old : List TypeTerms → ConstructorGenerator → Result ConstructorGenerator
unfolding handle_types
handle_old [] g = ok g
handle_old (ts ∷ rest) g = do h ← handle_old rest g; handle_types ts h

unfoldable pub handle_parameters : List String → ConstructorGenerator → ConstructorGenerator
handle_parameters [] g = g
handle_parameters (p ∷ ps) g =
    let h = handle_parameters ps g in record h { parameters = h.parameters ++ p ∷ [] }

unfoldable pub handle_defs :
    String → List TypeExpression → ConstructorGenerator → Result ConstructorGenerator
unfolding handle_expression
handle_defs data_name [] g = ok g
handle_defs data_name (e ∷ rest) g = do
  h ← handle_defs data_name rest g
  handle_expression data_name e h

-- `handle(DataNode *)`
unfoldable pub handle_data : DataNode → ConstructorGenerator → Result ConstructorGenerator
unfolding handle_old handle_parameters handle_defs
handle_data node g = do
  h ← handle_old node.old_constructors g
  k ← handle_defs node.data_name node.type_defs (handle_parameters node.type_parameters h)
  ok (record k { parameters = [] })

unfoldable pub handle_blocks : List DataNode → ConstructorGenerator → Result ConstructorGenerator
unfolding handle_data
handle_blocks [] g = ok g
handle_blocks (d ∷ rest) g = do h ← handle_blocks rest g; handle_data d h

-- The constructor, and `work`
abbrev pub new_generator : ConstructorGenerator
new_generator = record { constructors = []; type_tuple = []; stack = []; parameters = [] }

unfoldable pub work : List DataNode → Result ConstructorGenerator
unfolding handle_blocks
work blocks = handle_blocks blocks new_generator
