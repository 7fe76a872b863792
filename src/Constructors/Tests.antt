-- ===== src/Constructors/Tests.antt =====
-- Source/FScheme/ConstructorGenerator.cpp at two data blocks.
use fptl.Prelude.{ℕ, ◌≡◌, refl, some, List, [], ◌∷◌, get_elem?, ok, ◌>>=◌}
use fptl.Adt.{info, none_left, more, plain, Constructor}
use fptl.Builder.{constructor_at}
use fptl.Constructors.{
  simple_type, template, no_terms, one_more, alternative, union, DataNode, ConstructorGenerator,
  work,
}
use fptl.Constructors.Declared.{applied, type_of, declared, declared_in, insert_all}
use fptl.Constructors.Whole.{declared_defs, declared_blocks, holding, work_lem}
use fptl.Constructors.Lookup.{first_named, constructor_at-work}

-- data List<'t> { List = 't * List<'t>.cons ++ nil; }
abbrev list_node : DataNode
list_node = record {
  data_name = "List";
  old_constructors = [];
  type_parameters = "'t" ∷ [];
  type_defs =
      union
        (record {
          constructor_name = "cons";
          parameters =
              one_more (template "List" ("'t" ∷ []) (one_more (simple_type "'t") no_terms))
                (one_more (simple_type "'t") no_terms);
        })
        (alternative (record { constructor_name = "nil"; parameters = no_terms }))
      ∷ [];
}

-- data Entry { Entry = Pair<Int, String>.entry; }, where Pair has the parameters 'k and 'v.
abbrev entry_node : DataNode
entry_node = record {
  data_name = "Entry";
  old_constructors = [];
  type_parameters = [];
  type_defs =
      alternative (record {
        constructor_name = "entry";
        parameters =
            one_more
              (template "Pair" ("'v" ∷ "'k" ∷ [])
                (one_more (simple_type "String") (one_more (simple_type "Int") no_terms)))
              no_terms;
      })
      ∷ [];
}

abbrev cons_constructor : Constructor
cons_constructor = record {
  constructor_name = "cons";
  reference_type =
      plain "'t" ∷ info "List" (more (info "'t" (more (plain "'t") none_left)) none_left) ∷ [];
  target_type = info "List" (more (info "'t" (more (plain "'t") none_left)) none_left);
}

-- The type that the program writes first is bound to the parameter that the block names last.
abbrev entry_constructor : Constructor
entry_constructor = record {
  constructor_name = "entry";
  reference_type =
      info "Pair" (
        more (info "'v" (more (plain "Int") none_left))
          (more (info "'k" (more (plain "String") none_left)) none_left))
      ∷ [];
  target_type = info "Entry" none_left;
}

abbrev nil_constructor : Constructor
nil_constructor = record {
  constructor_name = "nil";
  reference_type = [];
  target_type = info "List" none_left;
}

abbrev all_constructors : List Constructor
all_constructors = cons_constructor ∷ nil_constructor ∷ entry_constructor ∷ []

declares : declared_blocks (entry_node ∷ list_node ∷ []) ≡ ok all_constructors
unfolding declared_blocks declared_defs declared_in declared type_of applied
declares = refl

work_lem_example :
    work (entry_node ∷ list_node ∷ [])
    ≡ (declared_blocks (entry_node ∷ list_node ∷ []) >>= λ cs. ok (holding (insert_all cs [])))
work_lem_example = work_lem (entry_node ∷ list_node ∷ []) (refl, (refl, tt))

first-entry : first_named "entry" all_constructors ≡ some entry_constructor
unfolding first_named
first-entry = refl

constructor_at-work_example :
    (g : ConstructorGenerator) × (k : ℕ) × (work (entry_node ∷ list_node ∷ []) ≡ ok g)
    × (constructor_at 0 g.constructors "entry" ≡ ok k)
    × (get_elem? g.constructors k ≡ some entry_constructor)
constructor_at-work_example =
    constructor_at-work (entry_node ∷ list_node ∷ []) all_constructors "entry" entry_constructor
      (refl, (refl, tt)) declares first-entry
