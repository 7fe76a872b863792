-- ===== src/Constructors/Whole.antt =====
-- Source/FScheme/ConstructorGenerator.cpp: the constructors of all data blocks.
use fptl.Prelude.{
  ◌≡◌, refl, ap, ◌∙◌, List, [], ◌∷◌, ◌++◌, append-nil, append_assoc, String, Result, ok, err,
  timeout, ◌>>=◌,
}
use fptl.Adt.{Constructor}
use fptl.Constructors.{
  TypeTerms, TypeExpression, DataNode, ConstructorGenerator, insert, handle_expression, handle_old,
  handle_parameters, handle_defs, handle_data, handle_blocks, new_generator, work,
}
use fptl.Constructors.Declared.{declared_in, insert_all, with_constructors, handle_expression_lem}

-- A list of the tree in the order of the source text
abbrev pub source_order : List String → List String
source_order [] = []
source_order (p ∷ ps) = source_order ps ++ p ∷ []

unfoldable pub declared_defs :
    String → List String → List TypeExpression → Result (List Constructor)
unfolding declared_in
declared_defs data_name params [] = ok []
declared_defs data_name params (e ∷ rest) = do
  cs ← declared_defs data_name params rest
  ds ← declared_in data_name params e
  ok (cs ++ ds)

-- What the data blocks declare, in the order of the source text.
unfoldable pub declared_blocks : List DataNode → Result (List Constructor)
unfolding declared_defs
declared_blocks [] = ok []
declared_blocks (d ∷ rest) = do
  cs ← declared_blocks rest
  ds ← declared_defs d.data_name (source_order d.type_parameters) d.type_defs
  ok (cs ++ ds)

-- No block has constructors in the older form.
abbrev pub IsPlain : List DataNode → Type 0
IsPlain [] = Unit
IsPlain (d ∷ rest) = (d.old_constructors ≡ []) × IsPlain rest

insert_all-append :
    (cs ds ctors : List Constructor)
    → insert_all (cs ++ ds) ctors ≡ insert_all ds (insert_all cs ctors)
insert_all-append [] ds ctors = refl
insert_all-append (c ∷ cs) ds ctors = insert_all-append cs ds (insert c ctors)

handle_parameters_lem :
    (ps : List String) (g : ConstructorGenerator)
    → handle_parameters ps g ≡ record g { parameters = g.parameters ++ source_order ps }
unfolding handle_parameters
handle_parameters_lem [] g = simp append-nil refl
handle_parameters_lem (p ∷ ps) g =
    ap (λ (h : ConstructorGenerator). record h { parameters = h.parameters ++ p ∷ [] })
      (handle_parameters_lem ps g)
    ∙ simp append_assoc refl

-- After the constructors of earlier definitions
after_defs :
    (g : ConstructorGenerator) (cs : List Constructor) (ds : Result (List Constructor))
    → (ds >>= λ l. ok (with_constructors (with_constructors g cs) l))
      ≡ ((ds >>= λ l. ok (cs ++ l)) >>= λ l. ok (with_constructors g l))
after_defs g cs (ok l) = simp insert_all-append refl
after_defs g cs (err e) = refl
after_defs g cs timeout = refl

handle_defs_lem :
    (data_name : String) (es : List TypeExpression) (g : ConstructorGenerator)
    → g.type_tuple ≡ []
    → handle_defs data_name es g
      ≡ (declared_defs data_name g.parameters es >>= λ cs. ok (with_constructors g cs))
unfolding handle_defs declared_defs
handle_defs_lem data_name [] g empty = λ i. ok (record g { type_tuple = empty i })
handle_defs_lem data_name (e ∷ rest) g empty =
    ap (λ (r : Result ConstructorGenerator). r >>= λ h. handle_expression data_name e h)
      (handle_defs_lem data_name rest g empty)
    ∙ last (declared_defs data_name g.parameters rest)
  where
    last :
        (r : Result (List Constructor))
        → ((r >>= λ cs. ok (with_constructors g cs)) >>= λ h. handle_expression data_name e h) ≡ (
            (r >>= λ cs. declared_in data_name g.parameters e >>= λ ds. ok (cs ++ ds)) >>= λ cs.
            ok (with_constructors g cs))
    last (ok cs) =
        handle_expression_lem data_name e (with_constructors g cs) refl
        ∙ after_defs g cs (declared_in data_name g.parameters e)
    last (err x) = refl
    last timeout = refl

-- A generator between two blocks, with these constructors
abbrev pub holding : List Constructor → ConstructorGenerator
holding ctors = record { constructors = ctors; type_tuple = []; stack = []; parameters = [] }

handle_data_lem :
    (d : DataNode) (ctors : List Constructor)
    → d.old_constructors ≡ []
    → handle_data d (holding ctors) ≡ (
        declared_defs d.data_name (source_order d.type_parameters) d.type_defs >>= λ cs.
        ok (holding (insert_all cs ctors)))
unfolding handle_data handle_old
handle_data_lem d ctors none =
    let start : ConstructorGenerator = holding ctors in
    let named : ConstructorGenerator = record start {
      parameters = source_order d.type_parameters;
    } in
    ap
      (λ (l : List TypeTerms). handle_old l start >>= λ h.
        handle_defs d.data_name d.type_defs (handle_parameters d.type_parameters h) >>= λ k.
        ok (record k { parameters = [] }))
      none
    ∙ ap
        (λ (h : ConstructorGenerator).
          handle_defs d.data_name d.type_defs h >>= λ k. ok (record k { parameters = [] }))
        (handle_parameters_lem d.type_parameters start)
    ∙ ap (λ (r : Result ConstructorGenerator). r >>= λ k. ok (record k { parameters = [] }))
        (handle_defs_lem d.data_name d.type_defs named refl)
    ∙ finish (declared_defs d.data_name (source_order d.type_parameters) d.type_defs)
  where
    finish :
        (r : Result (List Constructor))
        → ((r >>= λ cs. ok (
              with_constructors
                (record (holding ctors) { parameters = source_order d.type_parameters })
                cs))
            >>= λ k. ok (record k { parameters = [] }))
          ≡ (r >>= λ cs. ok (holding (insert_all cs ctors)))
    finish (ok cs) = refl
    finish (err x) = refl
    finish timeout = refl

handle_blocks_lem :
    (blocks : List DataNode)
    → IsPlain blocks
    → handle_blocks blocks new_generator
      ≡ (declared_blocks blocks >>= λ cs. ok (holding (insert_all cs [])))
unfolding handle_blocks declared_blocks
handle_blocks_lem [] h = refl
handle_blocks_lem (d ∷ rest) h =
    ap (λ (r : Result ConstructorGenerator). r >>= λ g. handle_data d g)
      (handle_blocks_lem rest h.1)
    ∙ last (declared_blocks rest)
  where
    joined :
        (cs : List Constructor) (r : Result (List Constructor))
        → (r >>= λ ds. ok (holding (insert_all ds (insert_all cs []))))
          ≡ ((r >>= λ ds. ok (cs ++ ds)) >>= λ l. ok (holding (insert_all l [])))
    joined cs (ok ds) = simp insert_all-append refl
    joined cs (err x) = refl
    joined cs timeout = refl

    last :
        (r : Result (List Constructor))
        → ((r >>= λ cs. ok (holding (insert_all cs []))) >>= λ g. handle_data d g) ≡ (
            (r >>= λ cs.
            declared_defs d.data_name (source_order d.type_parameters) d.type_defs >>= λ ds.
            ok (cs ++ ds))
            >>= λ l. ok (holding (insert_all l [])))
    last (ok cs) =
        handle_data_lem d (insert_all cs []) h.0
        ∙ joined cs (declared_defs d.data_name (source_order d.type_parameters) d.type_defs)
    last (err x) = refl
    last timeout = refl

-- Where no block has constructors in the older form, the generator computes, or fails to compute, the
-- map of the constructors that the blocks declare in the order of the source text, with nothing left
-- over in its tuple, its stack and its parameters. In a declared constructor the last parameter of a
-- template's block goes with the first argument, the one before it with the second, and so on, and a
-- constructor that takes no values makes a type without parameters.
pub work_lem :
    (blocks : List DataNode)
    → IsPlain blocks
    → work blocks ≡ (declared_blocks blocks >>= λ cs. ok (holding (insert_all cs [])))
unfolding work
work_lem blocks h = handle_blocks_lem blocks h
