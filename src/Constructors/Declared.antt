-- ===== src/Constructors/Declared.antt =====
-- Source/FScheme/ConstructorGenerator.cpp: what a data block declares, said without the tuple of
-- types and the stack, and that the handlers compute it.
use fptl.Prelude.{
  ◌≡◌, refl, ap, sym, ℕ, suc, false, true, arith, ◌∙◌, List, [], ◌∷◌, ◌++◌, append-nil,
  append_assoc, String, Result, ok, err, timeout, ◌>>=◌, bind_assoc, leb, length, map,
  if◌then◌else◌, fault,
}
use fptl.Adt.{
  TypeInfo, info, TypeInfos, none_left, more, plain, Constructor, parameters_of, new_constructor,
}
use fptl.Constructors.{
  TypeTerm, simple_type, template, TypeTerms, no_terms, one_more, ConstructorDef, TypeExpression,
  alternative, union, ConstructorGenerator, bind_parameters, restore, handle_type, handle_types,
  insert, constructor_of, handle_constructor, handle_expression,
}

-- The types that parameters stand for, each with its name
abbrev named_types : List (String × TypeInfo) → TypeInfos
named_types [] = none_left
named_types ((name, t) ∷ rest) = more (info name (more t none_left)) (named_types rest)

-- The first name with the first type, and so on
abbrev pairs : List String → List TypeInfo → List (String × TypeInfo)
pairs [] types = []
pairs (p ∷ ps) [] = []
pairs (p ∷ ps) (t ∷ types) = (p, t) ∷ pairs ps types

-- A type with arguments in the order of the source text, for a data block whose parameters are
-- listed from the last one on; undefined where there are fewer arguments.
unfoldable pub applied : String → List String → List TypeInfo → Result TypeInfo
applied name params types =
    if leb (length params) (length types)
    then ok (info name (named_types (pairs params types)))
    else err fault

-- A type of the tree, and a list of them in the order of the source text.
unfoldable mutual
  unfolding applied

  pub type_of : TypeTerm → Result TypeInfo
  type_of (simple_type name) = ok (plain name)
  type_of (template name params args) = do types ← types_of args; applied name params types

  pub types_of : TypeTerms → Result (List TypeInfo)
  types_of no_terms = ok []
  types_of (one_more t ts) = do types ← types_of ts; one ← type_of t; ok (types ++ one ∷ [])

-- The generator with types at the end of its tuple
abbrev pub with_types : ConstructorGenerator → List TypeInfo → ConstructorGenerator
with_types g types = record g { type_tuple = g.type_tuple ++ types }

abbrev inside : ConstructorGenerator → ConstructorGenerator
inside g = record g { type_tuple = []; stack = g.type_tuple ∷ g.stack }

leb-suc : (m n : ℕ) → leb (suc m) (suc n) ≡ leb m n
leb-suc m n = ground arith

leb_any : (n : ℕ) → leb 0 n ≡ true
leb_any n = ground arith

leb_zero : (n : ℕ) → leb (suc n) 0 ≡ false
leb_zero n = ground arith

-- `bind_parameters` in terms of the pairs
applied_lem :
    (name : String) (params : List String) (types : List TypeInfo)
    → (bind_parameters params types >>= λ bound. ok (info name bound)) ≡ applied name params types
unfolding bind_parameters applied
applied_lem name params types = bound params types (λ b. info name b)
  where
    bound :
        (ps : List String) (ts : List TypeInfo) (f : TypeInfos → TypeInfo)
        → (bind_parameters ps ts >>= λ b. ok (f b))
          ≡ (if leb (length ps) (length ts) then ok (f (named_types (pairs ps ts))) else err fault)
    bound [] ts f = rw (leb_any (length ts)) refl
    bound (p ∷ ps) [] f = rw (leb_zero (length ps)) refl
    bound (p ∷ ps) (t ∷ ts) f =
        bind_assoc (bind_parameters ps ts) (λ rest. ok (more (info p (more t none_left)) rest))
          (λ b. ok (f b))
        ∙ bound ps ts (λ b. f (more (info p (more t none_left)) b))
        ∙ ap
            (λ b.
              if b
              then ok (f (more (info p (more t none_left)) (named_types (pairs ps ts))))
              else err fault)
            (sym (leb-suc (length ps) (length ts)))

module _ (name : String) (params : List String) (g : ConstructorGenerator) where
  -- After the parameters of a template are bound.
  after_bound :
      (types : List TypeInfo) (bound : Result TypeInfos)
      → (bound >>= λ b. restore (info name b) (with_types (inside g) types))
        ≡ ((bound >>= λ b. ok (info name b)) >>= λ i. ok (with_types g (i ∷ [])))
  unfolding restore
  after_bound types (ok b) = refl
  after_bound types (err e) = refl
  after_bound types timeout = refl

  -- After the arguments of a template are handled.
  after_args :
      (args : Result (List TypeInfo))
      → ((args >>= λ types. ok (with_types (inside g) types)) >>= λ inner.
          bind_parameters params inner.type_tuple >>= λ bound. restore (info name bound) inner)
        ≡ ((args >>= λ types. applied name params types) >>= λ i. ok (with_types g (i ∷ [])))
  after_args (ok types) =
      after_bound types (bind_parameters params types)
      ∙ ap (λ (r : Result TypeInfo). r >>= λ i. ok (with_types g (i ∷ [])))
          (applied_lem name params types)
  after_args (err e) = refl
  after_args timeout = refl

-- After the earlier types of a list are handled.
after_first :
    (g : ConstructorGenerator) (t : TypeTerm) (types : List TypeInfo) (one : Result TypeInfo)
    → (one >>= λ i. ok (with_types (with_types g types) (i ∷ [])))
      ≡ ((one >>= λ i. ok (types ++ i ∷ [])) >>= λ all. ok (with_types g all))
after_first g t types (ok i) = simp append_assoc refl
after_first g t types (err e) = refl
after_first g t types timeout = refl

-- After the earlier types, where the next is handled as it means.
after_others :
    (g : ConstructorGenerator) (t : TypeTerm)
    → ((k : ConstructorGenerator)
        → handle_type t k ≡ (type_of t >>= λ i. ok (with_types k (i ∷ []))))
    → (types : Result (List TypeInfo))
    → ((types >>= λ all. ok (with_types g all)) >>= λ later. handle_type t later) ≡ (
        (types >>= λ all. type_of t >>= λ one. ok (all ++ one ∷ [])) >>= λ all.
        ok (with_types g all))
after_others g t h (ok types) = h (with_types g types) ∙ after_first g t types (type_of t)
after_others g t h (err e) = refl
after_others g t h timeout = refl

mutual
  unfolding handle_type type_of types_of

  pub handle_type_lem :
      (t : TypeTerm) (g : ConstructorGenerator)
      → handle_type t g ≡ (type_of t >>= λ i. ok (with_types g (i ∷ [])))
  handle_type_lem (simple_type name) g = refl
  handle_type_lem (template name params args) g =
      ap
        (λ (r : Result ConstructorGenerator). r >>= λ inner.
          bind_parameters params inner.type_tuple >>= λ bound. restore (info name bound) inner)
        (handle_types_lem args (inside g))
      ∙ after_args name params g (types_of args)

  pub handle_types_lem :
      (ts : TypeTerms) (g : ConstructorGenerator)
      → handle_types ts g ≡ (types_of ts >>= λ types. ok (with_types g types))
  handle_types_lem no_terms g = simp append-nil refl
  handle_types_lem (one_more t ts) g =
      ap (λ (r : Result ConstructorGenerator). r >>= λ later. handle_type t later)
        (handle_types_lem ts g)
      ∙ after_others g t (handle_type_lem t) (types_of ts)

-- What a constructor makes: a type with its parameters, each of which stands for itself, but a type
-- without parameters where the constructor takes no values.
abbrev target_of : String → List String → List TypeInfo → TypeInfo
target_of data_name params [] = info data_name none_left
target_of data_name params (t ∷ types) =
    info data_name (named_types (map (λ p. (p, plain p)) params))

-- What one definition of a constructor declares.
unfoldable pub declared : String → List String → ConstructorDef → Result Constructor
declared data_name params def = do
  types ← types_of def.parameters
  ok (record {
    constructor_name = def.constructor_name;
    reference_type = types;
    target_type = target_of data_name params types;
  })

parameters_of_lem :
    (params : List String) → parameters_of params ≡ named_types (map (λ p. (p, plain p)) params)
unfolding parameters_of
parameters_of_lem [] = refl
parameters_of_lem (p ∷ ps) = ap (more (info p (more (plain p) none_left))) (parameters_of_lem ps)

constructor_of_lem :
    (name data_name : String) (types : List TypeInfo) (params : List String)
    → constructor_of name data_name types params ≡ record {
      constructor_name = name;
      reference_type = types;
      target_type = target_of data_name params types;
    }
unfolding constructor_of new_constructor parameters_of
constructor_of_lem name data_name [] params = refl
constructor_of_lem name data_name (t ∷ types) params = λ i. record {
  constructor_name = name;
  reference_type = t ∷ types;
  target_type = info data_name (parameters_of_lem params i);
}

unfoldable pub declared_in : String → List String → TypeExpression → Result (List Constructor)
unfolding declared
declared_in data_name params (alternative def) = do c ← declared data_name params def; ok (c ∷ [])
declared_in data_name params (union def rest) = do
  c ← declared data_name params def
  cs ← declared_in data_name params rest
  ok (c ∷ cs)

-- Constructors in the order of the source text, into the map
abbrev pub insert_all : List Constructor → List Constructor → List Constructor
insert_all [] ctors = ctors
insert_all (c ∷ cs) ctors = insert_all cs (insert c ctors)

-- The generator with more constructors, and an empty tuple
abbrev pub with_constructors : ConstructorGenerator → List Constructor → ConstructorGenerator
with_constructors g cs = record g { constructors = insert_all cs g.constructors; type_tuple = [] }

handle_constructor_lem :
    (data_name : String) (def : ConstructorDef) (g : ConstructorGenerator)
    → g.type_tuple ≡ []
    → handle_constructor data_name def g
      ≡ (declared data_name g.parameters def >>= λ c. ok (with_constructors g (c ∷ [])))
unfolding handle_constructor declared
handle_constructor_lem data_name def g e =
    ap
      (λ (r : Result ConstructorGenerator). r >>= λ h. ok (record h {
        constructors =
            insert (constructor_of def.constructor_name data_name h.type_tuple h.parameters)
              h.constructors;
        type_tuple = [];
      }))
      (handle_types_lem def.parameters g)
    ∙ finish (types_of def.parameters)
  where
    finish :
        (r : Result (List TypeInfo))
        → ((r >>= λ types. ok (with_types g types)) >>= λ h. ok (record h {
          constructors =
              insert
                (constructor_of def.constructor_name data_name h.type_tuple h.parameters)
                h.constructors;
          type_tuple = [];
        }))
          ≡ ((r >>= λ types. ok (record {
            constructor_name = def.constructor_name;
            reference_type = types;
            target_type = target_of data_name g.parameters types;
          }))
              >>= λ c. ok (with_constructors g (c ∷ [])))
    finish (ok types) = simp e (
        ap (λ c. ok (with_constructors g (c ∷ [])))
          (constructor_of_lem def.constructor_name data_name types g.parameters))
    finish (err x) = refl
    finish timeout = refl

pub handle_expression_lem :
    (data_name : String) (e : TypeExpression) (g : ConstructorGenerator)
    → g.type_tuple ≡ []
    → handle_expression data_name e g
      ≡ (declared_in data_name g.parameters e >>= λ cs. ok (with_constructors g cs))
unfolding handle_expression declared_in
handle_expression_lem data_name (alternative def) g empty =
    handle_constructor_lem data_name def g empty ∙ one (declared data_name g.parameters def)
  where
    one :
        (r : Result Constructor)
        → (r >>= λ c. ok (with_constructors g (c ∷ [])))
          ≡ ((r >>= λ c. ok (c ∷ [])) >>= λ cs. ok (with_constructors g cs))
    one (ok c) = refl
    one (err x) = refl
    one timeout = refl
handle_expression_lem data_name (union def rest) g empty =
    ap (λ (r : Result ConstructorGenerator). r >>= λ h. handle_expression data_name rest h)
      (handle_constructor_lem data_name def g empty)
    ∙ several (λ c. handle_expression_lem data_name rest (with_constructors g (c ∷ [])) refl)
        (declared data_name g.parameters def)
  where
    others :
        (c : Constructor) (r : Result (List Constructor))
        → (r >>= λ cs. ok (with_constructors (with_constructors g (c ∷ [])) cs))
          ≡ ((r >>= λ cs. ok (c ∷ cs)) >>= λ cs. ok (with_constructors g cs))
    others c (ok cs) = refl
    others c (err x) = refl
    others c timeout = refl

    several :
        ((c : Constructor)
          → handle_expression data_name rest (with_constructors g (c ∷ [])) ≡ (
              declared_in data_name g.parameters rest >>= λ cs.
              ok (with_constructors (with_constructors g (c ∷ [])) cs)))
        → (r : Result Constructor)
        → ((r >>= λ c. ok (with_constructors g (c ∷ []))) >>= λ h.
            handle_expression data_name rest h)
          ≡ ((r >>= λ c. declared_in data_name g.parameters rest >>= λ cs. ok (c ∷ cs)) >>= λ cs.
              ok (with_constructors g cs))
    several next (ok c) = next c ∙ others c (declared_in data_name g.parameters rest)
    several next (err x) = refl
    several next timeout = refl
