-- ===== src/Adt.antt =====
-- Source/DataTypes/TypeInfo.h, TypeInfo.cpp, Source/DataTypes/Ops/ADTValue.h, ADTValue.cpp, ADTOps.h:
-- the types of values, and the constructors and destructors of abstract data types. A constructor is
-- its index in the table of constructors.
pub mod Collect
pub mod Match
pub mod Round
pub mod Types
mod Tests
use Prim.Native.Char.{code}
use text.Mathlib.Text.{◌==◌}
use Prim.Native.Nat.{ℕ, zero, suc, ◌+◌}
use fptl.Prelude.{
  Bool, true, false, ◌&&◌, Option, none, some, List, [], ◌∷◌, map, length, get_elem?, if◌then◌else◌,
  String, fault, type_mismatch, Result, ok, err, ◌>>=◌,
}
use fptl.Prelude.{◌==◌ as eq_ℕ}
use fptl.Value.{
  DataValue, DataValues, nil, cons, uninitialised, undefined, boolean, int, time, double, string,
  adt, array,
}
use fptl.Frame.{Frame, get_arg, push, push_all}
use fptl.Scheme.{TFunction}

mutual
  pub data TypeInfo : Type 0 where
    info : String → TypeInfos → TypeInfo

  pub data TypeInfos : Type 0 where
    none_left : TypeInfos
    more : TypeInfo → TypeInfos → TypeInfos

abbrev pub type_name : TypeInfo → String
type_name (info name params) = name

abbrev pub plain : String → TypeInfo
plain name = info name none_left

-- `operator==`: the names, the numbers of parameters, and then the parameters one by one. The source
-- takes the two parameters of a pair in the other order.
abbrev pub infos_length : TypeInfos → ℕ
infos_length none_left = 0
infos_length (more t ts) = suc (infos_length ts)

unfoldable mutual
  pub equal_types : TypeInfo → TypeInfo → Bool
  equal_types (info name params) (info name' params') =
      name == name'
      && (eq_ℕ (infos_length params) (infos_length params') && equal_infos params params')

  pub equal_infos : TypeInfos → TypeInfos → Bool
  equal_infos (more t ts) (more t' ts') = equal_types t t' && equal_infos ts ts'
  equal_infos _ _ = true

pub record Constructor : Type 0 where
  pub constructor_name : String
  pub reference_type : List TypeInfo
  pub target_type : TypeInfo

-- `arity()`
abbrev pub arity : Constructor → ℕ
arity c = length c.reference_type

-- `mTargetType`, as the constructor of `Constructor` makes it
unfoldable pub parameters_of : List String → TypeInfos
parameters_of [] = none_left
parameters_of (p ∷ ps) = more (info p (more (plain p) none_left)) (parameters_of ps)

unfoldable pub new_constructor : String → String → List TypeInfo → List String → Constructor
unfolding parameters_of
new_constructor name type_name ref_type params = record {
  constructor_name = name;
  reference_type = ref_type;
  target_type = info type_name (parameters_of params);
}

-- A name that begins with a quotation mark is that of a type parameter.
unfoldable pub is_parameter : String → Bool
is_parameter String.[] = false
is_parameter (String.◌∷◌ c s) = eq_ℕ (code c) 39

-- The types that the type parameters stand for.
abbrev pub Params : Type 0
Params = List (String × TypeInfo)

unfoldable pub find : Params → String → Option TypeInfo
find [] name = none
find ((own, t) ∷ ps) name = if own == name then some t else find ps name

-- `matchType` with an empty table of parameters
unfoldable pub match_alone : TypeInfo → TypeInfo → Bool
unfolding is_parameter
match_alone t ref = if is_parameter (type_name ref) then true else type_name ref == type_name t

-- `matchType`, with the table after it. `insert` keeps an entry that is there.
unfoldable pub match_type : TypeInfo → TypeInfo → Params → Bool × Params
unfolding is_parameter find match_alone
match_type t ref ps =
    if is_parameter (type_name ref)
    then elim (find ps (type_name ref)) [
      | none ↦ (true, (type_name ref, t) ∷ ps)
      | some bound ↦ (match_alone t bound, ps)
    ]
    else (type_name ref == type_name t, ps)

abbrev pub of_list : List DataValue → DataValues
of_list [] = nil
of_list (v ∷ vs) = cons v (of_list vs)

abbrev pub to_list : DataValues → List DataValue
to_list nil = []
to_list (cons v vs) = v ∷ to_list vs

module _ (ctors : List Constructor) (array_type : ℕ → TypeInfo) where
  -- `getType` of each class; the type of an array is stored with it.
  unfoldable pub get_type : DataValue → Result TypeInfo
  get_type uninitialised = err fault
  get_type undefined = ok (plain "Undefined")
  get_type (boolean z) = ok (plain "Boolean")
  get_type (int z) = ok (plain "Int")
  get_type (time z) = ok (plain "Time")
  get_type (double x) = ok (plain "Real")
  get_type (string s) = ok (plain "String")
  get_type (adt k vs) = elim (get_elem? ctors k) [ none ↦ err fault | some c ↦ ok c.target_type ]
  get_type (array a) = ok (array_type a)

  -- The loop of `execConstructor`, from argument `i` on, over the rest of the reference types.
  unfoldable pub collect : List TypeInfo → ℕ → Params → Frame → Result (List DataValue)
  unfolding get_type match_type
  collect [] i ps fr = ok []
  collect (ref ∷ refs) i ps fr = do
    arg ← get_arg fr i
    t ← get_type arg
    let (matches, ps₁) = match_type t ref ps
    elim matches [
      | true ↦ do vs ← collect refs (i + 1) ps₁ fr; ok (arg ∷ vs)
      | false ↦ err type_mismatch
    ]

  -- `execConstructor` of the constructor at an index
  unfoldable pub exec_constructor : ℕ → TFunction
  unfolding collect
  exec_constructor k fr = elim (get_elem? ctors k) [
    | none ↦ err fault
    | some c ↦ do vs ← collect c.reference_type 0 [] fr; ok (push (adt k (of_list vs)) fr)
  ]

  -- The loop of `execDestructor` over `arity()` values
  unfoldable pub unpack : ℕ → DataValues → Result (List DataValue)
  unpack zero vs = ok []
  unpack (suc n) nil = err fault
  unpack (suc n) (cons v vs) = do rest ← unpack n vs; ok (v ∷ rest)

  -- `execDestructor`
  unfoldable pub destruct : ℕ → DataValue → Result (List DataValue)
  unfolding unpack
  destruct k (adt j vs) =
      if eq_ℕ j k
      then elim (get_elem? ctors k) [ none ↦ err fault | some c ↦ unpack (arity c) vs ]
      else ok (undefined ∷ [])
  destruct k _ = ok (undefined ∷ [])

  unfoldable pub exec_destructor : ℕ → TFunction
  unfolding destruct
  exec_destructor k fr = do arg ← get_arg fr 0; vs ← destruct k arg; ok (push_all vs fr)
