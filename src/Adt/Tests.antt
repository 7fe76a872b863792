-- ===== src/Adt/Tests.antt =====
-- A pair type with a type parameter, made and taken apart.
use fptl.Prelude.{
  true, ◌↔◌, ℕ, zero, suc, ◌≡◌, ◌≢◌, refl, subst, false, List, [], ◌∷◌, take, ok, arith,
}
use fptl.Prelude.Int.{pos}
use fptl.Value.{
  DataValue, nil, cons, uninitialised, undefined, boolean, int, time, double, string, adt, array,
}
use fptl.Frame.{Frame, at, get_arg, push}
use fptl.Frame.Args.{args, IsPlaced}
use fptl.Evaluator.{new_frame}
use fptl.Adt.{
  equal_types, info, none_left, more, TypeInfo, Constructor, type_name, plain, is_parameter, Params,
  get_type, collect, exec_constructor, destruct,
}
use fptl.Adt.Types.{equal_types_iff}
use fptl.Adt.Match.{AllTyped, collect-typed}
use fptl.Adt.Round.{exec_constructor-destruct}

-- `data Pair['T] { c_pair : 'T * 'T }`
abbrev ctors : List Constructor
ctors =
    record {
      constructor_name = "c_pair";
      reference_type = plain "'T" ∷ plain "'T" ∷ [];
      target_type = plain "Pair";
    }
    ∷ []

abbrev array_type : ℕ → TypeInfo
array_type a = plain "Array"

abbrev frame : Frame
frame = new_frame (int (pos 3) ∷ int (pos 4) ∷ [])

abbrev pair : DataValue
pair = adt 0 (cons (int (pos 3)) (cons (int (pos 4)) nil))

frame-IsPlaced : IsPlaced frame
unfolding new_frame
frame-IsPlaced = omega arith

collected :
    collect ctors array_type (plain "'T" ∷ plain "'T" ∷ []) 0 [] frame
    ≡ ok (int (pos 3) ∷ int (pos 4) ∷ [])
unfolding collect get_arg new_frame at
collected = refl

made : exec_constructor ctors array_type 0 frame ≡ ok (push pair frame)
unfolding exec_constructor get_arg new_frame at
made = refl

exec_constructor-destruct_example :
    (v : DataValue) × (push pair frame ≡ push v frame)
    × (destruct ctors array_type 0 v ≡ ok (take 2 (args frame)))
    × ((j : ℕ) → j ≢ 0 → destruct ctors array_type j v ≡ ok (undefined ∷ []))
exec_constructor-destruct_example =
    exec_constructor-destruct ctors array_type 0
      (record {
        constructor_name = "c_pair";
        reference_type = plain "'T" ∷ plain "'T" ∷ [];
        target_type = plain "Pair";
      })
      frame (push pair frame) frame-IsPlaced refl made

named :
    (u t : TypeInfo)
    → is_parameter (type_name u) ≡ false
    → ok u ≡ ok t
    → is_parameter (type_name t) ≡ false
named u t plain e =
    let same : u ≡ t = cc in subst (λ x. is_parameter (type_name x) ≡ false) same plain

plain_types :
    (v : DataValue) (t : TypeInfo)
    → get_type ctors array_type v ≡ ok t
    → is_parameter (type_name t) ≡ false
unfolding get_type is_parameter
plain_types uninitialised t e = cc
plain_types undefined t e = named (plain "Undefined") t refl e
plain_types (boolean z) t e = named (plain "Boolean") t refl e
plain_types (int z) t e = named (plain "Int") t refl e
plain_types (time z) t e = named (plain "Time") t refl e
plain_types (double x) t e = named (plain "Real") t refl e
plain_types (string s) t e = named (plain "String") t refl e
plain_types (adt zero vs) t e = named (plain "Pair") t refl e
plain_types (adt (suc k) vs) t e = cc
plain_types (array a) t e = named (plain "Array") t refl e

collect-typed_example :
    (qs : Params) × AllTyped ctors array_type qs
      (plain "'T" ∷ plain "'T" ∷ [])
      (int (pos 3) ∷ int (pos 4) ∷ [])
collect-typed_example =
    collect-typed ctors array_type (plain "'T" ∷ plain "'T" ∷ []) frame
      (int (pos 3) ∷ int (pos 4) ∷ []) plain_types collected

equal_types_iff_example :
    (equal_types
        (info "List" (more (plain "Int") none_left))
        (info "List" (more (plain "Real") none_left))
      ≡ true)
    ↔ (info "List" (more (plain "Int") none_left) ≡ info "List" (more (plain "Real") none_left))
equal_types_iff_example =
    equal_types_iff (info "List" (more (plain "Int") none_left))
      (info "List" (more (plain "Real") none_left))
