-- ===== src/Adt/Match.antt =====
-- Source/DataTypes/TypeInfo.cpp (`matchType`) with the loop of `execConstructor`: the types of the
-- arguments and the types of the constructor's parameters.
use text.Mathlib.Text.{◌==◌}
use text.Mathlib.TextEquality.{eq_iff}
use text.Mathlib.TextPositions.{eq_refl}
use fptl.Prelude.{
  ℕ, ◌+◌, ◌≡◌, refl, sym, ap, subst, ◌∙◌, Bool-cases, Option-cases, inl, inr, true, false, Option,
  none, some, List, [], ◌∷◌, if◌then◌else◌, String, ok,
}
use fptl.Value.{DataValue}
use fptl.Frame.{Frame}
use fptl.Adt.{
  TypeInfo, Constructor, type_name, is_parameter, Params, find, match_alone, get_type, match_type,
  collect,
}
use fptl.Adt.Collect.{collect-Collected}

-- The name that a table gives to a type parameter, and the one that a reference type asks for.
abbrev pub bound_name : Params → String → String
bound_name qs p = elim (find qs p) [ none ↦ p | some t ↦ type_name t ]

abbrev pub expected : Params → TypeInfo → String
expected qs ref =
    if is_parameter (type_name ref) then bound_name qs (type_name ref) else type_name ref

-- The tables name no type parameters, and one has the entries of the other.
abbrev pub IsPlain : Params → Type 0
IsPlain ps = (p : String) (t : TypeInfo) → find ps p ≡ some t → is_parameter (type_name t) ≡ false

abbrev pub Extends : Params → Params → Type 0
Extends ps qs = (p : String) (t : TypeInfo) → find ps p ≡ some t → find qs p ≡ some t

some_eq : (t u : TypeInfo) → some t ≡ some u → t ≡ u
some_eq t u e = cc

not_both : {t : TypeInfo} (o : Option TypeInfo) → o ≡ none → o ≡ some t → ⊥
not_both o e q = cc

add-IsPlain :
    (p : String) (t : TypeInfo) (ps : Params)
    → is_parameter (type_name t) ≡ false
    → IsPlain ps
    → IsPlain ((p, t) ∷ ps)
unfolding find
add-IsPlain p t ps plain plains q u e = elim (Bool-cases (p == q)) [
  | inl same ↦
      let here : t ≡ u = some_eq t u (rw (find, same) at e) in
      ap (λ x. is_parameter (type_name x)) (sym here) ∙ plain
  | inr differs ↦ plains q u (rw (find, differs) at e)
]

add-Extends :
    (p : String) (t : TypeInfo) (ps : Params) → find ps p ≡ none → Extends ps ((p, t) ∷ ps)
unfolding find
add-Extends p t ps fresh q u e = elim (Bool-cases (p == q)) [
  | inl same ↦ absurd (not_both (find ps p) fresh (ap (find ps) ((eq_iff p q).0 same) ∙ e))
  | inr differs ↦ rw (find, differs) e
]

find-add : (p : String) (t : TypeInfo) (ps : Params) → find ((p, t) ∷ ps) p ≡ some t
unfolding find
find-add p t ps = rw (find, eq_refl p) refl

found-expected :
    (qs : Params) (ref b : TypeInfo)
    → is_parameter (type_name ref) ≡ true
    → find qs (type_name ref) ≡ some b
    → expected qs ref ≡ type_name b
found-expected qs ref b param found =
    rw param (ap (λ o. elim o [ none ↦ type_name ref | some t ↦ type_name t ]) found)

match_alone-eq :
    (t b : TypeInfo)
    → is_parameter (type_name b) ≡ false
    → match_alone t b ≡ true
    → type_name b ≡ type_name t
unfolding match_alone
match_alone-eq t b plain e = (eq_iff (type_name b) (type_name t)).0 (rw (match_alone, plain) at e)

-- What a table gives for a round: later tables expect the type's name for the reference type.
abbrev pub Fits : Params → Params → TypeInfo → TypeInfo → Type 0
Fits ps after t ref =
    IsPlain after
    × Extends ps after
    × ((qs : Params) → Extends after qs → type_name t ≡ expected qs ref)

match_fixed :
    (t ref : TypeInfo) (ps : Params)
    → is_parameter (type_name ref) ≡ false
    → IsPlain ps
    → (match_type t ref ps).0 ≡ true
    → Fits ps (match_type t ref ps).1 t ref
unfolding match_type
match_fixed t ref ps fixed plains e =
    let same : type_name ref ≡ type_name t =
      (eq_iff (type_name ref) (type_name t)).0 (rw (match_type, fixed) at e) in
    rw fixed (plains, (λ p u q. q), λ qs more. sym same)

match_fresh :
    (t ref : TypeInfo) (ps : Params)
    → is_parameter (type_name t) ≡ false
    → IsPlain ps
    → is_parameter (type_name ref) ≡ true
    → find ps (type_name ref) ≡ none
    → Fits ps (match_type t ref ps).1 t ref
unfolding match_type
match_fresh t ref ps plain plains param fresh =
    let added : (match_type t ref ps).1 ≡ (type_name ref, t) ∷ ps =
      rw (match_type, param, fresh) refl in
    subst (λ after. Fits ps after t ref) (sym added)
      (
        add-IsPlain (type_name ref) t ps plain plains,
        add-Extends (type_name ref) t ps fresh,
        λ qs more. sym (
            found-expected qs ref t param (more (type_name ref) t (find-add (type_name ref) t ps))),
      )

match_found :
    (t ref b : TypeInfo) (ps : Params)
    → IsPlain ps
    → is_parameter (type_name ref) ≡ true
    → find ps (type_name ref) ≡ some b
    → (match_type t ref ps).0 ≡ true
    → Fits ps (match_type t ref ps).1 t ref
unfolding match_type
match_found t ref b ps plains param found e =
    let kept : (match_type t ref ps).1 ≡ ps = rw (match_type, param, found) refl in
    let same =
      match_alone-eq t b (plains (type_name ref) b found) (rw (match_type, param, found) at e) in
    subst (λ after. Fits ps after t ref) (sym kept)
      (
        plains,
        (λ p u q. q),
        λ qs more. sym same ∙ sym (found-expected qs ref b param (more (type_name ref) b found)),
      )

-- One round of `matchType`: the name of the type is the one that is asked for, in every later table.
match_type-Fits :
    (t ref : TypeInfo) (ps : Params)
    → is_parameter (type_name t) ≡ false
    → IsPlain ps
    → (match_type t ref ps).0 ≡ true
    → Fits ps (match_type t ref ps).1 t ref
match_type-Fits t ref ps plain plains e = elim (Bool-cases (is_parameter (type_name ref))) [
  | inr fixed ↦ match_fixed t ref ps fixed plains e
  | inl param ↦ elim (Option-cases (find ps (type_name ref))) [
    | inl fresh ↦ match_fresh t ref ps plain plains param fresh
    | inr (b, found) ↦ match_found t ref b ps plains param found e
  ]
]

module _ (ctors : List Constructor) (array_type : ℕ → TypeInfo) where
  -- The values have types with the names that the reference types ask for, where a type parameter
  -- asks for the name that the table gives it.
  abbrev pub AllTyped : Params → List TypeInfo → List DataValue → Type 0
  AllTyped qs [] vs = vs ≡ []
  AllTyped qs (ref ∷ refs) [] = ⊥
  AllTyped qs (ref ∷ refs) (v ∷ vs) =
      ((t : TypeInfo) × (get_type ctors array_type v ≡ ok t) × (type_name t ≡ expected qs ref))
      × AllTyped qs refs vs

  collect-AllTyped :
      (refs : List TypeInfo) (i : ℕ) (ps : Params) (fr : Frame) (vs : List DataValue)
      → ((v : DataValue) (t : TypeInfo)
          → get_type ctors array_type v ≡ ok t
          → is_parameter (type_name t) ≡ false)
      → IsPlain ps
      → collect ctors array_type refs i ps fr ≡ ok vs
      → (qs : Params) × Extends ps qs × AllTyped qs refs vs
  unfolding collect
  collect-AllTyped [] i ps fr vs types plains e = (ps, (λ p u q. q), cc)
  collect-AllTyped (ref ∷ refs) i ps fr vs types plains e =
      let c = collect-Collected ctors array_type ref refs i ps fr vs e in
      let (after, more, fits) =
        match_type-Fits c.type ref ps (types c.value c.type c.typed) plains c.matched in
      let (qs, later, others) =
        collect-AllTyped refs (i + 1) (match_type c.type ref ps).1 fr c.rest types after c.others in
      (
        qs,
        (λ p u q. later p u (more p u q)),
        subst (AllTyped qs (ref ∷ refs)) (sym c.whole) ((c.type, c.typed, fits qs later), others),
      )

  -- When no value's type has the name of a type parameter, and a constructor collects its arguments
  -- without an exception, then there are names for the type parameters such that the type of every
  -- argument has the name that the constructor asks for: a type parameter stands for one name
  -- throughout.
  pub collect-typed :
      (refs : List TypeInfo) (fr : Frame) (vs : List DataValue)
      → ((v : DataValue) (t : TypeInfo)
          → get_type ctors array_type v ≡ ok t
          → is_parameter (type_name t) ≡ false)
      → collect ctors array_type refs 0 [] fr ≡ ok vs
      → (qs : Params) × AllTyped qs refs vs
  unfolding find
  collect-typed refs fr vs types e =
      let (qs, more, all) = collect-AllTyped refs 0 [] fr vs types (λ p t q. cc) e in (qs, all)
