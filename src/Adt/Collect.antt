-- ===== src/Adt/Collect.antt =====
-- Source/DataTypes/Ops/ADTValue.cpp: the loop of `execConstructor`.
use native.Mathlib.Numerals.{add-one}
use fptl.Prelude.{
  ℕ, suc, ◌+◌, ◌≡◌, refl, sym, ap, ◌∙◌, Bool, true, false, Option, none, some, List, [], ◌∷◌,
  length, get_elem?, take, drop, drop_of_get_elem?, Result, ok, err, ◌>>=◌, bind-ok, type_mismatch,
  out_of_range,
}
use fptl.Value.{DataValue}
use fptl.Frame.{Frame, next_size, get_arg}
use fptl.Frame.Args.{args, IsPlaced, get_arg_lem}
use fptl.Adt.{TypeInfo, Constructor, Params, get_type, match_type, collect}

-- An argument that was read stands at its index in the tuple.
get_arg-ok :
    (fr : Frame) (i : ℕ) (v : DataValue)
    → IsPlaced fr
    → get_arg fr i ≡ ok v
    → get_elem? (args fr) i ≡ some v
get_arg-ok fr i v h e = read (get_elem? (args fr) i) (sym (get_arg_lem fr i h) ∙ e)
  where
    read :
        (o : Option DataValue)
        → elim o [ none ↦ err (out_of_range (next_size i) fr.arg_num) | some w ↦ ok w ] ≡ ok v
        → o ≡ some v
    read none q = cc
    read (some w) q = cc

-- One round of the loop that ends well.
pub record Collected (ctors : List Constructor) (array_type : ℕ → TypeInfo) (ref : TypeInfo)
    (refs : List TypeInfo) (i : ℕ) (ps : Params) (fr : Frame) (vs : List DataValue) : Type 0 where
  pub value : DataValue
  pub type : TypeInfo
  pub rest : List DataValue
  pub read : get_arg fr i ≡ ok value
  pub typed : get_type ctors array_type value ≡ ok type
  pub matched : (match_type type ref ps).0 ≡ true
  pub others : collect ctors array_type refs (i + 1) (match_type type ref ps).1 fr ≡ ok rest
  pub whole : vs ≡ value ∷ rest

module _ (ctors : List Constructor) (array_type : ℕ → TypeInfo) where
  round :
      (b : Bool) (r : Result (List DataValue)) (v : DataValue) (vs : List DataValue)
      → elim b [ true ↦ r >>= λ rest. ok (v ∷ rest) | false ↦ err type_mismatch ] ≡ ok vs
      → (b ≡ true) × ((rest : List DataValue) × (r ≡ ok rest) × (v ∷ rest ≡ vs))
  round true r v vs e =
      let (rest, done, q) = bind-ok r (λ rest. ok (v ∷ rest)) vs e in (refl, (rest, done, cc))
  round false r v vs e = cc

  pub collect-Collected :
      (ref : TypeInfo) (refs : List TypeInfo) (i : ℕ) (ps : Params) (fr : Frame)
      (vs : List DataValue)
      → collect ctors array_type (ref ∷ refs) i ps fr ≡ ok vs
      → Collected ctors array_type ref refs i ps fr vs
  unfolding collect
  collect-Collected ref refs i ps fr vs e =
      let (v, read, e₁) = bind-ok (get_arg fr i) _ vs e in
      let (t, typed, e₂) = bind-ok (get_type ctors array_type v) _ vs e₁ in
      let (matched, more) =
        round (match_type t ref ps).0
          (collect ctors array_type refs (i + 1) (match_type t ref ps).1 fr) v vs e₂ in
      record {
        value = v;
        type = t;
        rest = more.0;
        read = read;
        typed = typed;
        matched = matched;
        others = more.1;
        whole = sym more.2;
      }

  -- The values that a constructor collects are the arguments from an index on.
  pub collect_lem :
      (refs : List TypeInfo) (i : ℕ) (ps : Params) (fr : Frame) (vs : List DataValue)
      → IsPlaced fr
      → collect ctors array_type refs i ps fr ≡ ok vs
      → (length vs ≡ length refs) × (vs ≡ take (length refs) (drop i (args fr)))
  unfolding collect
  collect_lem [] i ps fr vs h e = let empty : [] ≡ vs = cc in (ap length (sym empty), sym empty)
  collect_lem (ref ∷ refs) i ps fr vs h e =
      let c = collect-Collected ref refs i ps fr vs e in
      let (size, rest_eq) =
        collect_lem refs (i + 1) (match_type c.type ref ps).1 fr c.rest h c.others in
      let here = drop_of_get_elem? i (args fr) (get_arg-ok fr i c.value h c.read) in
      (
        ap length c.whole ∙ ap suc size,
        c.whole
            ∙ ap (λ l. c.value ∷ l)
                (rest_eq ∙ ap (λ k. take (length refs) (drop k (args fr))) (add-one i))
            ∙ ap (take (suc (length refs))) (sym here),
      )
