-- ===== src/Adt/Round.antt =====
-- Source/DataTypes/Ops/ADTValue.cpp: a destructor on what its constructor made, and on what another
-- one made.
use fptl.Prelude.{
  ℕ, ◌≡◌, ◌≢◌, refl, sym, ap, ◌∙◌, Bool-cases, inl, inr, some, List, [], ◌∷◌, length, get_elem?,
  take, ◌==◌, ==_iff, ok, ◌>>=◌, bind-ok,
}
use fptl.Value.{DataValue, DataValues, undefined, adt}
use fptl.Frame.{Frame, push}
use fptl.Frame.Args.{args, IsPlaced}
use fptl.Adt.{TypeInfo, Constructor, arity, collect, of_list, exec_constructor, unpack, destruct}
use fptl.Adt.Collect.{collect_lem}

unpack_lem :
    (ctors : List Constructor) (array_type : ℕ → TypeInfo) (vs : List DataValue)
    → unpack ctors array_type (length vs) (of_list vs) ≡ ok vs
unfolding unpack
unpack_lem ctors array_type [] = refl
unpack_lem ctors array_type (v ∷ vs) =
    ap (λ r. r >>= λ rest. ok (v ∷ rest)) (unpack_lem ctors array_type vs)

module _ (ctors : List Constructor) (array_type : ℕ → TypeInfo) where
  destruct_own :
      (k : ℕ) (c : Constructor) (vs : List DataValue)
      → get_elem? ctors k ≡ some c
      → length vs ≡ arity c
      → destruct ctors array_type k (adt k (of_list vs)) ≡ ok vs
  unfolding destruct
  destruct_own k c vs there size =
      rw (destruct, (==_iff k k).1 refl, there)
        (ap (λ n. unpack ctors array_type n (of_list vs)) (sym size)
          ∙ unpack_lem ctors array_type vs)

  destruct_other :
      (j k : ℕ) (vs : DataValues)
      → j ≢ k
      → destruct ctors array_type j (adt k vs) ≡ ok (undefined ∷ [])
  unfolding destruct
  destruct_other j k vs ne = elim (Bool-cases (k == j)) [
    | inl same ↦ absurd (ne (sym ((==_iff k j).0 same)))
    | inr differs ↦ rw (destruct, differs) refl
  ]

  -- When a constructor ends well on a placed frame, it pushes one value, which holds as many of the
  -- first arguments as the constructor has parameters. Its own destructor gives these arguments
  -- back, and the destructor of any other constructor gives the undefined value.
  pub exec_constructor-destruct :
      (k : ℕ) (c : Constructor) (fr fr' : Frame)
      → IsPlaced fr
      → get_elem? ctors k ≡ some c
      → exec_constructor ctors array_type k fr ≡ ok fr'
      → (v : DataValue) × (fr' ≡ push v fr)
        × (destruct ctors array_type k v ≡ ok (take (arity c) (args fr)))
        × ((j : ℕ) → j ≢ k → destruct ctors array_type j v ≡ ok (undefined ∷ []))
  unfolding exec_constructor destruct
  exec_constructor-destruct k c fr fr' h there e =
      let (vs, done, q) =
        bind-ok (collect ctors array_type c.reference_type 0 [] fr) _ fr'
          (rw (exec_constructor, there) at e) in
      let (size, same) = collect_lem ctors array_type c.reference_type 0 [] fr vs h done in
      (
        adt k (of_list vs),
        cc,
        destruct_own k c vs there size ∙ ap ok same,
        λ j ne. destruct_other j k (of_list vs) ne,
      )
