-- ===== src/Constructors/Lookup.antt =====
-- Source/FScheme/ConstructorGenerator.cpp, getConstructor: what a name stands for afterwards.
use text.Mathlib.TextEquality.{eq_iff}
use text.Mathlib.Text.{◌==◌}
use fptl.Prelude.{
  ℕ, suc, ◌+◌, ◌≡◌, refl, sym, ap, ◌∙◌, ◌⊎◌, inl, inr, true, false, Bool-cases, if◌then◌else◌,
  Option, none, some, List, [], ◌∷◌, get_elem?, String, Result, ok, ◌>>=◌, arith,
}
use fptl.Adt.{Constructor}
use fptl.Builder.{constructor_at}
use fptl.Constructors.{DataNode, ConstructorGenerator, insert, work}
use fptl.Constructors.Declared.{insert_all}
use fptl.Constructors.Whole.{IsPlain, declared_blocks, holding, work_lem}

-- The first constructor with a name
unfoldable pub first_named : String → List Constructor → Option Constructor
first_named name [] = none
first_named name (c ∷ ctors) =
    let rest = first_named name ctors in if c.constructor_name == name then some c else rest

abbrev or_else : Option Constructor → Option Constructor → Option Constructor
or_else (some c) o = some c
or_else none o = o

abbrev alone : String → Constructor → Option Constructor
alone name c = if c.constructor_name == name then some c else none

same_test : (a b name : String) → (a == b) ≡ true → (a == name) ≡ (b == name)
same_test a b name h = ap (λ x. x == name) ((eq_iff a b).0 h)

first_named-insert :
    (name : String) (c : Constructor) (ctors : List Constructor)
    → first_named name (insert c ctors) ≡ or_else (first_named name ctors) (alone name c)
unfolding first_named insert
first_named-insert name c [] = refl
first_named-insert name c (d ∷ ctors) =
    elim (Bool-cases (d.constructor_name == c.constructor_name)) [
      | inl same ↦
          let test = same_test d.constructor_name c.constructor_name name same in
          elim (Bool-cases (d.constructor_name == name)) [
            | inl here ↦ simp (same, here, first_named) refl
            | inr other ↦
                simp (same, other, first_named) (clear (first_named name ctors) (sym test ∙ other))
          ]
      | inr differ ↦ elim (Bool-cases (d.constructor_name == name)) [
        | inl here ↦ simp (differ, here, first_named) refl
        | inr other ↦ simp (differ, other, first_named) (first_named-insert name c ctors)
      ]
    ]
  where
    clear :
        (o : Option Constructor)
        → (c.constructor_name == name) ≡ false
        → o ≡ or_else o (alone name c)
    clear (some x) h = refl
    clear none h = simp h refl

first_named-insert_all :
    (name : String) (cs ctors : List Constructor)
    → first_named name (insert_all cs ctors)
      ≡ or_else (first_named name ctors) (first_named name cs)
unfolding first_named
first_named-insert_all name [] ctors = right (first_named name ctors)
  where
    right : (o : Option Constructor) → o ≡ or_else o none
    right none = refl
    right (some c) = refl
first_named-insert_all name (c ∷ cs) ctors =
    first_named-insert_all name cs (insert c ctors)
    ∙ ap (λ o. or_else o (first_named name cs)) (first_named-insert name c ctors)
    ∙ regroup (first_named name ctors) (Bool-cases (c.constructor_name == name))
  where
    regroup :
        (o : Option Constructor)
        → ((c.constructor_name == name) ≡ true) ⊎ ((c.constructor_name == name) ≡ false)
        → or_else (or_else o (alone name c)) (first_named name cs)
          ≡ or_else o (if c.constructor_name == name then some c else first_named name cs)
    regroup (some x) test = refl
    regroup none (inl here) = simp here refl
    regroup none (inr other) = simp other refl

zero_add : (n : ℕ) → 0 + n ≡ n
zero_add n = omega arith

-- `at` finds what the list has first.
constructor_at_lem :
    (i : ℕ) (name : String) (ctors : List Constructor) (c : Constructor)
    → first_named name ctors ≡ some c
    → (k : ℕ) × (constructor_at i ctors name ≡ ok (i + k)) × (get_elem? ctors k ≡ some c)
unfolding constructor_at first_named
constructor_at_lem i name [] c e = ground arith
constructor_at_lem i name (d ∷ ctors) c e = elim (Bool-cases (d.constructor_name == name)) [
  | inl here ↦ (0, simp here (ap ok (add_zero i)), simp here at e)
  | inr other ↦
      let (k, found, there) = constructor_at_lem (suc i) name ctors c (simp other at e) in
      (suc k, simp other (found ∙ ap ok (add_suc i k)), there)
]
  where
    add_zero : (n : ℕ) → n ≡ n + 0
    add_zero n = omega arith

    add_suc : (n k : ℕ) → suc n + k ≡ n + suc k
    add_suc n k = omega arith

-- Where no block has constructors in the older form and the blocks declare constructors, the
-- generator ends, and a name that some of them have stands for the first of these.
pub constructor_at-work :
    (blocks : List DataNode) (cs : List Constructor) (name : String) (c : Constructor)
    → IsPlain blocks
    → declared_blocks blocks ≡ ok cs
    → first_named name cs ≡ some c
    → (g : ConstructorGenerator) × (k : ℕ) × (work blocks ≡ ok g)
      × (constructor_at 0 g.constructors name ≡ ok k)
      × (get_elem? g.constructors k ≡ some c)
unfolding first_named
constructor_at-work blocks cs name c plain declares first =
    let (k, found, there) =
      constructor_at_lem 0 name (insert_all cs []) c (first_named-insert_all name cs [] ∙ first) in
    (
      holding (insert_all cs []),
      k,
      work_lem blocks plain
          ∙ ap (λ (r : Result (List Constructor)). r >>= λ l. ok (holding (insert_all l [])))
              declares,
      found ∙ ap ok (zero_add k),
      there,
    )
