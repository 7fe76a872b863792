-- ===== src/Gc/Reach.antt =====
-- What a collection should keep, said without the loop: the objects that can be found from the
-- values on the mark stack.
use fptl.Prelude.{ℕ, ◌≡◌, ◌<◌, Bool, true, false, List, [], ◌∷◌}
use mathlib.Core.List.{Memᴰ}
use fptl.Gc.{
  Age, check_age, Ref, plain, adt_ref, array_ref, string_ref, Content, value_array, array_value,
  string_value, string_data, elements,
}

abbrev pub shared_data : Content → List ℕ
shared_data (string_value d) = d ∷ []
shared_data _ = []

module _ (content : ℕ → Content) where
  -- The objects that a value stands for.
  abbrev pub targets : Ref → List ℕ
  targets plain = []
  targets (adt_ref a) = a ∷ []
  targets (array_ref a) = a ∷ []
  targets (string_ref a) = a ∷ shared_data (content a)

  -- A value points to an object of its class below the address `n`.
  abbrev pub IsValue : ℕ → Ref → Type 0
  IsValue n plain = Unit
  IsValue n (adt_ref a) = (a < n) × (vs : List Ref) × (content a ≡ value_array vs)
  IsValue n (array_ref a) = (a < n) × (vs : List Ref) × (content a ≡ array_value vs)
  IsValue n (string_ref a) =
      (a < n)
      × (d : ℕ) × (content a ≡ string_value d)
      × (d < n)
      × (k : ℕ) × (content d ≡ string_data k)

  -- The objects below the address `n` hold only such values.
  abbrev pub IsHeap : ℕ → Type 0
  IsHeap n = (a : ℕ) (v : Ref) → a < n → Memᴰ v (elements (content a)) → IsValue n v

  module _ (age : ℕ → Age) (marked : ℕ → Bool) (max : Age) where
    abbrev pub IsFresh : ℕ → Type 0
    IsFresh a = (marked a ≡ false) × (check_age (age a) max ≡ true)

    -- The values that are found from `roots` through objects that are young enough and were not
    -- marked before.
    pub data Found (roots : List Ref) : Ref → Type 0 where
      root : {v : Ref} → Memᴰ v roots → Found roots v
      child :
          {v w : Ref} (a : ℕ)
          → Found roots v
          → Memᴰ a (targets v)
          → IsFresh a
          → Memᴰ w (elements (content a))
          → Found roots w

    abbrev pub IsAlive : List Ref → ℕ → Type 0
    IsAlive roots a = (v : Ref) × Found roots v × Memᴰ a (targets v) × IsFresh a
