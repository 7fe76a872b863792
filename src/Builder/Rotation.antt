-- ===== src/Builder/Rotation.antt =====
-- Source/FScheme/FSchemeGenerator.cpp: the rotation of a composition whose second part is one.
use fptl.Prelude.{ℕ, ◌≡◌, refl, Bool, List, String, ◌>>=◌, bind_assoc}
use fptl.Value.{DataValue}
use fptl.Scheme.{
  TFunction, Node, function, parallel, sequential, condition, scheme, take_node, constant,
  string_constant, Program, sequential_node,
}
use fptl.Semantics.{eval}
use fptl.Adt.{TypeInfo, Constructor}
use fptl.Correct.Measure.{IsCalling}
use fptl.Library.Source.{IsBuilt}
use fptl.Builder.{sequential_of}

module _ (prog : Program) where
  -- A composition means the same after the rotation.
  pub eval-sequential_of :
      (first second : Node) (f : ℕ) (vs : List DataValue)
      → eval prog f (sequential_of prog first second) vs
        ≡ (eval prog f first vs >>= λ ws. eval prog f second ws)
  unfolding sequential_of sequential_node eval
  eval-sequential_of first (sequential long second third) f vs =
      bind_assoc (eval prog f first vs) (λ ws. eval prog f second ws) (λ ws. eval prog f third ws)
  eval-sequential_of first (function fn long name p) f vs = refl
  eval-sequential_of first (parallel long l r) f vs = refl
  eval-sequential_of first (condition long c t e) f vs = refl
  eval-sequential_of first (scheme k) f vs = refl
  eval-sequential_of first (take_node from to p) f vs = refl
  eval-sequential_of first (constant v p) f vs = refl
  eval-sequential_of first (string_constant s p) f vs = refl

  pub sequential_of-IsBuilt :
      (ctors : List Constructor) (array_type : ℕ → TypeInfo)
      (table : List (String × TFunction × Bool)) (first second : Node)
      → IsBuilt ctors array_type table first
      → IsBuilt ctors array_type table second
      → IsBuilt ctors array_type table (sequential_of prog first second)
  unfolding sequential_of sequential_node
  sequential_of-IsBuilt ctors array_type table first (sequential long second third) a (b, c) =
      ((a, b), c)
  sequential_of-IsBuilt ctors array_type table first (function fn long name p) a b = (a, b)
  sequential_of-IsBuilt ctors array_type table first (parallel long l r) a b = (a, b)
  sequential_of-IsBuilt ctors array_type table first (condition long c t e) a b = (a, b)
  sequential_of-IsBuilt ctors array_type table first (scheme k) a b = (a, b)
  sequential_of-IsBuilt ctors array_type table first (take_node from to p) a b = (a, b)
  sequential_of-IsBuilt ctors array_type table first (constant v p) a b = (a, b)
  sequential_of-IsBuilt ctors array_type table first (string_constant s p) a b = (a, b)

  pub sequential_of-IsCalling :
      (first second : Node)
      → IsCalling prog first
      → IsCalling prog second
      → IsCalling prog (sequential_of prog first second)
  unfolding sequential_of sequential_node
  sequential_of-IsCalling first (sequential long second third) a (b, c) = ((a, b), c)
  sequential_of-IsCalling first (function fn long name p) a b = (a, b)
  sequential_of-IsCalling first (parallel long l r) a b = (a, b)
  sequential_of-IsCalling first (condition long c t e) a b = (a, b)
  sequential_of-IsCalling first (scheme k) a b = (a, b)
  sequential_of-IsCalling first (take_node from to p) a b = (a, b)
  sequential_of-IsCalling first (constant v p) a b = (a, b)
  sequential_of-IsCalling first (string_constant s p) a b = (a, b)
