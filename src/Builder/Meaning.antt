-- ===== src/Builder/Meaning.antt =====
-- Source/FScheme/FSchemeGenerator.cpp: the meaning of an expression of the syntax tree as a function on
-- tuples, with no nodes and no stack.
use fptl.Prelude.{
  ℕ, ◌<◌, ◌≡◌, ◌&&◌, Bool, true, false, List, [], ◌∷◌, ◌++◌, length, if◌then◌else◌, String, located,
  Result, ok, rethrow, ◌>>=◌,
}
use fptl.Prelude.Int.{ℤ, pos, negsuc, eqb_ℤ}
use fptl.Value.{DataValue, int, double, string}
use fptl.Scheme.{TFunction, Pos, scheme, Program, push_undefined}
use fptl.Exec.Steps.{resolve}
use fptl.Semantics.{eval, apply, select, holds}
use fptl.Ops.{Foreign}
use fptl.Adt.{TypeInfo, Constructor, exec_constructor, exec_destructor}
use fptl.Library.{create_boolean, get_function}
use fptl.Builder.{
  Ast, int_constant, real_constant, text_constant, truth_constant, take_term, built_in,
  constructor_name, destructor_name, defined, known, sequential_term, composition_term,
  condition_term, choice_term, constructor_at, position,
}

module _ (cpp : Foreign) (table : List (String × TFunction × Bool)) (ctors : List Constructor)
    (array_type : ℕ → TypeInfo) (prog : Program) where
  -- The values from one position to another, counted from 1, or from the end if negative; none for 0
  -- and 0.
  abbrev pub positions : ℤ → ℤ → Pos → List DataValue → Result (List DataValue)
  positions a b p vs =
      if eqb_ℤ a (pos 0) && eqb_ℤ b (pos 0)
      then ok []
      else rethrow (located p "") (select (resolve (length vs) a) (resolve (length vs) b) vs)

  -- The fuel bounds the depth of the calls of the known functions.
  unfoldable pub mean : ℕ → Ast → List DataValue → Result (List DataValue)
  mean f (int_constant text p) vs = do z ← cpp.cast_int text; ok (int z ∷ [])
  mean f (real_constant text p) vs = do x ← cpp.cast_double text; ok (double x ∷ [])
  mean f (text_constant text p) vs = ok (string text ∷ [])
  mean f (truth_constant b p) vs = ok (create_boolean b ∷ [])
  mean f (take_term from to p) vs = do
    a ← position cpp from (pos 1)
    b ← position cpp to (negsuc 0)
    positions a b p vs
  mean f (built_in name p) vs = rethrow (located p name) (apply (get_function table name).0 vs)
  mean f (constructor_name name p) vs = do
    k ← constructor_at 0 ctors name
    rethrow (located p name) (apply (exec_constructor ctors array_type k) vs)
  mean f (destructor_name name p) vs = do
    k ← constructor_at 0 ctors name
    rethrow (located p (String.◌∷◌ "~" name)) (apply (exec_destructor ctors array_type k) vs)
  mean f (defined body) vs = mean f body vs
  mean f (known k) vs = eval prog f (scheme k) vs
  mean f (sequential_term l r) vs = do ws ← mean f l vs; mean f r ws
  mean f (composition_term l r) vs = do a ← mean f l vs; b ← mean f r vs; ok (a ++ b)
  mean f (condition_term c t) vs = do
    q ← mean f c vs
    elim (holds q) [
      | true ↦ mean f t vs
      | false ↦ rethrow (located (0, 0) "") (apply push_undefined vs)
    ]
  mean f (choice_term c t e) vs = do
    q ← mean f c vs
    elim (holds q) [ true ↦ mean f t vs | false ↦ mean f e vs ]

  -- Every number can be read, every constructor is declared, and every known function has a scheme.
  abbrev pub IsReadable : Ast → Type 0
  IsReadable (int_constant text p) = (z : ℤ) × (cpp.cast_int text ≡ ok z)
  IsReadable (real_constant text p) = (x : ℕ) × (cpp.cast_double text ≡ ok x)
  IsReadable (text_constant text p) = Unit
  IsReadable (truth_constant b p) = Unit
  IsReadable (take_term from to p) =
      ((a : ℤ) × (position cpp from (pos 1) ≡ ok a))
      × ((b : ℤ) × (position cpp to (negsuc 0) ≡ ok b))
  IsReadable (built_in name p) = Unit
  IsReadable (constructor_name name p) = (k : ℕ) × (constructor_at 0 ctors name ≡ ok k)
  IsReadable (destructor_name name p) = (k : ℕ) × (constructor_at 0 ctors name ≡ ok k)
  IsReadable (defined body) = IsReadable body
  IsReadable (known k) = k < length prog
  IsReadable (sequential_term l r) = IsReadable l × IsReadable r
  IsReadable (composition_term l r) = IsReadable l × IsReadable r
  IsReadable (condition_term c t) = IsReadable c × IsReadable t
  IsReadable (choice_term c t e) = IsReadable c × IsReadable t × IsReadable e
