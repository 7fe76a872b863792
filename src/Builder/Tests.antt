-- ===== src/Builder/Tests.antt =====
-- An expression with a composition to the right, a definition and a call. In the library of the
-- tests the number that a text stands for is its length.
use fptl.Prelude.{
  ℕ, ◌≡◌, refl, subst, ap, none, some, true, false, List, [], ◌∷◌, get_elem?, ok, arith,
}
use fptl.Prelude.Int.{ℤ, pos, negsuc, ◌-ℤ◌, int64}
use fptl.Value.{DataValue, int}
use fptl.Frame.{at, get_arg, push, push_all, sub_size}
use fptl.Scheme.{FScheme, Node, constant, Program}
use fptl.Form.{Form}
use fptl.Evaluator.{new_frame}
use fptl.Exec.Steps.{Functions, resolve}
use fptl.Interpreter.{run_program}
use fptl.Generator.{generate}
use fptl.Semantics.{eval, apply, select}
use fptl.Correct.Settles.{Settles}
use fptl.Correct.Measure.{IsCalling, IsProgram}
use fptl.Ops.{sub}
use fptl.Ops.Sample.{whole_numbers}
use fptl.Adt.{TypeInfo, plain}
use fptl.Library.{functions, get_function, binary, arithmetic_value}
use fptl.Library.Source.{IsBuilt}
use fptl.Builder.{
  Ast, int_constant, take_term, built_in, defined, known, sequential_term, composition_term,
  position, handle,
}
use fptl.Builder.Meaning.{IsReadable, mean}
use fptl.Builder.Made.{handle_lem}
use fptl.Builder.Run.{all_functions, handle-run_program}

abbrev array_type : ℕ → TypeInfo
array_type a = plain "Array"

-- `F = 7`
abbrev sample : Program
sample = record { first_node = constant (int (pos 7)) (1, 1); name = "F"; long = true } ∷ []

-- `(1.(([1..] * 22).sub)) * F`
abbrev expression : Ast
expression =
    composition_term
      (sequential_term (int_constant (49 ∷ []) (2, 1)) (
        defined (
          sequential_term
            (composition_term (take_term none none (2, 2)) (int_constant (50 ∷ 50 ∷ []) (2, 3)))
            (built_in "sub" (2, 4)))))
      (known 0)

sample-IsProgram : IsProgram sample
sample-IsProgram ℕ.zero s e =
    subst (IsCalling sample)
      (ap (λ o. elim o [ none ↦ constant (int (pos 7)) (1, 1) | some x ↦ x.first_node ]) e) tt
sample-IsProgram (ℕ.suc k) s e = absurd (ground arith)

sample-IsBuilt :
    (k : ℕ) (s : FScheme)
    → get_elem? sample k ≡ some s
    → IsBuilt [] array_type (all_functions whole_numbers [] [] array_type sample) s.first_node
sample-IsBuilt ℕ.zero s e =
    subst (IsBuilt [] array_type (all_functions whole_numbers [] [] array_type sample))
      (ap (λ o. elim o [ none ↦ constant (int (pos 7)) (1, 1) | some x ↦ x.first_node ]) e) tt
sample-IsBuilt (ℕ.suc k) s e = absurd (ground arith)

mean-expression :
    mean whole_numbers
      (all_functions whole_numbers [] [] array_type sample)
      []
      array_type
      sample
      1
      expression
      []
    ≡ ok (int (negsuc 0) ∷ int (pos 7) ∷ [])
unfolding mean position eval select apply push_all push new_frame resolve sub_size functions
    get_function binary arithmetic_value sub get_arg at ◌-ℤ◌ int64
mean-expression = refl

missing : (z : ℤ) → position whole_numbers none z ≡ ok z
unfolding position
missing z = refl

expression-IsReadable :
    IsReadable whole_numbers
      (all_functions whole_numbers [] [] array_type sample)
      []
      array_type
      sample
      expression
expression-IsReadable = (
  (
    (pos 1, refl),
    ((((pos 1, missing (pos 1)), (negsuc 0, missing (negsuc 0))), (pos 2, refl)), tt),
  ),
  omega arith,
)

handle_lem_example :
    (node : Node) × (handle whole_numbers
        (all_functions whole_numbers [] [] array_type sample)
        []
        array_type
        sample
        expression
        []
      ≡ ok (node ∷ []))
    × ((f : ℕ) (vs : List DataValue)
        → eval sample f node vs
          ≡ mean whole_numbers
              (all_functions whole_numbers [] [] array_type sample)
              []
              array_type
              sample
              f
              expression
              vs)
handle_lem_example =
    handle_lem whole_numbers (all_functions whole_numbers [] [] array_type sample) [] array_type
      sample expression [] expression-IsReadable

handle-run_program_example :
    (node : Node) × (form : Form) × (funs : Functions) × (handle whole_numbers
        (all_functions whole_numbers [] [] array_type sample)
        []
        array_type
        sample
        expression
        []
      ≡ ok (node ∷ []))
    × (generate sample false node ≡ ok (form, funs))
    × Settles (run_program funs form) (ok (int (negsuc 0) ∷ int (pos 7) ∷ []))
handle-run_program_example =
    handle-run_program whole_numbers [] [] array_type sample 1 expression
      (ok (int (negsuc 0) ∷ int (pos 7) ∷ [])) tt sample-IsProgram sample-IsBuilt
      expression-IsReadable mean-expression (ground arith)
