-- ===== src/Library/Tests.antt =====
-- A recursive program made of library functions and a constructor, and the laws of truth values at
-- concrete values.
use fptl.Prelude.{
  ℕ, ◌≡◌, ◌↔◌, refl, subst, ap, inl, inr, none, some, Bool, true, false, not, ◌||◌, List, [], ◌∷◌,
  ◌++◌, get_elem?, ok, arith, take,
}
use fptl.Prelude.Int.{pos, ◌-ℤ◌, int64}
use fptl.Value.{string, nil, cons, int, adt, is_undefined, is_false}
use fptl.Frame.{at, get_arg, push, sub_size}
use fptl.Scheme.{
  FScheme, Node, function, parallel, sequential, condition, scheme, take_node, constant, Program,
}
use fptl.Evaluator.{new_frame}
use fptl.Form.{Form}
use fptl.Exec.Steps.{Functions, resolve}
use fptl.Interpreter.{run_program}
use fptl.Semantics.{eval, apply, select, holds, any_undefined}
use fptl.Generator.{generate}
use fptl.Correct.Settles.{Settles}
use fptl.Correct.Measure.{IsCalling, IsProgram}
use fptl.Ops.{sub, equal}
use fptl.Ops.Sample.{whole_numbers}
use fptl.Ops.Order.{ints, ExactlyOne}
use fptl.Adt.{Constructor, TypeInfo, plain, collect, exec_constructor}
use fptl.Library.{
  binary, arithmetic_value, equal_value, functions, get_function, create_boolean, not_value,
  and_value, or_value, xor_value, less_value, greater_value, not_equal_value, less_or_equal_value,
  greater_or_equal_value,
}
use fptl.Library.Strings.{string_functions, token_values}
use fptl.Library.Strings.Token.{token_values-append}
use fptl.Library.Source.{IsBuilt, library-run_program}
use fptl.Library.Truth.{logic_lem, comparisons_lem}

-- `data Box { c_box : Int * Int }`
abbrev ctors : List Constructor
ctors =
    record {
      constructor_name = "c_box";
      reference_type = plain "Int" ∷ plain "Int" ∷ [];
      target_type = plain "Box";
    }
    ∷ []

abbrev array_type : ℕ → TypeInfo
array_type a = plain "Array"

abbrev equal_node : Node
equal_node = function (binary (equal_value whole_numbers)) false "equal" (1, 3)

abbrev sub_node : Node
sub_node = function (binary (arithmetic_value whole_numbers (sub whole_numbers))) false "sub" (1, 5)

-- `F = ([1] * 0).equal -> 7, ([1] * 1).sub.F`
abbrev body_node : Node
body_node =
    condition true
      (sequential false
        (parallel false (take_node (pos 1) (pos 1) (1, 1)) (constant (int (pos 0)) (1, 2)))
        equal_node)
      (constant (int (pos 7)) (1, 4))
      (sequential true
        (sequential false
          (parallel false (take_node (pos 1) (pos 1) (1, 5)) (constant (int (pos 1)) (1, 6)))
          sub_node)
        (scheme 0))

-- `((1.F) * 5).c_box`
abbrev main_node : Node
main_node =
    sequential true
      (parallel true (sequential true (constant (int (pos 1)) (2, 1)) (scheme 0))
        (constant (int (pos 5)) (2, 2)))
      (function (exec_constructor ctors array_type 0) false "c_box" (2, 3))

abbrev sample : Program
sample = record { first_node = body_node; name = "F"; long = true } ∷ []

sample-IsProgram : IsProgram sample
sample-IsProgram ℕ.zero s e =
    subst (IsCalling sample) (ap (λ o. elim o [ none ↦ body_node | some x ↦ x.first_node ]) e)
      (((tt, tt), tt), tt, (((tt, tt), tt), omega arith))
sample-IsProgram (ℕ.suc k) s e = absurd (ground arith)

body-IsBuilt :
    IsBuilt ctors array_type
      (functions whole_numbers ++ (string_functions whole_numbers ++ []))
      body_node
unfolding functions get_function
body-IsBuilt = (((tt, tt), inl refl), tt, (((tt, tt), inl refl), tt))

sample-IsBuilt :
    (k : ℕ) (s : FScheme)
    → get_elem? sample k ≡ some s
    → IsBuilt ctors array_type
        (functions whole_numbers ++ (string_functions whole_numbers ++ []))
        s.first_node
sample-IsBuilt ℕ.zero s e =
    subst
      (IsBuilt ctors array_type (functions whole_numbers ++ (string_functions whole_numbers ++ [])))
      (ap (λ o. elim o [ none ↦ body_node | some x ↦ x.first_node ]) e) body-IsBuilt
sample-IsBuilt (ℕ.suc k) s e = absurd (ground arith)

eval_main :
    eval sample 3 main_node [] ≡ ok (adt 0 (cons (int (pos 7)) (cons (int (pos 5)) nil)) ∷ [])
unfolding eval select holds any_undefined is_undefined is_false apply push new_frame resolve
    sub_size binary arithmetic_value equal_value sub equal get_arg exec_constructor collect ◌-ℤ◌
    int64 at
eval_main = refl

library-run_program_example :
    (form : Form) × (funs : Functions) × (generate sample false main_node ≡ ok (form, funs))
    × Settles
        (run_program funs form)
        (ok (adt 0 (cons (int (pos 7)) (cons (int (pos 5)) nil)) ∷ []))
library-run_program_example =
    library-run_program whole_numbers [] ctors array_type sample 3 main_node _ tt sample-IsProgram
      (((tt, omega arith), tt), tt) sample-IsBuilt (((tt, tt), tt), inr (inl (0, refl))) eval_main
      (ground arith)

logic_lem_example :
    (not_value whole_numbers (create_boolean true) ≡ ok (create_boolean false))
    × (and_value whole_numbers (create_boolean true) (create_boolean false)
        ≡ ok (create_boolean false))
    × (or_value whole_numbers (create_boolean true) (create_boolean false)
        ≡ ok (create_boolean true))
    × (xor_value whole_numbers (create_boolean true) (create_boolean false)
        ≡ ok (create_boolean true))
logic_lem_example = logic_lem whole_numbers true false

comparisons_lem_example :
    (lt : Bool) × (eq : Bool) × (gt : Bool) × ExactlyOne lt eq gt
    × ((eq ≡ true) ↔ (int (pos 1) ≡ int (pos 2)))
    × (less_value whole_numbers (int (pos 1)) (int (pos 2)) ≡ ok (create_boolean lt))
    × (equal_value whole_numbers (int (pos 1)) (int (pos 2)) ≡ ok (create_boolean eq))
    × (greater_value whole_numbers (int (pos 1)) (int (pos 2)) ≡ ok (create_boolean gt))
    × (not_equal_value whole_numbers (int (pos 1)) (int (pos 2)) ≡ ok (create_boolean (not eq)))
    × (less_or_equal_value whole_numbers (int (pos 1)) (int (pos 2))
        ≡ ok (create_boolean (lt || eq)))
    × (greater_or_equal_value whole_numbers (int (pos 1)) (int (pos 2))
        ≡ ok (create_boolean (eq || gt)))
comparisons_lem_example =
    comparisons_lem whole_numbers (int (pos 1)) (int (pos 2)) (ints (pos 1) (pos 2))

-- The text " ab", where the match is " a".
token_values-append_example :
    (token : List ℕ) × (rest : List ℕ) × (token_values whole_numbers
        (string (32 ∷ 97 ∷ 98 ∷ []))
        (string (97 ∷ []))
      ≡ ok (string token ∷ string rest ∷ []))
    × (take 1 (32 ∷ 97 ∷ 98 ∷ []) ++ (token ++ rest) ≡ 32 ∷ 97 ∷ 98 ∷ [])
token_values-append_example =
    token_values-append whole_numbers (32 ∷ 97 ∷ 98 ∷ []) (97 ∷ []) 1 2 [] refl (omega arith)
