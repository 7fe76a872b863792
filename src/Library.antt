-- ===== src/Library.antt =====
-- Source/Libraries: StandardLib.cpp, LogicLib.cpp and ArithmeticLib.cpp, the basic functions on
-- numbers, truth values and tuples, and FunctionLibrary.cpp, the table of functions by name.
pub mod Local
pub mod Tables
pub mod Source
pub mod Strings
pub mod Truth
mod Tests
use Prim.Native.Nat.{bit_xor}
use text.Mathlib.Text.{◌==◌}
use fptl.Prelude.{
  ℕ, suc, ◌-◌, Bool, true, false, not, List, [], ◌∷◌, ◌++◌, if◌then◌else◌, String, Result, ok, err,
  ◌>>=◌,
}
use fptl.Prelude.Int.{ℤ, pos, ◌+ℤ◌, ◌*ℤ◌, magnitude}
use fptl.Value.{DataValue, boolean, int, double}
use fptl.Frame.{Frame, get_arg, push}
use fptl.Scheme.{TFunction, push_undefined}
use fptl.Evaluator.{copy_range}
use fptl.Ops.{
  Foreign, OpsClass, get_ops, ops_check, boolean_ops, is_true, to_int, to_double, add, sub, mul,
  div, mod_values, abs, equal, less, greater,
}

-- `DataBuilders::createBoolean`
unfoldable pub create_boolean : Bool → DataValue
create_boolean true = boolean (pos 1)
create_boolean false = boolean (pos 0)

-- A function of the first argument, of the first two, and one that pushes a constant.
unfoldable pub unary : (DataValue → Result DataValue) → TFunction
unary f fr = do arg ← get_arg fr 0; v ← f arg; ok (push v fr)

unfoldable pub binary : (DataValue → DataValue → Result DataValue) → TFunction
binary f fr = do lhs ← get_arg fr 0; rhs ← get_arg fr 1; v ← f lhs rhs; ok (push v fr)

unfoldable pub nullary : DataValue → TFunction
nullary v fr = ok (push v fr)

-- `opsCheck(lhs.getOps(), rhs)`
unfoldable pub same_class : DataValue → DataValue → Result (Unit {0})
unfolding get_ops ops_check
same_class lhs rhs = do ops ← get_ops lhs; ops_check ops rhs

-- `TupleLength`
unfoldable pub tuple_length : TFunction
tuple_length fr = ok (push (int (pos fr.arg_num)) fr)

-- The check of `Add` on the arguments behind the first.
unfoldable pub check_all : OpsClass → List DataValue → Result (Unit {0})
unfolding ops_check
check_all ops [] = ok tt
check_all ops (v ∷ vs) = do _ ← ops_check ops v; check_all ops vs

module _ (cpp : Foreign) where
  -- `Not`
  unfoldable pub not_value : DataValue → Result DataValue
  unfolding create_boolean
  not_value arg = do
    _ ← ops_check boolean_ops arg
    x ← to_int cpp arg
    ok (create_boolean (not (is_true x)))

  -- `And`, `Or` and `Xor`, by the operation on the two numbers
  unfoldable pub logic_value : (ℤ → ℤ → ℤ) → DataValue → DataValue → Result DataValue
  unfolding create_boolean
  logic_value op lhs rhs = do
    _ ← ops_check boolean_ops lhs
    _ ← ops_check boolean_ops rhs
    x ← to_int cpp lhs
    y ← to_int cpp rhs
    ok (create_boolean (is_true (op x y)))

  unfoldable pub and_value : DataValue → DataValue → Result DataValue
  unfolding logic_value
  and_value = logic_value ◌*ℤ◌

  unfoldable pub or_value : DataValue → DataValue → Result DataValue
  unfolding logic_value
  or_value = logic_value ◌+ℤ◌

  -- Neither number is negative.
  unfoldable pub xor_value : DataValue → DataValue → Result DataValue
  unfolding logic_value
  xor_value = logic_value (λ x y. pos (bit_xor (magnitude x) (magnitude y)))

  -- `equal`, `notEqual`, `greater`, `greaterOrEqual`, `less` and `lessOrEqual`
  unfoldable pub equal_value : DataValue → DataValue → Result DataValue
  unfolding create_boolean same_class
  equal_value lhs rhs = do _ ← same_class lhs rhs; b ← equal cpp lhs rhs; ok (create_boolean b)

  unfoldable pub not_equal_value : DataValue → DataValue → Result DataValue
  unfolding create_boolean same_class
  not_equal_value lhs rhs = do
    _ ← same_class lhs rhs
    b ← equal cpp lhs rhs
    ok (create_boolean (not b))

  unfoldable pub greater_value : DataValue → DataValue → Result DataValue
  unfolding create_boolean same_class
  greater_value lhs rhs = do _ ← same_class lhs rhs; b ← greater cpp lhs rhs; ok (create_boolean b)

  unfoldable pub greater_or_equal_value : DataValue → DataValue → Result DataValue
  unfolding create_boolean same_class
  greater_or_equal_value lhs rhs = do
    _ ← same_class lhs rhs
    b ← less cpp lhs rhs
    ok (create_boolean (not b))

  unfoldable pub less_value : DataValue → DataValue → Result DataValue
  unfolding create_boolean same_class
  less_value lhs rhs = do _ ← same_class lhs rhs; b ← less cpp lhs rhs; ok (create_boolean b)

  unfoldable pub less_or_equal_value : DataValue → DataValue → Result DataValue
  unfolding create_boolean same_class
  less_or_equal_value lhs rhs = do
    _ ← same_class lhs rhs
    b ← greater cpp lhs rhs
    ok (create_boolean (not b))

  -- `ToInteger` and `ToDouble`
  unfoldable pub to_integer_value : DataValue → Result DataValue
  to_integer_value arg = do x ← to_int cpp arg; ok (int x)

  unfoldable pub to_double_value : DataValue → Result DataValue
  to_double_value arg = do x ← to_double cpp arg; ok (double x)

  -- `Sub`, `Mul`, `Div` and `Mod`, by the method
  unfoldable pub arithmetic_value :
      (DataValue → DataValue → Result DataValue) → DataValue → DataValue → Result DataValue
  unfolding same_class
  arithmetic_value method lhs rhs = do _ ← same_class lhs rhs; method lhs rhs

  -- `Add`, on a tuple with a first value
  unfoldable pub add_value : DataValue → List DataValue → Result DataValue
  unfolding check_all
  add_value first rest = do
    ops ← get_ops first
    _ ← check_all ops rest
    add cpp first (first ∷ rest)

  -- `Add`: the arguments stand one after the other from `firstArg()` to `lastArg()`.
  unfoldable pub add_tuple : TFunction
  unfolding add_value
  add_tuple fr = do
    first ← get_arg fr 0
    rest ← copy_range (fr.arg_num - 1) (suc fr.arg_pos) fr.stack
    v ← add_value first rest
    ok (push v fr)

  -- `sqrt`, `sin` and the others of <cmath>
  unfoldable pub math_value : (ℕ → ℕ) → DataValue → Result DataValue
  math_value f arg = do x ← to_double cpp arg; ok (double (f x))

  -- The tables of the three libraries. `rand` and the functions that print are not in them.
  unfoldable pub standard_functions : List (String × TFunction × Bool)
  unfolding unary binary tuple_length to_integer_value to_double_value arithmetic_value add_tuple
  standard_functions =
      ("tupleLen", tuple_length, false)
      ∷ ("toInt", unary to_integer_value, false)
      ∷ ("toReal", unary to_double_value, false)
      ∷ ("add", add_tuple, false)
      ∷ ("sub", binary (arithmetic_value (sub cpp)), false)
      ∷ ("mul", binary (arithmetic_value (mul cpp)), false)
      ∷ ("div", binary (arithmetic_value (div cpp)), false)
      ∷ ("mod", binary (arithmetic_value (mod_values cpp)), false)
      ∷ ("abs", unary (abs cpp), false)
      ∷ []

  unfoldable pub logic_functions : List (String × TFunction × Bool)
  unfolding unary binary not_value and_value or_value xor_value equal_value not_equal_value
      greater_value greater_or_equal_value less_value less_or_equal_value
  logic_functions =
      ("not", unary not_value, false)
      ∷ ("and", binary and_value, false)
      ∷ ("or", binary or_value, false)
      ∷ ("xor", binary xor_value, false)
      ∷ ("equal", binary equal_value, false)
      ∷ ("nequal", binary not_equal_value, false)
      ∷ ("greater", binary greater_value, false)
      ∷ ("gequal", binary greater_or_equal_value, false)
      ∷ ("less", binary less_value, false)
      ∷ ("lequal", binary less_or_equal_value, false)
      ∷ []

  unfoldable pub arithmetic_functions : List (String × TFunction × Bool)
  unfolding unary nullary math_value
  arithmetic_functions =
      ("sqrt", unary (math_value cpp.sqrt), false)
      ∷ ("exp", unary (math_value cpp.exp), false)
      ∷ ("ln", unary (math_value cpp.log), false)
      ∷ ("round", unary (math_value cpp.half_up), false)
      ∷ ("sin", unary (math_value cpp.sin), false)
      ∷ ("cos", unary (math_value cpp.cos), false)
      ∷ ("tan", unary (math_value cpp.tan), false)
      ∷ ("asin", unary (math_value cpp.asin), false)
      ∷ ("atan", unary (math_value cpp.atan), false)
      ∷ ("Pi", nullary (double cpp.pi), false)
      ∷ ("E", nullary (double cpp.euler), false)
      ∷ []

  -- The tables in the order in which they are registered; a name that is there is kept.
  unfoldable pub functions : List (String × TFunction × Bool)
  unfolding standard_functions logic_functions arithmetic_functions
  functions = arithmetic_functions ++ (logic_functions ++ standard_functions)

-- `FunctionLibrary::getFunction`: a name that is not there gives a function that pushes the
-- undefined value.
unfoldable pub get_function : List (String × TFunction × Bool) → String → TFunction × Bool
get_function [] name = (push_undefined, false)
get_function ((own, f, long) ∷ table) name =
    if own == name then (f, long) else get_function table name
