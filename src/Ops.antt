-- ===== src/Ops.antt =====
-- Source/DataTypes/Ops: the classes of operations on values. A value's `Ops` pointer is its
-- constructor, and a virtual method is a function by cases on it. The numbers of type `double`, the
-- functions of <cmath> and `boost::lexical_cast` are parameters.
pub mod Integers
pub mod Order
pub mod Sums
pub mod Sample
mod Tests
use fptl.Prelude.{
  ℕ, Option, Bool, true, false, not, ◌&&◌, ◌||◌, List, [], ◌∷◌, ◌++◌, ◌+◌, ◌%◌, ltb, ◌==◌,
  if◌then◌else◌, String, Error, divide_by_zero, invalid_operation, invalid_value_type, fault,
  Result, ok, err, ◌>>=◌,
}
use fptl.Prelude.Int.{ℤ, pos, negsuc, ◌+ℤ◌, ◌-ℤ◌, ◌*ℤ◌, quot, rem, magnitude, ltb_ℤ, eqb_ℤ, int64}
use fptl.Value.{DataValue, uninitialised, undefined, boolean, int, time, double, string, adt, array}

-- What the operations use of the C++ library, on the bit patterns of doubles. `to_int64` fails where
-- the conversion is undefined, and the casts where the text is no number.
pub record Foreign : Type 0 where
  pub zero_double : ℕ
  pub pi : ℕ
  pub euler : ℕ
  pub from_int : ℤ → ℕ
  pub to_int64 : ℕ → Result ℤ
  pub plus : ℕ → ℕ → ℕ
  pub minus : ℕ → ℕ → ℕ
  pub times : ℕ → ℕ → ℕ
  pub over : ℕ → ℕ → ℕ
  pub is_eq : ℕ → ℕ → Bool
  pub is_lt : ℕ → ℕ → Bool
  pub fabs : ℕ → ℕ
  pub half_up : ℕ → ℕ
  pub sqrt : ℕ → ℕ
  pub exp : ℕ → ℕ
  pub log : ℕ → ℕ
  pub sin : ℕ → ℕ
  pub cos : ℕ → ℕ
  pub tan : ℕ → ℕ
  pub asin : ℕ → ℕ
  pub atan : ℕ → ℕ
  pub cast_int : List ℕ → Result ℤ
  pub cast_double : List ℕ → Result ℕ
  -- `std::regex_search`, `regex_match` and `regex_replace`, by the text and the pattern. What is found
  -- is the ends of the whole match and then of each group, as positions in the text. A pattern that is
  -- no regular expression throws.
  pub regex_search : List ℕ → List ℕ → Result (Option (List (ℕ × ℕ)))
  pub regex_match : List ℕ → List ℕ → Result (Option (List (ℕ × ℕ)))
  pub regex_replace : List ℕ → List ℕ → List ℕ → Result (List ℕ)

-- The objects that `get()` of each class gives.
pub data OpsClass : Type 0 where
  undefined_ops boolean_ops integer_ops time_ops double_ops string_ops adt_ops array_ops : OpsClass

-- `getOps()`; the pointer of a default value is null, and calling a method on it is undefined.
unfoldable pub get_ops : DataValue → Result OpsClass
get_ops uninitialised = err fault
get_ops undefined = ok undefined_ops
get_ops (boolean z) = ok boolean_ops
get_ops (int z) = ok integer_ops
get_ops (time z) = ok time_ops
get_ops (double x) = ok double_ops
get_ops (string s) = ok string_ops
get_ops (adt c vs) = ok adt_ops
get_ops (array a) = ok array_ops

abbrev pub ops_number : OpsClass → ℕ
ops_number undefined_ops = 0
ops_number boolean_ops = 1
ops_number integer_ops = 2
ops_number time_ops = 3
ops_number double_ops = 4
ops_number string_ops = 5
ops_number adt_ops = 6
ops_number array_ops = 7

-- `BaseOps::opsCheck`
unfoldable pub ops_check : OpsClass → DataValue → Result (Unit {0})
unfolding get_ops
ops_check ops val = do
  own ← get_ops val
  if ops_number own == ops_number ops then ok tt else err invalid_value_type

-- `BaseOps::invalidOperation`: the message takes the type of the operations object itself, read as
-- if it were a value. Where `getType` follows the value's pointer, that is a wild read.
unfoldable pub unsupported {ℓ} : {A : Type ℓ} → OpsClass → String → Result A
unsupported adt_ops name = err fault
unsupported array_ops name = err fault
unsupported _ name = err (invalid_operation name)

-- The calls through the pointer of a value whose class lacks the operation.
unfoldable pub refuse {ℓ} : {A : Type ℓ} → DataValue → String → Result A
unfolding get_ops unsupported
refuse v name = do ops ← get_ops v; unsupported ops name

-- Reading a union member that the value does not hold is undefined.
abbrev pub int_val : DataValue → Result ℤ
int_val (int z) = ok z
int_val (boolean z) = ok z
int_val (time z) = ok z
int_val _ = err fault

abbrev pub double_val : DataValue → Result ℕ
double_val (double x) = ok x
double_val _ = err fault

abbrev pub string_val : DataValue → Result (List ℕ)
string_val (string s) = ok s
string_val _ = err fault

unfoldable pub is_true : ℤ → Bool
is_true z = not (eqb_ℤ z (pos 0))

abbrev same_truth : Bool → Bool → Bool
same_truth true b = b
same_truth false b = not b

-- The bytes in the order of the signed type `char`.
abbrev signed_char : ℕ → ℕ
signed_char x = (x + 128) % 256

-- `std::equal` on texts of the same length, and `std::lexicographical_compare`.
unfoldable pub same_chars : List ℕ → List ℕ → Bool
same_chars [] [] = true
same_chars (x ∷ xs) (y ∷ ys) = x == y && same_chars xs ys
same_chars _ _ = false

unfoldable pub before_chars : List ℕ → List ℕ → Bool
before_chars xs [] = false
before_chars [] (y ∷ ys) = true
before_chars (x ∷ xs) (y ∷ ys) =
    ltb (signed_char x) (signed_char y) || (x == y && before_chars xs ys)

module _ (cpp : Foreign) where
  -- `toInt`
  unfoldable pub to_int : DataValue → Result ℤ
  unfolding refuse is_true
  to_int (int z) = ok z
  to_int (boolean z) = ok (if is_true z then pos 1 else pos 0)
  to_int (double x) = cpp.to_int64 x
  to_int (string s) = cpp.cast_int s
  to_int v = refuse v "toInt"

  -- `toDouble`
  unfoldable pub to_double : DataValue → Result ℕ
  unfolding refuse is_true
  to_double (int z) = ok (cpp.from_int z)
  to_double (boolean z) = ok (cpp.from_int (if is_true z then pos 1 else pos 0))
  to_double (double x) = ok x
  to_double (string s) = cpp.cast_double s
  to_double v = refuse v "toDouble"

  -- `sub`
  unfoldable pub sub : DataValue → DataValue → Result DataValue
  unfolding refuse
  sub (int x) rhs = do y ← int_val rhs; z ← int64 (x -ℤ y); ok (int z)
  sub (time x) rhs = do y ← int_val rhs; z ← int64 (x -ℤ y); ok (int z)
  sub (double x) rhs = do y ← double_val rhs; ok (double (cpp.minus x y))
  sub v rhs = refuse v "sub"

  -- `mul`
  unfoldable pub mul : DataValue → DataValue → Result DataValue
  unfolding refuse
  mul (int x) rhs = do y ← int_val rhs; z ← int64 (x *ℤ y); ok (int z)
  mul (double x) rhs = do y ← double_val rhs; ok (double (cpp.times x y))
  mul v rhs = refuse v "mul"

  -- `div`
  unfoldable pub div : DataValue → DataValue → Result DataValue
  unfolding refuse
  div (int x) rhs = do
    y ← int_val rhs
    if eqb_ℤ y (pos 0) then err divide_by_zero else (do z ← int64 (quot x y); ok (int z))
  div (double x) rhs = do
    y ← double_val rhs
    if cpp.is_eq y cpp.zero_double then err divide_by_zero else ok (double (cpp.over x y))
  div v rhs = refuse v "div"

  -- `mod`; it is undefined where the quotient is.
  unfoldable pub mod_values : DataValue → DataValue → Result DataValue
  unfolding refuse
  mod_values (int x) rhs = do
    y ← int_val rhs
    if eqb_ℤ y (pos 0) then err divide_by_zero else (do _ ← int64 (quot x y); ok (int (rem x y)))
  mod_values v rhs = refuse v "mod"

  -- `abs`
  unfoldable pub abs : DataValue → Result DataValue
  unfolding refuse
  abs (int x) = do z ← int64 (pos (magnitude x)); ok (int z)
  abs (double x) = ok (double (cpp.fabs x))
  abs v = refuse v "abs"

  -- `equal`
  unfoldable pub equal : DataValue → DataValue → Result Bool
  unfolding refuse is_true same_chars
  equal undefined rhs = ok false
  equal (boolean x) rhs = do y ← int_val rhs; ok (same_truth (is_true x) (is_true y))
  equal (int x) rhs = do y ← int_val rhs; ok (eqb_ℤ x y)
  equal (double x) rhs = do y ← double_val rhs; ok (cpp.is_eq x y)
  equal (string s) rhs = do t ← string_val rhs; ok (same_chars s t)
  equal v rhs = refuse v "equal"

  -- `less`
  unfoldable pub less : DataValue → DataValue → Result Bool
  unfolding refuse before_chars
  less (int x) rhs = do y ← int_val rhs; ok (ltb_ℤ x y)
  less (double x) rhs = do y ← double_val rhs; ok (cpp.is_lt x y)
  less (string s) rhs = do t ← string_val rhs; ok (before_chars s t)
  less v rhs = refuse v "less"

  -- `greater`
  unfoldable pub greater : DataValue → DataValue → Result Bool
  unfolding refuse before_chars
  greater (int x) rhs = do y ← int_val rhs; ok (ltb_ℤ y x)
  greater (double x) rhs = do y ← double_val rhs; ok (cpp.is_lt y x)
  greater (string s) rhs = do t ← string_val rhs; ok (before_chars t s)
  greater v rhs = refuse v "greater"

  -- The loops of `add` over the argument tuple, which all start from nothing.
  unfoldable pub sum_ints : ℤ → List DataValue → Result ℤ
  sum_ints acc [] = ok acc
  sum_ints acc (v ∷ vs) = do x ← int_val v; next ← int64 (acc +ℤ x); sum_ints next vs

  unfoldable pub sum_doubles : ℕ → List DataValue → Result ℕ
  sum_doubles acc [] = ok acc
  sum_doubles acc (v ∷ vs) = do x ← double_val v; sum_doubles (cpp.plus acc x) vs

  unfoldable pub join_strings : List ℕ → List DataValue → Result (List ℕ)
  join_strings acc [] = ok acc
  join_strings acc (v ∷ vs) = do s ← string_val v; join_strings (acc ++ s) vs

  -- `add` on the whole tuple, called on its first value.
  unfoldable pub add : DataValue → List DataValue → Result DataValue
  unfolding refuse sum_ints sum_doubles join_strings
  add (int x) vs = do z ← sum_ints (pos 0) vs; ok (int z)
  add (double x) vs = do z ← sum_doubles cpp.zero_double vs; ok (double z)
  add (string x) vs = do s ← join_strings [] vs; ok (string s)
  add v vs = refuse v "add"
