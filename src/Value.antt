-- ===== src/Value.antt =====
-- Source/DataTypes/Values/DataValue.h: the variant that holds a value of the language. The pair of
-- an `Ops` pointer and a union member is one constructor for each class of operations.
use fptl.Prelude.{ℕ, List, Bool, true, false}
use fptl.Prelude.Int.{ℤ, pos}

-- A `double` is its 64-bit pattern; an array is the address of its storage; the values of an
-- abstract data type are those of its constructor's tuple, and `ctor` stands for the
-- `Constructor` object. `uninitialised` is `DataValue()`, whose `Ops` pointer is null.
mutual
  pub data DataValue : Type 0 where
    uninitialised undefined : DataValue
    boolean int time : ℤ → DataValue
    double : ℕ → DataValue
    string : List ℕ → DataValue
    adt : ℕ → DataValues → DataValue
    array : ℕ → DataValue

  pub data DataValues : Type 0 where
    nil : DataValues
    cons : DataValue → DataValues → DataValues

-- `arg.getOps() == undefined.getOps()`
unfoldable pub is_undefined : DataValue → Bool
is_undefined undefined = true
is_undefined _ = false

-- `cond.getOps() == falseConst.getOps() && !cond.mIntVal`
unfoldable pub is_false : DataValue → Bool
is_false (boolean (pos ℕ.zero)) = true
is_false _ = false
