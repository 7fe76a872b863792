-- ===== src/Frame.antt =====
-- Source/Evaluator/Context.h, Context.cpp: the part of an execution context that the basic
-- functions work on, the stack of tuples. `stack` is the vector, first element first; its last
-- `arity` values are the results of the current operation, and the `arg_num` values from `arg_pos`
-- on are its argument tuple.
pub mod Args
mod Tests
pub mod Unwind
use fptl.Prelude.{
  ℕ, zero, suc, ◌+◌, ◌-◌, ◌^◌, ◌%◌, Bool, true, false, Option, none, some, List, [], ◌∷◌, ◌++◌,
  length, get_elem?, set, take, drop, replicate, ltb, leb, if◌then◌else◌, Error, bad_access,
  out_of_range, fault, Result, ok, err, timeout, ◌>>=◌,
}
use fptl.Vector.{copy_down, resize}
use fptl.Value.{DataValue, uninitialised}

pub record Frame : Type 0 where
  pub stack : List DataValue
  pub arg_pos : ℕ
  pub arity : ℕ
  pub arg_num : ℕ

-- A difference of two `size_t`, which wraps around.
unfoldable pub sub_size : ℕ → ℕ → ℕ
sub_size a b = if leb b a then a - b else 2 ^ 64 + a - b

-- `i + 1` in `size_t`
unfoldable pub next_size : ℕ → ℕ
next_size i = (i + 1) % 2 ^ 64

-- `stack.at(i)`
unfoldable pub at : List DataValue → ℕ → Result DataValue
at st i = elim (get_elem? st i) [ none ↦ err bad_access | some v ↦ ok v ]

unfoldable pub get_arg : Frame → ℕ → Result DataValue
get_arg fr i =
    if ltb i fr.arg_num
    then at fr.stack (fr.arg_pos + i)
    else err (out_of_range (next_size i) fr.arg_num)

unfoldable pub push : DataValue → Frame → Frame
push v fr = record fr { stack = fr.stack ++ v ∷ []; arity = fr.arity + 1 }

-- Several values, pushed one after the other.
unfoldable pub push_all : List DataValue → Frame → Frame
push_all [] fr = fr
push_all (v ∷ vs) fr = push_all vs (push v fr)

unfoldable pub advance : Frame → Frame
unfolding sub_size
advance fr = record fr {
  arg_pos = sub_size (length fr.stack) fr.arity;
  arg_num = fr.arity;
  arity = 0;
}

unfoldable pub unwind : ℕ → ℕ → ℕ → Frame → Result Frame
unwind arg_pos_old a pos fr = do
  st ← copy_down fr.arity pos (sub_size (length fr.stack) fr.arity) fr.stack
  ok (record fr {
    stack = resize uninitialised (pos + fr.arity) st;
    arg_pos = arg_pos_old;
    arity = fr.arity + a;
  })
