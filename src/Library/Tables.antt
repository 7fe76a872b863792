-- ===== src/Library/Tables.antt =====
-- Source/Libraries: the functions that a table gives for a name.
use fptl.Prelude.{Bool, List, [], ◌∷◌, ◌++◌, length, String, ok, Bool-cases, inl, inr}
use text.Mathlib.Text.{◌==◌}
use fptl.Prelude.Int.{pos}
use fptl.Value.{int}
use fptl.Scheme.{TFunction}
use fptl.Ops.{Foreign}
use fptl.Semantics.{IsLocal}
use fptl.Library.{
  tuple_length, add_tuple, functions, standard_functions, logic_functions, arithmetic_functions,
  get_function,
}
use fptl.Library.Local.{
  Pushes-IsLocal, tuple_length-Pushes, add_args, add_tuple-Pushes, unary-IsLocal, binary-IsLocal,
  nullary-IsLocal, push_undefined-IsLocal,
}

-- Every function of the table works on its argument tuple.
abbrev pub AllLocal : List (String × TFunction × Bool) → Type 0
AllLocal [] = Unit
AllLocal ((name, fn, long) ∷ table) = IsLocal fn × AllLocal table

pub AllLocal-append :
    (xs ys : List (String × TFunction × Bool)) → AllLocal xs → AllLocal ys → AllLocal (xs ++ ys)
AllLocal-append [] ys hx hy = hy
AllLocal-append ((name, fn, long) ∷ xs) ys (here, hx) hy = (here, AllLocal-append xs ys hx hy)

standard_functions-AllLocal : (cpp : Foreign) → AllLocal (standard_functions cpp)
unfolding standard_functions
standard_functions-AllLocal cpp = (
  Pushes-IsLocal tuple_length (λ vs. ok (int (pos (length vs)))) tuple_length-Pushes,
  (
    unary-IsLocal _,
    (
      unary-IsLocal _,
      (
        Pushes-IsLocal (add_tuple cpp) (add_args cpp) (add_tuple-Pushes cpp),
        (
          binary-IsLocal _,
          (binary-IsLocal _, (binary-IsLocal _, (binary-IsLocal _, (unary-IsLocal _, tt)))),
        ),
      ),
    ),
  ),
)

logic_functions-AllLocal : (cpp : Foreign) → AllLocal (logic_functions cpp)
unfolding logic_functions
logic_functions-AllLocal cpp = (
  unary-IsLocal _,
  (
    binary-IsLocal _,
    (
      binary-IsLocal _,
      (
        binary-IsLocal _,
        (
          binary-IsLocal _,
          (
            binary-IsLocal _,
            (binary-IsLocal _, (binary-IsLocal _, (binary-IsLocal _, (binary-IsLocal _, tt)))),
          ),
        ),
      ),
    ),
  ),
)

arithmetic_functions-AllLocal : (cpp : Foreign) → AllLocal (arithmetic_functions cpp)
unfolding arithmetic_functions
arithmetic_functions-AllLocal cpp = (
  unary-IsLocal _,
  (
    unary-IsLocal _,
    (
      unary-IsLocal _,
      (
        unary-IsLocal _,
        (
          unary-IsLocal _,
          (
            unary-IsLocal _,
            (
              unary-IsLocal _,
              (unary-IsLocal _, (unary-IsLocal _, (nullary-IsLocal _, (nullary-IsLocal _, tt)))),
            ),
          ),
        ),
      ),
    ),
  ),
)

pub functions-AllLocal : (cpp : Foreign) → AllLocal (functions cpp)
unfolding functions
functions-AllLocal cpp =
    AllLocal-append (arithmetic_functions cpp) (logic_functions cpp ++ standard_functions cpp)
      (arithmetic_functions-AllLocal cpp)
      (AllLocal-append (logic_functions cpp) (standard_functions cpp) (logic_functions-AllLocal cpp)
        (standard_functions-AllLocal cpp))

-- A function that a table gives for a name works on its argument tuple only, if those in the table
-- do; a name that is not in the table gives the function that pushes the undefined value.
pub get_function-IsLocal :
    (table : List (String × TFunction × Bool)) (name : String)
    → AllLocal table
    → IsLocal (get_function table name).0
unfolding get_function
get_function-IsLocal [] name all = push_undefined-IsLocal
get_function-IsLocal ((own, f, long) ∷ table) name (here, all) = elim (Bool-cases (own == name)) [
  | inl same ↦ rw (get_function, same) here
  | inr other ↦ rw (get_function, other) (get_function-IsLocal table name all)
]
