-- ===== src/Frame/Tests.antt =====
-- The stack operations of Source/Evaluator/Context.cpp on a small stack.
use fptl.Prelude.{◌≡◌, refl, [], ◌∷◌, out_of_range, ok, err, arith}
use fptl.Prelude.Int.{pos}
use fptl.Value.{DataValue, int, undefined}
use fptl.Frame.{Frame, next_size, get_arg, advance, unwind}
use fptl.Frame.Args.{args, IsPlaced, get_arg_lem, advance_lem}
use fptl.Frame.Unwind.{unwind_lem}

abbrev one : DataValue
one = int (pos 1)

abbrev two : DataValue
two = int (pos 2)

abbrev three : DataValue
three = int (pos 3)

abbrev sample : Frame
sample = record { stack = one ∷ two ∷ three ∷ []; arg_pos = 0; arity = 1; arg_num = 2 }

unwind_lem_example :
    unwind 0 1 1
      (record { stack = one ∷ undefined ∷ two ∷ three ∷ []; arg_pos = 1; arity = 2; arg_num = 1 })
    ≡ ok (record { stack = one ∷ two ∷ three ∷ []; arg_pos = 0; arity = 3; arg_num = 1 })
unwind_lem_example = unwind_lem (one ∷ []) (undefined ∷ []) (two ∷ three ∷ []) 1 1 0 1

beyond : get_arg sample 2 ≡ err (out_of_range 3 2)
unfolding get_arg next_size
beyond = refl

-- `[-3]` of a pair has the index 2 ^ 64 - 1.
get_arg_lem_example : get_arg sample 18446744073709551615 ≡ err (out_of_range 0 2)
unfolding next_size
get_arg_lem_example = get_arg_lem sample 18446744073709551615 (omega arith)

advance_lem_example :
    IsPlaced (advance sample) × (args (advance sample) ≡ three ∷ []) × ((advance sample).arity ≡ 0)
advance_lem_example = advance_lem sample (one ∷ two ∷ []) (three ∷ []) refl refl
