-- ===== src/Frame/Unwind.antt =====
-- Source/Evaluator/Context.cpp: `unwind` folds the stack. It copies the results down over the
-- operands in place, front to back, and cuts the vector off behind them.
use fptl.Prelude.{ℕ, ◌+◌, ◌≡◌, List, ◌++◌, length, length-append, ok, arith}
use fptl.Value.{DataValue, uninitialised}
use fptl.Vector.Moves.{copy_down_lem, resize_prefix}
use fptl.Frame.{unwind, sub_size}

results_pos :
    (base mid res : List DataValue)
    → sub_size (length (base ++ (mid ++ res))) (length res) ≡ length base + length mid
unfolding sub_size
results_pos base mid res = ground (arith, length-append base (mid ++ res), length-append mid res)

-- The operands between the old top of the stack and the results go, the results stay.
pub unwind_lem :
    (base mid res : List DataValue) (q n p a : ℕ)
    → unwind p a
        (length base)
        (record { stack = base ++ (mid ++ res); arg_pos = q; arity = length res; arg_num = n })
      ≡ ok (record { stack = base ++ res; arg_pos = p; arity = length res + a; arg_num = n })
unfolding unwind
unwind_lem base mid res q n p a =
    let (left, moved) = copy_down_lem res base mid in
    rw (results_pos base mid res, moved, resize_prefix uninitialised base res left)
