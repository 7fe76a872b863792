-- ===== src/Semantics.antt =====
-- The meaning of a functional scheme as a function on tuples, with no stack, no code and no tasks:
-- the specification that the generator and the internal form are held to.
use fptl.Prelude.{
  ℕ, zero, suc, ◌+◌, ◌-◌, ◌≡◌, Bool, true, false, not, ◌||◌, none, some, List, [], ◌∷◌, ◌++◌,
  length, get_elem?, get_last?, take, drop, ltb, leb, if◌then◌else◌, out_of_range, located, fault,
  Result, ok, err, timeout, rethrow, ◌>>=◌,
}
use fptl.Value.{DataValue, string, is_undefined, is_false}
use fptl.Frame.{Frame, next_size, push_all}
use fptl.Frame.Args.{args, IsPlaced}
use fptl.Scheme.{
  TFunction, Node, function, parallel, sequential, condition, scheme, take_node, constant,
  string_constant, Program,
}
use fptl.Evaluator.{new_frame}
use fptl.Exec.Steps.{resolve}

-- A basic function as a function on tuples: what it pushes when called on the tuple alone.
unfoldable pub apply : TFunction → List DataValue → Result (List DataValue)
apply fn vs = do fr ← fn (new_frame vs); ok (drop (length vs) fr.stack)

-- The function depends on its argument tuple only, and only pushes.
abbrev pub IsLocal : TFunction → Type 0
IsLocal fn = (fr : Frame) → IsPlaced fr → fn fr ≡ (apply fn (args fr) >>= λ vs. ok (push_all vs fr))

-- The values from index `i` to index `j`, both included; empty if `j` lies before `i`.
unfoldable pub select : ℕ → ℕ → List DataValue → Result (List DataValue)
select i j vs =
    if leb i j
    then (if ltb j (length vs)
        then ok (take (j + 1 - i) (drop i vs))
        else (if ltb i (length vs)
            then err (out_of_range (next_size (length vs)) (length vs))
            else err (out_of_range (next_size i) (length vs))))
    else ok []

unfoldable pub any_undefined : List DataValue → Bool
any_undefined [] = false
any_undefined (v ∷ vs) = is_undefined v || any_undefined vs

-- A predicate's tuple fails if it holds an undefined value or ends in `false`. The empty tuple
-- passes.
unfoldable pub holds : List DataValue → Bool
unfolding any_undefined
holds vs = not (any_undefined vs || elim (get_last? vs) [ none ↦ false | some v ↦ is_false v ])

-- The fuel bounds the depth of the calls of schemes.
unfoldable pub eval : Program → ℕ → Node → List DataValue → Result (List DataValue)
eval prog f (function fn long name p) vs = rethrow (located p name) (apply fn vs)
eval prog f (parallel long l r) vs = do a ← eval prog f l vs; b ← eval prog f r vs; ok (a ++ b)
eval prog f (sequential long first second) vs = do a ← eval prog f first vs; eval prog f second a
eval prog f (condition long c t e) vs = do
  p ← eval prog f c vs
  elim (holds p) [ true ↦ eval prog f t vs | false ↦ eval prog f e vs ]
eval prog zero (scheme k) vs = timeout
eval prog (suc f) (scheme k) vs = elim (get_elem? prog k) [
  | none ↦ err fault
  | some s ↦ eval prog f s.first_node vs
]
eval prog f (take_node from to p) vs =
    rethrow (located p "") (select (resolve (length vs) from) (resolve (length vs) to) vs)
eval prog f (constant v p) vs = ok (v ∷ [])
eval prog f (string_constant s p) vs = ok (string s ∷ [])
