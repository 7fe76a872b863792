-- ===== src/Scheme.antt =====
-- Source/FScheme/FScheme.h, FScheme.cpp: the nodes of a functional scheme. A node keeps the flag
-- `mIsLong` that its constructor computed; an FScheme object, which other nodes point to, is its
-- index in the table of the program.
use fptl.Prelude.{ℕ, String, Bool, false, ◌||◌, Option, none, some, List, get_elem?, Result, ok}
use fptl.Prelude.Int.{ℤ}
use fptl.Value.{DataValue, undefined}
use fptl.Frame.{Frame, push}

-- `TFunction`: a basic function works on the context's stack of tuples.
abbrev pub TFunction : Type 0
TFunction = Frame → Result Frame

-- the line and the column
abbrev pub Pos : Type 0
Pos = ℕ × ℕ

pub data Node : Type 0 where
  function : TFunction → Bool → String → Pos → Node
  parallel sequential : Bool → Node → Node → Node
  condition : Bool → Node → Node → Node → Node
  scheme : ℕ → Node
  take_node : ℤ → ℤ → Pos → Node
  constant : DataValue → Pos → Node
  string_constant : List ℕ → Pos → Node

pub record FScheme : Type 0 where
  pub first_node : Node
  pub name : String
  pub long : Bool

abbrev pub Program : Type 0
Program = List FScheme

unfoldable pub is_long : Program → Node → Bool
is_long prog (function _ long _ _) = long
is_long prog (parallel long _ _) = long
is_long prog (sequential long _ _) = long
is_long prog (condition long _ _ _) = long
is_long prog (scheme k) = elim (get_elem? prog k) [ none ↦ false | some s ↦ s.long ]
is_long prog (take_node _ _ _) = false
is_long prog (constant _ _) = false
is_long prog (string_constant _ _) = false

-- The constructors of the classes.
unfoldable pub parallel_node : Program → Node → Node → Node
unfolding is_long
parallel_node prog l r = parallel (is_long prog l || is_long prog r) l r

unfoldable pub sequential_node : Program → Node → Node → Node
unfolding is_long
sequential_node prog f s = sequential (is_long prog f || is_long prog s) f s

-- The branch that stands in for a missing `else`.
unfoldable pub push_undefined : TFunction
unfolding push
push_undefined fr = ok (push undefined fr)

unfoldable pub condition_node : Program → Node → Node → Option Node → Node
unfolding is_long push_undefined
condition_node prog c t none =
    condition (is_long prog c || is_long prog t) c t (function push_undefined false "" (0, 0))
condition_node prog c t (some e) =
    condition (is_long prog c || is_long prog t || is_long prog e) c t e
