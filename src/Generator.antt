-- ===== src/Generator.antt =====
-- Source/InternalForm/Generator.h, Generator.cpp: the translation of a functional scheme to the
-- internal form. The tail that the source keeps in `mTail` is an argument, and what it leaves in
-- `mResult` is the result.
use fptl.Prelude.{
  ℕ, zero, suc, Bool, true, false, not, ◌&&◌, ◌||◌, none, some, List, [], ◌∷◌, get_elem?, length,
  ◌==◌, if◌then◌else◌, fault, Result, ok, err, timeout, ◌>>=◌, String,
}
use fptl.Value.{string}
use fptl.Frame.{push}
use fptl.Scheme.{
  TFunction, Node, function, parallel, sequential, condition, scheme, take_node, constant,
  string_constant, FScheme, Program, is_long,
}
use fptl.Form.{
  Form, FormPtr, null, ref, par_fork, par_join, seq_begin, seq_end, seq_advance, cond_start,
  cond_choose, rec_fn, ret, basic_fn, get_args, load_constant, end_op,
}
use fptl.Exec.Steps.{Functions, find_fun}

-- `Constant::pushString`
unfoldable pub push_string : List ℕ → TFunction
push_string s fr = ok (push (string s) fr)

-- `getFun`'s neighbour: the name that `RecFn` is given.
unfoldable pub scheme_name : Program → ℕ → String
scheme_name prog k = elim (get_elem? prog k) [ none ↦ "" | some s ↦ s.name ]

-- Does a branch of a condition stand in the condition's own code, or is it forked ahead.
abbrev pub in_place : Program → Bool → Node → Node → Bool
in_place prog pro c branch = not pro || (not (is_long prog c) || not (is_long prog branch))

abbrev pub branch_tail : Bool → Form → Form
branch_tail true tail = tail
branch_tail false tail = end_op

abbrev pub placed_branch : Bool → Form → FormPtr
placed_branch true f = ref f
placed_branch false f = null

abbrev pub forked_branch : Bool → Form → FormPtr
forked_branch true f = null
forked_branch false f = ref f

-- The code of a node in front of a tail, without the bookkeeping of functions. In a chain of
-- compositions, `true`, the node is the left end that is still to be unrolled.
unfoldable pub span : Program → Bool → Bool → Node → Form → Form
span prog pro chain (function fn long name p) tail = basic_fn tail name p fn
span prog pro chain (parallel long l r) tail = elim (is_long prog l && is_long prog r) [
  | true ↦ par_fork (span prog pro false l (par_join tail)) (span prog pro false r end_op)
  | false ↦ span prog pro false l (span prog pro false r tail)
]
span prog pro true (sequential long f s) last =
    span prog pro true f (seq_advance (span prog pro false s last))
span prog pro false (sequential long f s) tail =
    seq_begin (span prog pro true f (seq_advance (span prog pro false s (seq_end tail))))
span prog pro chain (condition long c t e) tail =
    let it = in_place prog pro c t in
    let ie = in_place prog pro c e in
    let then_code = span prog pro false t (branch_tail it tail) in
    let else_code = span prog pro false e (branch_tail ie tail) in
    cond_start
      (span prog pro false c
        (cond_choose (placed_branch it then_code) (placed_branch ie else_code) tail))
      (forked_branch it then_code) (forked_branch ie else_code)
span prog pro chain (scheme k) tail = rec_fn k tail (scheme_name prog k)
span prog pro chain (take_node from to p) tail = get_args tail from to p
span prog pro chain (constant v p) tail = load_constant tail v
span prog pro chain (string_constant s p) tail = basic_fn tail "c_string" (0, 0) (push_string s)

-- `declareFun`, which `visit` calls only for a scheme that is not there, and `defineFun`.
unfoldable pub declare_fun : ℕ → Functions → Functions
declare_fun k fs = (k, null) ∷ fs

unfoldable pub define_fun : ℕ → Form → Functions → Functions
define_fun k body [] = (k, ref body) ∷ []
define_fun k body ((j, f) ∷ fs) =
    if j == k then (j, ref body) ∷ fs else (j, f) ∷ define_fun k body fs

unfoldable pub get_scheme : Program → ℕ → Result FScheme
get_scheme prog k = elim (get_elem? prog k) [ none ↦ err fault | some s ↦ ok s ]

-- `visit` of each class of nodes, with `createSpan` round it. The fuel bounds how deep the bodies
-- of schemes are entered.
unfoldable pub visit :
    Program → Bool → ℕ → Bool → Node → Form → Functions → Result (Form × Functions)
unfolding declare_fun define_fun get_scheme
visit prog pro f chain (function fn long name p) tail fs = ok (basic_fn tail name p fn, fs)
visit prog pro f chain (parallel long l r) tail fs = elim (is_long prog l && is_long prog r) [
  | true ↦ do
    (left, fs₁) ← visit prog pro f false l (par_join tail) fs
    (right, fs₂) ← visit prog pro f false r end_op fs₁
    ok (par_fork left right, fs₂)
  | false ↦ do (right, fs₁) ← visit prog pro f false r tail fs; visit prog pro f false l right fs₁
]
visit prog pro f true (sequential long first second) last fs = do
  (stage, fs₁) ← visit prog pro f false second last fs
  visit prog pro f true first (seq_advance stage) fs₁
visit prog pro f false (sequential long first second) tail fs = do
  (stage, fs₁) ← visit prog pro f false second (seq_end tail) fs
  (chain, fs₂) ← visit prog pro f true first (seq_advance stage) fs₁
  ok (seq_begin chain, fs₂)
visit prog pro f chain (condition long c t e) tail fs = do
  let it = in_place prog pro c t
  let ie = in_place prog pro c e
  (then_code, fs₁) ← visit prog pro f false t (branch_tail it tail) fs
  (else_code, fs₂) ← visit prog pro f false e (branch_tail ie tail) fs₁
  (cond, fs₃) ←
      visit prog pro f false c
        (cond_choose (placed_branch it then_code) (placed_branch ie else_code) tail) fs₂
  ok (cond_start cond (forked_branch it then_code) (forked_branch ie else_code), fs₃)
visit prog pro zero chain (scheme k) tail fs = elim (find_fun fs k) [
  | some _ ↦ ok (rec_fn k tail (scheme_name prog k), fs)
  | none ↦ timeout
]
visit prog pro (suc f) chain (scheme k) tail fs = elim (find_fun fs k) [
  | some _ ↦ ok (rec_fn k tail (scheme_name prog k), fs)
  | none ↦ do
    s ← get_scheme prog k
    (body, fs₁) ← visit prog pro f false s.first_node ret (declare_fun k fs)
    ok (rec_fn k tail (scheme_name prog k), define_fun k body fs₁)
]
visit prog pro f chain (take_node from to p) tail fs = ok (get_args tail from to p, fs)
visit prog pro f chain (constant v p) tail fs = ok (load_constant tail v, fs)
visit prog pro f chain (string_constant s p) tail fs =
    ok (basic_fn tail "c_string" (0, 0) (push_string s), fs)

-- `Generator::generate`: the main form, and the functions that `resolveRec` links the calls to. No
-- scheme is entered twice, so the bodies nest at most as deep as there are schemes.
unfoldable pub generate : Program → Bool → Node → Result (Form × Functions)
unfolding visit
generate prog pro node = visit prog pro (suc (length prog)) false node end_op []
