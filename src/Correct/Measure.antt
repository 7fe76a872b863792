-- ===== src/Correct/Measure.antt =====
-- Source/InternalForm/Generator.h: how many schemes have no entry in the table yet. Every body that
-- the generator enters opens an entry, so that the bodies nest no deeper than that.
use fptl.Prelude.{
  ℕ, zero, suc, ◌+◌, ◌≤◌, ◌<◌, ◌≡◌, refl, ◌∙◌, ap, subst, inl, inr, Bool-cases, some, none, Option,
  [], length, get_elem?, ◌==◌, arith,
}
use fptl.Scheme.{
  Node, function, parallel, sequential, condition, scheme, take_node, constant, string_constant,
  FScheme, Program,
}
use fptl.Form.{FormPtr, null}
use fptl.Exec.Steps.{Functions, find_fun}
use fptl.Generator.{declare_fun}
use fptl.Correct.Table.{Grows, declare-Grows, find-declare}

-- Every scheme that the node calls is one of the program's.
abbrev pub IsCalling : Program → Node → Type 0
IsCalling prog (function fn long name p) = Unit
IsCalling prog (parallel long l r) = IsCalling prog l × IsCalling prog r
IsCalling prog (sequential long l r) = IsCalling prog l × IsCalling prog r
IsCalling prog (condition long c t e) = IsCalling prog c × IsCalling prog t × IsCalling prog e
IsCalling prog (scheme k) = k < length prog
IsCalling prog (take_node from to p) = Unit
IsCalling prog (constant v p) = Unit
IsCalling prog (string_constant s p) = Unit

-- The same for every scheme of the program.
abbrev pub IsProgram : Program → Type 0
IsProgram prog = (k : ℕ) (s : FScheme) → get_elem? prog k ≡ some s → IsCalling prog s.first_node

abbrev pub count : Option FormPtr → ℕ
count none = 1
count (some p) = 0

pub missing : ℕ → Functions → ℕ
missing zero fs = 0
missing (suc n) fs = count (find_fun fs n) + missing n fs

count-Grows :
    (a b : Option FormPtr)
    → ((p : FormPtr) → a ≡ some p → (q : FormPtr) × (b ≡ some q))
    → count b ≤ count a
count-Grows none none g = omega arith
count-Grows none (some q) g = omega arith
count-Grows (some p) b g = let (q, e) = g p refl in rw e (omega arith)

pub missing-Grows : (n : ℕ) (fs gs : Functions) → Grows fs gs → missing n gs ≤ missing n fs
unfolding missing
missing-Grows zero fs gs g = omega arith
missing-Grows (suc n) fs gs g =
    omega (arith, missing-Grows n fs gs g, count-Grows (find_fun fs n) (find_fun gs n) (g n))

-- Opening the entry of a scheme that has none.
pub missing-declare :
    (n k : ℕ) (fs : Functions)
    → k < n
    → find_fun fs k ≡ none
    → missing n (declare_fun k fs) < missing n fs
unfolding missing
missing-declare zero k fs h e = absurd (omega arith)
missing-declare (suc n) k fs h e = elim (Bool-cases (k == n)) [
  | inl here ↦
      let same : k ≡ n = ground arith in
      let entry : find_fun (declare_fun k fs) n ≡ some null = find-declare k n fs ∙ rw here in
      let opened : count (find_fun (declare_fun k fs) n) ≡ 0 = ap count entry in
      let open_before : count (find_fun fs n) ≡ 1 =
        ap count (subst (λ j. find_fun fs j ≡ none) same e) in
      omega (arith, opened, open_before, missing-Grows n fs (declare_fun k fs) (declare-Grows k fs))
  | inr before ↦
      let less : k < n = ground arith in
      let entry : find_fun (declare_fun k fs) n ≡ find_fun fs n = find-declare k n fs ∙ rw before in
      let kept : count (find_fun (declare_fun k fs) n) ≡ count (find_fun fs n) = ap count entry in
      omega (arith, kept, missing-declare n k fs less e)
]

pub missing-start : (n : ℕ) → missing n [] ≡ n
unfolding missing find_fun
missing-start zero = refl
missing-start (suc n) = omega (arith, missing-start n)

-- A scheme of the program that has no entry is missed.
pub missing-pos : (n k : ℕ) (fs : Functions) → k < n → find_fun fs k ≡ none → 0 < missing n fs
missing-pos n k fs h e = omega (arith, missing-declare n k fs h e)
