-- ===== src/Correct/Table.antt =====
-- Source/InternalForm/Generator.h, Generator.cpp: the table of functions that the generator fills
-- in. Every scheme that is called is entered once, and its entry is its code.
use fptl.Prelude.{
  ℕ, ◌≡◌, refl, sym, ◌∙◌, ap, Bool, false, inl, inr, Bool-cases, some, [], ◌∷◌, get_elem?, ◌==◌,
  if◌then◌else◌, Result, ok, ◌>>=◌, arith,
}
use fptl.Scheme.{
  Node, function, parallel, sequential, condition, scheme, take_node, constant, string_constant,
  FScheme, Program,
}
use fptl.Form.{Form, FormPtr, null, ref, ret}
use fptl.Exec.Steps.{Functions, find_fun}
use fptl.Generator.{span, declare_fun, define_fun}

-- There is a value, and `P` holds of it.
abbrev pub Gives {ℓ κ} : {A : Type ℓ} → (A → Type κ) → Result A → Type (ℓ ⊔ κ)
Gives {A = A} P m = (a : A) × (m ≡ ok a) × P a

pub Gives-bind {ℓ κ μ ν} :
    {A : Type ℓ} {B : Type κ} {P : A → Type μ} {Q : B → Type ν} {m : Result A} {f : A → Result B}
    → Gives P m
    → ((a : A) → P a → Gives Q (f a))
    → Gives Q (m >>= f)
Gives-bind {f = f} (a, e, p) k = let (b, d, q) = k a p in (b, ap (λ r. r >>= f) e ∙ d, q)

pub find-declare :
    (k j : ℕ) (fs : Functions)
    → find_fun (declare_fun k fs) j ≡ (if k == j then some null else find_fun fs j)
unfolding find_fun declare_fun
find-declare k j fs = refl

pub find-define :
    (k j : ℕ) (body : Form) (fs : Functions)
    → find_fun (define_fun k body fs) j ≡ (if k == j then some (ref body) else find_fun fs j)
unfolding find_fun define_fun
find-define k j body [] = refl
find-define k j body ((i, f) ∷ fs) = ground (arith, find-define k j body fs)

-- Every scheme that the node calls has an entry.
abbrev pub IsClosed : Functions → Node → Type 0
IsClosed fs (function fn long name p) = Unit
IsClosed fs (parallel long l r) = IsClosed fs l × IsClosed fs r
IsClosed fs (sequential long l r) = IsClosed fs l × IsClosed fs r
IsClosed fs (condition long c t e) = IsClosed fs c × IsClosed fs t × IsClosed fs e
IsClosed fs (scheme k) = (p : FormPtr) × (find_fun fs k ≡ some p)
IsClosed fs (take_node from to p) = Unit
IsClosed fs (constant v p) = Unit
IsClosed fs (string_constant s p) = Unit

-- Entries stay.
abbrev pub Grows : Functions → Functions → Type 0
Grows fs gs =
    (k : ℕ) (p : FormPtr) → find_fun fs k ≡ some p → (q : FormPtr) × (find_fun gs k ≡ some q)

-- No entry is left open that was not open before.
abbrev pub KeepsOpen : Functions → Functions → Type 0
KeepsOpen fs gs = (k : ℕ) → find_fun gs k ≡ some null → find_fun fs k ≡ some null

-- A finished entry is the code of its scheme, and calls only schemes with an entry.
abbrev pub IsSound : Program → Bool → Functions → Type 0
IsSound prog pro fs =
    (k : ℕ) (body : Form)
    → find_fun fs k ≡ some (ref body)
    → (s : FScheme) × (get_elem? prog k ≡ some s)
      × (body ≡ span prog pro false s.first_node ret)
      × IsClosed fs s.first_node

pub IsClosed-Grows : (fs gs : Functions) (n : Node) → Grows fs gs → IsClosed fs n → IsClosed gs n
IsClosed-Grows fs gs (function fn long name p) g h = tt
IsClosed-Grows fs gs (parallel long l r) g (a, b) =
    (IsClosed-Grows fs gs l g a, IsClosed-Grows fs gs r g b)
IsClosed-Grows fs gs (sequential long l r) g (a, b) =
    (IsClosed-Grows fs gs l g a, IsClosed-Grows fs gs r g b)
IsClosed-Grows fs gs (condition long c t e) g (a, b, d) =
    (IsClosed-Grows fs gs c g a, IsClosed-Grows fs gs t g b, IsClosed-Grows fs gs e g d)
IsClosed-Grows fs gs (scheme k) g (p, h) = g k p h
IsClosed-Grows fs gs (take_node from to p) g h = tt
IsClosed-Grows fs gs (constant v p) g h = tt
IsClosed-Grows fs gs (string_constant s p) g h = tt

pub Grows-refl : (fs : Functions) → Grows fs fs
Grows-refl fs k p e = (p, e)

pub Grows-trans : (fs gs hs : Functions) → Grows fs gs → Grows gs hs → Grows fs hs
Grows-trans fs gs hs a b k p e = let (q, d) = a k p e in b k q d

-- What a visit of a node gives: its code, and a table with the entries that the code needs.
pub record Visited (prog : Program) (pro chain : Bool) (n : Node) (tail : Form) (fs : Functions)
    (r : Form × Functions) : Type 0 where
  pub code : r.0 ≡ span prog pro chain n tail
  pub closed : IsClosed r.1 n
  pub grows : Grows fs r.1
  pub keeps_open : KeepsOpen fs r.1
  pub sound : IsSound prog pro r.1

pub declare-Grows : (k : ℕ) (fs : Functions) → Grows fs (declare_fun k fs)
declare-Grows k fs j p e = elim (Bool-cases (k == j)) [
  | inl same ↦ (null, find-declare k j fs ∙ rw same)
  | inr other ↦ (p, find-declare k j fs ∙ rw other e)
]

pub define-Grows : (k : ℕ) (body : Form) (fs : Functions) → Grows fs (define_fun k body fs)
define-Grows k body fs j p e = elim (Bool-cases (k == j)) [
  | inl same ↦ (ref body, find-define k j body fs ∙ rw same)
  | inr other ↦ (p, find-define k j body fs ∙ rw other e)
]

-- Opening an entry keeps the table sound.
pub declare-IsSound :
    (prog : Program) (pro : Bool) (k : ℕ) (fs : Functions)
    → IsSound prog pro fs
    → IsSound prog pro (declare_fun k fs)
declare-IsSound prog pro k fs sound j body e = elim (Bool-cases (k == j)) [
  | inl same ↦ ground (arith, find-declare k j fs)
  | inr other ↦
      let (s, there, code, closed) = sound j body (sym (find-declare k j fs ∙ rw other) ∙ e) in
      (
        s,
        there,
        code,
        IsClosed-Grows fs (declare_fun k fs) s.first_node (declare-Grows k fs) closed,
      )
]

-- Closing an entry with the code of its scheme keeps the table sound.
pub define-IsSound :
    (prog : Program) (pro : Bool) (k : ℕ) (fs : Functions) (s : FScheme) (body : Form)
    → IsSound prog pro fs
    → get_elem? prog k ≡ some s
    → body ≡ span prog pro false s.first_node ret
    → IsClosed fs s.first_node
    → IsSound prog pro (define_fun k body fs)
define-IsSound prog pro k fs s body sound there code closed j b e =
    let later = define-Grows k body fs in
    elim (Bool-cases (k == j)) [
      | inl same ↦ (
        s,
        ground (arith, there),
        ground (arith, code, find-define k j body fs),
        IsClosed-Grows fs (define_fun k body fs) s.first_node later closed,
      )
      | inr other ↦
          let (t, there', code', closed') =
            sound j b (sym (find-define k j body fs ∙ rw other) ∙ e) in
          (t, there', code', IsClosed-Grows fs (define_fun k body fs) t.first_node later closed')
    ]

pub define-KeepsOpen :
    (k : ℕ) (body : Form) (fs gs : Functions)
    → KeepsOpen (declare_fun k fs) gs
    → KeepsOpen fs (define_fun k body gs)
define-KeepsOpen k body fs gs h j e = elim (Bool-cases (k == j)) [
  | inl same ↦ ground (arith, find-define k j body gs)
  | inr other ↦
      sym (find-declare k j fs ∙ rw other) ∙ h j (sym (find-define k j body gs ∙ rw other) ∙ e)
]
