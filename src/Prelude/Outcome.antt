-- ===== src/Prelude/Outcome.antt =====
-- What an operation of the interpreter ends with: a value, an exception of the source, or (of a
-- model function that runs on fuel) the end of its fuel.
use Prim.Native.Nat.{ℕ}
use Prim.Native.String.{String}
use mathlib.Core.Path.{◌≡◌, refl}

-- The exceptions that the run time throws, by what they say.
pub data Error : Type 0 where
  -- `outOfRange(aIndex, argNum)` of SExecutionContext
  out_of_range : ℕ → ℕ → Error
  -- `std::out_of_range`, thrown by `at`
  bad_access : Error
  -- `divideByZero()`, `invalidOperation()`, `invalidValueType()` of BaseOps
  divide_by_zero : Error
  invalid_operation : String → Error
  invalid_value_type : Error
  type_mismatch : Error
  -- an exception rethrown with the position and the function in which it arose
  located : ℕ × ℕ → String → Error → Error
  -- undefined behaviour: a read or write out of bounds, a dangling pointer, the wrong union member
  fault : Error

pub data Result {ℓ} (A : Type ℓ) : Type ℓ where
  ok : A → Result A
  err : Error → Result A
  timeout : Result A

-- An exception, and the end of the fuel, skip what follows.
infixl 5 ◌>>=◌
abbrev pub ◌>>=◌ {ℓ κ} : {B : Type κ} {A : Type ℓ} → Result A → (A → Result B) → Result B
timeout >>= next = timeout
err thrown >>= next = err thrown
ok value >>= next = next value

-- `catch (std::exception & thrown) { throw ...; }`
abbrev pub rethrow {ℓ} : {A : Type ℓ} → (Error → Error) → Result A → Result A
rethrow f (ok a) = ok a
rethrow f (err e) = err (f e)
rethrow f timeout = timeout

pub bind_assoc {ℓ κ μ} :
    {A : Type ℓ} {B : Type κ} {C : Type μ} (m : Result A) (f : A → Result B) (g : B → Result C)
    → (m >>= f >>= g) ≡ (m >>= λ a. f a >>= g)
bind_assoc (ok a) f g = refl
bind_assoc (err e) f g = refl
bind_assoc timeout f g = refl

pub bind-rethrow {ℓ κ} :
    {A : Type ℓ} {B : Type κ} (h : Error → Error) (m : Result A) (f : A → B)
    → rethrow h (m >>= λ a. ok (f a)) ≡ (rethrow h m >>= λ a. ok (f a))
bind-rethrow h (ok a) f = refl
bind-rethrow h (err e) f = refl
bind-rethrow h timeout f = refl

-- A sequence that ends well, taken apart.
pub bind-ok {ℓ κ} :
    {A : Type ℓ} {B : Type κ} (m : Result A) (next : A → Result B) (b : B)
    → (m >>= next) ≡ ok b
    → (a : A) × (m ≡ ok a) × (next a ≡ ok b)
bind-ok (ok a) next b e = (a, refl, e)
bind-ok (err thrown) next b e = cc
bind-ok timeout next b e = cc
