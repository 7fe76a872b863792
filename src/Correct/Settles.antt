-- ===== src/Correct/Settles.antt =====
-- Functions of a fuel that have one result at every fuel from some amount on, and how they compose.
use fptl.Prelude.{ℕ, suc, ◌+◌, ◌≡◌, ◌∙◌, ap, Error, Result, ok, err, ◌>>=◌, arith}
use Prim.Native.Nat.add

pub record Settles {ℓ} {A : Type ℓ} (h : ℕ → Result A) (r : Result A) : Type ℓ where
  pub fuel : ℕ
  pub settled : (g : ℕ) → h (fuel + g) ≡ r

module _ {ℓ} {A : Type ℓ} where
  pub Settles-const : {h : ℕ → Result A} {r : Result A} → ((g : ℕ) → h g ≡ r) → Settles h r
  Settles-const p = record { fuel = 0; settled = λ g. p (0 + g) }

  pub Settles-suc :
      {h k : ℕ → Result A} {r : Result A} → ((g : ℕ) → h (suc g) ≡ k g) → Settles k r → Settles h r
  Settles-suc {h} p s = record {
    fuel = suc s.fuel;
    settled = λ g. ap h (add.suc s.fuel g) ∙ p (s.fuel + g) ∙ s.settled g;
  }

  pub Settles-eq :
      {h k : ℕ → Result A} {r : Result A} → ((g : ℕ) → h g ≡ k g) → Settles k r → Settles h r
  Settles-eq p s = record { fuel = s.fuel; settled = λ g. p (s.fuel + g) ∙ s.settled g }

module _ {ℓ κ} {A : Type ℓ} {B : Type κ} (m : ℕ → Result A) (k : A → ℕ → Result B) where
  -- The two parts share the fuel, so both amounts together are enough.
  pub Settles-bind :
      {a : A} {r : Result B}
      → Settles m (ok a)
      → Settles (k a) r
      → Settles (λ g. m g >>= λ x. k x g) r
  Settles-bind {a} {r} s t = record {
    fuel = s.fuel + t.fuel;
    settled = λ g.
        ap (λ x. x >>= λ y. k y (s.fuel + t.fuel + g)) (first g)
        ∙ ap (k a) (swap g)
        ∙ t.settled (s.fuel + g);
  }
    where
      assoc : (g : ℕ) → s.fuel + t.fuel + g ≡ s.fuel + (t.fuel + g)
      assoc g = omega arith

      swap : (g : ℕ) → s.fuel + t.fuel + g ≡ t.fuel + (s.fuel + g)
      swap g = omega arith

      first : (g : ℕ) → m (s.fuel + t.fuel + g) ≡ ok a
      first g = ap m (assoc g) ∙ s.settled (t.fuel + g)

  pub Settles-err : {e : Error} → Settles m (err e) → Settles (λ g. m g >>= λ x. k x g) (err e)
  Settles-err s = record {
    fuel = s.fuel;
    settled = λ g. ap (λ x. x >>= λ y. k y (s.fuel + g)) (s.settled g);
  }
