-- ===== src/Gc/Stops/Counts.antt =====
-- Source/GC/GarbageCollector.cpp, mStopped and mGcMutex: how many threads stop, and how many own the
-- mutex.
use fptl.Prelude.{
  ℕ, zero, suc, ◌+◌, ◌≤◌, ◌≡◌, ◌≢◌, refl, ap, Bool, true, false, some, List, [], ◌∷◌, length,
  get_elem?, set, replicate, arith,
}
use fptl.Gc.Stops.{Phase, working, halted, holding, asking, scanning, releasing}

abbrev pub is_halted : Phase → Bool
is_halted (halted back) = true
is_halted _ = false

-- What a phase adds to mStopped, and to the owners of mGcMutex
abbrev pub stops : Phase → ℕ
stops (halted back) = 1
stops asking = 1
stops _ = 0

abbrev pub owns : Phase → ℕ
owns holding = 1
owns asking = 1
owns scanning = 1
owns releasing = 1
owns _ = 0

-- The phases in which mStop stays set
abbrev pub closes : Phase → Bool
closes asking = true
closes scanning = true
closes _ = false

abbrev pub total : (Phase → ℕ) → List Phase → ℕ
total f [] = 0
total f (p ∷ ps) = f p + total f ps

pub total-set :
    (f : Phase → ℕ) (ps : List Phase) (i : ℕ) (p q : Phase)
    → get_elem? ps i ≡ some p
    → total f (set ps i q) + f p ≡ total f ps + f q
total-set f [] i p q e = ground arith
total-set f (x ∷ ps) zero p q e = ground arith
total-set f (x ∷ ps) (suc i) p q e = omega (arith, total-set f ps i p q e)

pub total-le :
    (f : Phase → ℕ) (ps : List Phase) (i : ℕ) (p : Phase)
    → get_elem? ps i ≡ some p
    → f p ≤ total f ps
total-le f [] i p e = ground arith
total-le f (x ∷ ps) zero p e = ground arith
total-le f (x ∷ ps) (suc i) p e = omega (arith, total-le f ps i p e)

-- Two threads at different places both count.
pub total-two :
    (f : Phase → ℕ) (ps : List Phase) (i j : ℕ) (p q : Phase)
    → get_elem? ps i ≡ some p
    → get_elem? ps j ≡ some q
    → i ≢ j
    → f p + f q ≤ total f ps
total-two f [] i j p q ei ej h = ground arith
total-two f (x ∷ ps) zero zero p q ei ej h = absurd (h refl)
total-two f (x ∷ ps) zero (suc j) p q ei ej h = ground (arith, total-le f ps j q ej)
total-two f (x ∷ ps) (suc i) zero p q ei ej h = ground (arith, total-le f ps i p ei)
total-two f (x ∷ ps) (suc i) (suc j) p q ei ej h =
    omega (arith, total-two f ps i j p q ei ej (λ e. h (ap suc e)))

stops-le : (p : Phase) → stops p ≤ 1
stops-le p = ground arith

total-stops-le : (ps : List Phase) → total stops ps ≤ length ps
total-stops-le [] = omega arith
total-stops-le (p ∷ ps) = omega (arith, total-stops-le ps, stops-le p)

-- When as many have stopped as there are threads, each has.
pub all_stopped :
    (ps : List Phase) (i : ℕ) (p : Phase)
    → total stops ps ≡ length ps
    → get_elem? ps i ≡ some p
    → stops p ≡ 1
all_stopped [] i p h e = ground arith
all_stopped (x ∷ ps) zero p h e = ground (arith, total-stops-le ps, stops-le x)
all_stopped (x ∷ ps) (suc i) p h e =
    all_stopped ps i p (omega (arith, total-stops-le ps, stops-le x)) e

pub total-replicate : (f : Phase → ℕ) (n : ℕ) → f working ≡ 0 → total f (replicate n working) ≡ 0
total-replicate f zero e = refl
total-replicate f (suc n) e = omega (arith, total-replicate f n e)

pub get_elem?-replicate :
    (n i : ℕ) (p : Phase) → get_elem? (replicate n working) i ≡ some p → p ≡ working
get_elem?-replicate zero i p e = ground arith
get_elem?-replicate (suc n) zero p e = ground arith
get_elem?-replicate (suc n) (suc i) p e = get_elem?-replicate n i p e

pub get_elem?-set_other :
    (ps : List Phase) (i j : ℕ) (q : Phase) → j ≢ i → get_elem? (set ps i q) j ≡ get_elem? ps j
get_elem?-set_other [] i j q h = refl
get_elem?-set_other (x ∷ ps) zero zero q h = absurd (h refl)
get_elem?-set_other (x ∷ ps) zero (suc j) q h = refl
get_elem?-set_other (x ∷ ps) (suc i) zero q h = refl
get_elem?-set_other (x ∷ ps) (suc i) (suc j) q h = get_elem?-set_other ps i j q (λ e. h (ap suc e))
