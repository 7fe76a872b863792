-- ===== src/Exec/Order.antt =====
-- Source/Evaluator/EvaluatorUnit.cpp (`join`, `moveToMainOrder`): which tasks a join moves to the
-- main order.
use fptl.Prelude.{
  ℕ, zero, suc, ◌<◌, ◌≡◌, refl, ◌∙◌, ap, true, false, inl, inr, Bool-cases, some, List, [], ◌∷◌,
  length, set, get_elem?-set_self, ok, arith,
}
use fptl.Evaluator.{Context, Evaluator, load, store, deref, move_to_main_order}
use fptl.Exec.{prepare_join}

-- The child of the executing context, as the join leaves it.
abbrev lowered : Context → Context
lowered task = record task { new_proactive_level = false }

load-store :
    (a : ℕ) (c : Context) (u : Evaluator) → a < length u.tasks → load a (store a c u) ≡ ok c
unfolding load store
load-store a c u h = rw (load, get_elem?-set_self u.tasks a (some c) h) refl

set-set {ℓ} : {A : Type ℓ} (xs : List A) (i : ℕ) (v w : A) → set (set xs i v) i w ≡ set xs i w
set-set [] i v w = refl
set-set (x ∷ xs) zero v w = refl
set-set (x ∷ xs) (suc i) v w = ap (λ l. x ∷ l) (set-set xs i v w)

store-store : (a : ℕ) (c d : Context) (u : Evaluator) → store a d (store a c u) ≡ store a d u
unfolding store
store-store a c d u = λ i. record u { tasks = set-set u.tasks a (some c) (some d) i }

deref_self : (ctx : Context) (u : Evaluator) → deref ctx u (some ctx.address) ≡ ok ctx
unfolding deref
deref_self ctx u = ground arith

-- A child of a context that is not proactive stays in its order.
move_to_main_order-stays :
    (g : ℕ) (ctx task : Context) (a : ℕ) (u : Evaluator)
    → load a u ≡ ok task
    → deref ctx u task.parent ≡ ok ctx
    → ctx.proactive ≡ false
    → move_to_main_order (suc g) ctx a u ≡ ok (store a (lowered task) u)
unfolding move_to_main_order
move_to_main_order-stays g ctx task a u found above pro = rw (found, above, pro, found) refl

-- Joining a proactive task of the executing context, the unit's newest, takes its level flag away
-- and changes nothing else before the wait: no task is moved to the main order, whether the
-- executing context is proactive or not.
pub prepare_join_lem :
    (g : ℕ) (ctx task : Context) (a : ℕ) (u : Evaluator)
    → a < length u.tasks
    → load a u ≡ ok task
    → task.proactive ≡ true
    → task.parent ≡ some ctx.address
    → prepare_join (suc g) ctx a u ≡ ok (store a (record task { new_proactive_level = false }) u)
unfolding prepare_join
prepare_join_lem g ctx task a u inside found pro child =
    let above : (v : Evaluator) → deref ctx v task.parent ≡ ok ctx =
      λ v. ap (deref ctx v) child ∙ deref_self ctx v in
    let kept =
      ap (λ b. ok (store a (record task { proactive = b; new_proactive_level = false }) u)) pro in
    elim (Bool-cases ctx.proactive) [
      | inl on ↦ rw (found, pro, above u, on) kept
      | inr off ↦
          rw (found, pro, above u, off)
            (move_to_main_order-stays g ctx (lowered task) a (store a (lowered task) u)
                (load-store a (lowered task) u inside) (above (store a (lowered task) u)) off
              ∙ ap ok (store-store a (lowered task) (lowered task) u)
              ∙ kept)
    ]
