-- ===== src/WorkQueue/Pop.antt =====
-- Source/Evaluator/LockFreeWorkStealingQueue.h: `pop` on a queue that no thief works on.
use fptl.Prelude.{
  ◌+◌, ◌-◌, ◌<◌, ◌≡◌, refl, sym, ◌∙◌, ap, subst, true, false, ◌⊎◌, inl, inr, ◌==◌, Bool-cases, none,
  some, List, [], ◌∷◌, ◌++◌, append_assoc, length, length-append, get_last?, drop_last,
  get_last?-append, drop_last-append, ltb, ok, arith,
}
use fptl.WorkQueue.{WorkStealingQueue, pop_job, pop_at}
use fptl.WorkQueue.Refine.{Represents, read_lem}

module _ {ℓ} {A : Type ℓ} where
  -- A list is empty or has a last element.
  snoc_cases : (xs : List A) → (xs ≡ []) ⊎ ((ys : List A) × (y : A) × (xs ≡ ys ++ y ∷ []))
  snoc_cases [] = inl refl
  snoc_cases (x ∷ xs) = elim (snoc_cases xs) [
    | inl e ↦ inr ([], x, ap (λ l. x ∷ l) e)
    | inr (ys, y, e) ↦ inr (x ∷ ys, y, ap (λ l. x ∷ l) e)
  ]

  -- No jobs: the tail goes back to the head.
  pop_none :
      (q : WorkStealingQueue A)
      → Represents q []
      → (r : WorkStealingQueue A) × (pop_job q ≡ ok (none, r)) × Represents r []
  unfolding pop_job pop_at
  pop_none q p = elim (Bool-cases (q.tail_pos == 0)) [
    | inl at_start ↦ (q, rw (pop_job, at_start) refl, p)
    | inr later ↦
        let below : ltb (q.tail_pos - 1) q.head_pos ≡ true = ground (arith, p.head_eq, p.tail_eq) in
        (
          record q { tail_pos = q.head_pos },
          rw (pop_job, later, pop_at, below) refl,
          record {
            front = p.front;
            back = p.back;
            queue_eq = p.queue_eq;
            head_eq = p.head_eq;
            tail_eq = omega (arith, p.head_eq);
            size_eq = p.size_eq;
            not_empty = p.not_empty;
          },
        )
  ]

  -- One job: both ends go past it.
  pop_single :
      (q : WorkStealingQueue A) (x : A)
      → Represents q (x ∷ [])
      → (r : WorkStealingQueue A) × (pop_job q ≡ ok (some x, r)) × Represents r []
  unfolding pop_job pop_at
  pop_single q x p =
      let later : (q.tail_pos == 0) ≡ false = ground (arith, p.tail_eq) in
      let not_below : ltb (q.tail_pos - 1) q.head_pos ≡ false =
        ground (arith, p.head_eq, p.tail_eq) in
      let not_above : ltb q.head_pos (q.tail_pos - 1) ≡ false =
        ground (arith, p.head_eq, p.tail_eq) in
      (
        record q { head_pos = q.head_pos + 1; tail_pos = q.head_pos + 1 },
        rw
            (
              pop_job,
              later,
              pop_at,
              not_below,
              not_above,
              p.queue_eq,
              read_lem p.front p.back x q.head_pos p.head_eq,
            )
            refl,
        record {
          front = p.front ++ x ∷ [];
          back = p.back;
          queue_eq = p.queue_eq ∙ sym (append_assoc p.front (x ∷ []) p.back);
          head_eq = omega (arith, p.head_eq, length-append p.front (x ∷ []));
          tail_eq = omega (arith, p.head_eq, length-append p.front (x ∷ []));
          size_eq = p.size_eq;
          not_empty = p.not_empty;
        },
      )

  -- Several jobs: the tail goes down.
  pop_several :
      (q : WorkStealingQueue A) (xs : List A) (x : A)
      → 0 < length xs
      → Represents q (xs ++ x ∷ [])
      → (r : WorkStealingQueue A) × (pop_job q ≡ ok (some x, r)) × Represents r xs
  unfolding pop_job pop_at
  pop_several q xs x h p =
      let tail : q.tail_pos ≡ length p.front + length xs + 1 =
        omega (arith, p.tail_eq, length-append xs (x ∷ [])) in
      let later : (q.tail_pos == 0) ≡ false = ground (arith, tail) in
      let not_below : ltb (q.tail_pos - 1) q.head_pos ≡ false = ground (arith, p.head_eq, tail) in
      let above : ltb q.head_pos (q.tail_pos - 1) ≡ true = ground (arith, p.head_eq, tail) in
      let whole : q.queue ≡ (p.front ++ xs) ++ x ∷ p.back =
        p.queue_eq
        ∙ ap (λ l. p.front ++ l) (append_assoc xs (x ∷ []) p.back)
        ∙ sym (append_assoc p.front xs (x ∷ p.back)) in
      let place : q.tail_pos - 1 ≡ length (p.front ++ xs) =
        omega (arith, tail, length-append p.front xs) in
      (
        record q { tail_pos = q.tail_pos - 1 },
        rw
            (
              pop_job,
              later,
              pop_at,
              not_below,
              above,
              whole,
              read_lem (p.front ++ xs) p.back x (q.tail_pos - 1) place,
            )
            refl,
        record {
          front = p.front;
          back = x ∷ p.back;
          queue_eq = whole ∙ append_assoc p.front xs (x ∷ p.back);
          head_eq = p.head_eq;
          tail_eq = omega (arith, tail);
          size_eq = p.size_eq;
          not_empty = p.not_empty;
        },
      )

  -- What `pop` does when the queue holds the jobs.
  abbrev Pops : WorkStealingQueue A → List A → Type ℓ
  Pops q jobs =
      (r : WorkStealingQueue A) × (pop_job q ≡ ok (get_last? jobs, r))
      × Represents r (drop_last jobs)

  pop_newest :
      (q : WorkStealingQueue A) (xs : List A) (x : A)
      → Represents q (xs ++ x ∷ [])
      → Pops q (xs ++ x ∷ [])
  pop_newest q [] x p = pop_single q x p
  pop_newest q (y ∷ ys) x p =
      let (r, took, left) = pop_several q (y ∷ ys) x (omega arith) p in
      (
        r,
        took ∙ ap (λ o. ok (o, r)) (sym (get_last?-append (y ∷ ys) x [])),
        subst (Represents r) (sym (drop_last-append (y ∷ ys) x)) left,
      )

  -- When the queue holds the jobs, `pop` takes the newest of them, if there is one, and the queue
  -- holds the others.
  pub pop_job_lem :
      (q : WorkStealingQueue A) (jobs : List A)
      → Represents q jobs
      → (r : WorkStealingQueue A) × (pop_job q ≡ ok (get_last? jobs, r))
        × Represents r (drop_last jobs)
  pop_job_lem q jobs p = elim (snoc_cases jobs) [
    | inl e ↦ subst (Pops q) (sym e) (pop_none q (subst (Represents q) e p))
    | inr (xs, x, e) ↦ subst (Pops q) (sym e) (pop_newest q xs x (subst (Represents q) e p))
  ]
