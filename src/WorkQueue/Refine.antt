-- ===== src/WorkQueue/Refine.antt =====
-- Source/Evaluator/LockFreeWorkStealingQueue.h: what list of jobs a queue stands for, the oldest
-- first, and `steal` on it.
use fptl.Prelude.{
  ℕ, zero, suc, ◌+◌, ◌<◌, ◌≡◌, refl, sym, ◌∙◌, ap, true, List, [], ◌∷◌, ◌++◌, append_assoc, length,
  length-append, drop, get_elem?, get_elem?-append, set-append, replicate, ltb, lt→ltb, ok, arith,
}
use fptl.WorkQueue.{WorkStealingQueue, read, write, new_queue, steal}

-- The queue holds the jobs: they stand in the vector from the head to the tail.
pub record Represents {ℓ} {A : Type ℓ} (q : WorkStealingQueue A) (jobs : List A) : Type ℓ where
  pub front : List A
  pub back : List A
  pub queue_eq : q.queue ≡ front ++ (jobs ++ back)
  pub head_eq : q.head_pos ≡ length front
  pub tail_eq : q.tail_pos ≡ length front + length jobs
  pub size_eq : q.size ≡ length q.queue
  pub not_empty : 0 < q.size

module _ {ℓ} {A : Type ℓ} where
  pub read_lem : (xs ys : List A) (x : A) (i : ℕ) → i ≡ length xs → read i (xs ++ x ∷ ys) ≡ ok x
  unfolding read
  read_lem xs ys x i e = rw (e, read, get_elem?-append xs ys x)

  pub write_lem :
      (xs ys : List A) (y x : A) (i : ℕ)
      → i ≡ length xs
      → write i x (xs ++ y ∷ ys) ≡ ok (xs ++ x ∷ ys)
  unfolding write
  write_lem xs ys y x i e =
      ap (λ k. write k x (xs ++ y ∷ ys)) e
      ∙ rw (
        write,
        lt→ltb (length xs) (length (xs ++ y ∷ ys)) (omega (arith, length-append xs (y ∷ ys))),
        set-append xs ys y x,
      )

  pub length-replicate : (n : ℕ) (v : A) → length (replicate n v) ≡ n
  length-replicate zero v = refl
  length-replicate (suc n) v = ap suc (length-replicate n v)

  -- When the queue holds the jobs, `steal` takes the oldest of them, if there is one, and the queue
  -- holds the others.
  pub steal_lem :
      (q : WorkStealingQueue A) (jobs : List A)
      → Represents q jobs
      → (r : WorkStealingQueue A) × (steal q ≡ ok (get_elem? jobs 0, r))
        × Represents r (drop 1 jobs)
  unfolding steal
  steal_lem q [] p = (q, ground (arith, p.head_eq, p.tail_eq), p)
  steal_lem q (x ∷ xs) p =
      let before : ltb q.head_pos q.tail_pos ≡ true = ground (arith, p.head_eq, p.tail_eq) in
      (
        record q { head_pos = q.head_pos + 1 },
        rw (steal, before, p.queue_eq, read_lem p.front (xs ++ p.back) x q.head_pos p.head_eq) refl,
        record {
          front = p.front ++ x ∷ [];
          back = p.back;
          queue_eq = p.queue_eq ∙ sym (append_assoc p.front (x ∷ []) (xs ++ p.back));
          head_eq = omega (arith, p.head_eq, length-append p.front (x ∷ []));
          tail_eq = omega (arith, p.tail_eq, length-append p.front (x ∷ []));
          size_eq = p.size_eq;
          not_empty = p.not_empty;
        },
      )

  pub new_queue-Represents : (blank : A) → Represents (new_queue blank) []
  unfolding new_queue
  new_queue-Represents blank = record {
    front = [];
    back = replicate 32 blank;
    queue_eq = refl;
    head_eq = refl;
    tail_eq = refl;
    size_eq = sym (length-replicate 32 blank);
    not_empty = omega arith;
  }
