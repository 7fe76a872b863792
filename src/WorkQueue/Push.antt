-- ===== src/WorkQueue/Push.antt =====
-- Source/Evaluator/LockFreeWorkStealingQueue.h: `push` on a queue that no thief works on, with the
-- growth of the vector.
use fptl.Prelude.{
  ℕ, suc, ◌+◌, ◌-◌, ◌*◌, ◌<◌, ◌≡◌, refl, sym, ◌∙◌, ap, true, false, inl, inr, Bool-cases, List, [],
  ◌∷◌, ◌++◌, append_assoc, append-nil, length, length-append, length-take, take, replicate, ltb,
  ltb→lt, lt→ltb, ok, arith,
}
use fptl.Vector.{copy_down, resize}
use fptl.Vector.Moves.{copy_down_lem}
use fptl.WorkQueue.{WorkStealingQueue, write, push_job, push_growing}
use fptl.WorkQueue.Refine.{Represents, write_lem, length-replicate}

module _ {ℓ} {A : Type ℓ} where
  not_empty_lem : (xs : List A) → 0 < length xs → (y : A) × (ys : List A) × (xs ≡ y ∷ ys)
  not_empty_lem [] h = absurd (omega arith)
  not_empty_lem (x ∷ xs) h = (x, xs, refl)

  empty_lem : (xs : List A) → length xs ≡ 0 → xs ≡ []
  empty_lem [] h = refl
  empty_lem (x ∷ xs) h = absurd (omega (arith, h))

  length-resize : (blank : A) (n : ℕ) (xs : List A) → length (resize blank n xs) ≡ n
  unfolding resize
  length-resize blank n xs = length-take n (xs ++ replicate (n - length xs) blank) (
      omega (
        arith,
        length-append xs (replicate (n - length xs) blank),
        length-replicate (n - length xs) blank,
      ))

  resize-append :
      (blank : A) (n : ℕ) (xs ys : List A)
      → resize blank (length xs + n) (xs ++ ys) ≡ xs ++ resize blank n ys
  unfolding resize
  resize-append blank n [] ys =
      let count : 0 + n ≡ n = omega arith in ap (λ k. resize blank k ys) count
  resize-append blank n (x ∷ xs) ys =
      let m = length xs + n in
      let count : suc (length xs) + n ≡ suc m = omega arith in
      let added : suc m - suc (length (xs ++ ys)) ≡ m - length (xs ++ ys) = omega arith in
      ap (λ k. resize blank k (x ∷ (xs ++ ys))) count
      ∙ ap (λ k. x ∷ take m ((xs ++ ys) ++ replicate k blank)) added
      ∙ ap (λ l. x ∷ l) (resize-append blank n xs ys)

  vector_length :
      (q : WorkStealingQueue A) (jobs : List A) (p : Represents q jobs)
      → q.size ≡ length p.front + (length jobs + length p.back)
  vector_length q jobs p =
      p.size_eq
      ∙ ap length p.queue_eq
      ∙ length-append p.front (jobs ++ p.back)
      ∙ ap (λ n. length p.front + n) (length-append jobs p.back)

  push_room :
      (blank x : A) (q : WorkStealingQueue A) (jobs : List A)
      → ltb q.tail_pos q.size ≡ true
      → Represents q jobs
      → (r : WorkStealingQueue A) × (push_job blank x q ≡ ok r) × Represents r (jobs ++ x ∷ [])
  unfolding push_job
  push_room blank x q jobs room p =
      let (b, bs, e) =
        not_empty_lem p.back
          (omega (arith, ltb→lt q.tail_pos q.size room, p.tail_eq, vector_length q jobs p)) in
      let whole : q.queue ≡ (p.front ++ jobs) ++ b ∷ bs =
        p.queue_eq
        ∙ ap (λ l. p.front ++ (jobs ++ l)) e
        ∙ sym (append_assoc p.front jobs (b ∷ bs)) in
      let place : q.tail_pos ≡ length (p.front ++ jobs) =
        p.tail_eq ∙ sym (length-append p.front jobs) in
      let written : write q.tail_pos x q.queue ≡ ok ((p.front ++ jobs) ++ x ∷ bs) =
        ap (write q.tail_pos x) whole ∙ write_lem (p.front ++ jobs) bs b x q.tail_pos place in
      (
        record q { queue = (p.front ++ jobs) ++ x ∷ bs; tail_pos = q.tail_pos + 1 },
        rw (push_job, room, written) refl,
        record {
          front = p.front;
          back = bs;
          queue_eq =
              append_assoc p.front jobs (x ∷ bs)
              ∙ ap (λ l. p.front ++ l) (sym (append_assoc jobs (x ∷ []) bs));
          head_eq = p.head_eq;
          tail_eq = omega (arith, p.tail_eq, length-append jobs (x ∷ []));
          size_eq =
              p.size_eq
              ∙ ap length whole
              ∙ length-append (p.front ++ jobs) (b ∷ bs)
              ∙ sym (length-append (p.front ++ jobs) (x ∷ bs));
          not_empty = p.not_empty;
        },
      )

  -- The jobs at the front of a full vector.
  moved_lem :
      (h n : ℕ) (front jobs : List A)
      → h ≡ length front
      → n ≡ length jobs
      → (left : List A) × ((elim (ltb 0 h) [
        | true ↦ copy_down n 0 h (front ++ jobs)
        | false ↦ ok (front ++ jobs)
      ])
          ≡ ok (jobs ++ left))
  moved_lem h n [] jobs he ne = ([], rw he (ap ok (sym (append-nil jobs))))
  moved_lem h n (y ∷ ys) jobs he ne =
      let (left, moved) = copy_down_lem jobs [] (y ∷ ys) in
      let here : h ≡ 0 + suc (length ys) = omega (arith, he) in
      (
        left,
        rw (lt→ltb 0 h (omega (arith, he)))
            ((λ i. copy_down (ne i) 0 (here i) (y ∷ (ys ++ jobs))) ∙ moved),
      )

  push_growing_lem :
      (blank x : A) (q : WorkStealingQueue A) (jobs : List A)
      → ltb q.tail_pos q.size ≡ false
      → Represents q jobs
      → (r : WorkStealingQueue A) × (push_growing blank x q ≡ ok r) × Represents r (jobs ++ x ∷ [])
  unfolding push_growing
  push_growing_lem blank x q jobs full p =
      let size = vector_length q jobs p in
      let no_back : length p.back ≡ 0 = ground (arith, p.tail_eq, size) in
      let count : q.tail_pos - q.head_pos ≡ length jobs = omega (arith, p.tail_eq, p.head_eq) in
      let (left, moved) =
        moved_lem q.head_pos (q.tail_pos - q.head_pos) p.front jobs p.head_eq count in
      let whole : q.queue ≡ p.front ++ jobs =
        p.queue_eq
        ∙ ap (λ l. p.front ++ (jobs ++ l)) (empty_lem p.back no_back)
        ∙ ap (λ l. p.front ++ l) (append-nil jobs) in
      let moved_queue =
        ap
          (λ v. elim (ltb 0 q.head_pos) [
            | true ↦ copy_down (q.tail_pos - q.head_pos) 0 q.head_pos v
            | false ↦ ok v
          ])
          whole
        ∙ moved in
      let room = q.size * 2 - length jobs in
      let twice : q.size * 2 ≡ length jobs + room = omega (arith, size) in
      let (b, bs, e) =
        not_empty_lem (resize blank room left)
          (omega (arith, length-resize blank room left, size, p.not_empty)) in
      let grown : resize blank (q.size * 2) (jobs ++ left) ≡ jobs ++ b ∷ bs =
        ap (λ k. resize blank k (jobs ++ left)) twice
        ∙ resize-append blank room jobs left
        ∙ ap (λ l. jobs ++ l) e in
      let written : write (q.tail_pos - q.head_pos) x (resize blank (q.size * 2) (jobs ++ left))
          ≡ ok (jobs ++ x ∷ bs) =
        ap (write (q.tail_pos - q.head_pos) x) grown
        ∙ write_lem jobs bs b x (q.tail_pos - q.head_pos) count in
      let rest : suc (length bs) ≡ room = sym (ap length e) ∙ length-resize blank room left in
      (
        record {
          head_pos = 0;
          tail_pos = q.tail_pos - q.head_pos + 1;
          size = q.size * 2;
          queue = jobs ++ x ∷ bs;
        },
        rw (push_growing, moved_queue, written) refl,
        record {
          front = [];
          back = bs;
          queue_eq = sym (append_assoc jobs (x ∷ []) bs);
          head_eq = refl;
          tail_eq = omega (arith, count, length-append jobs (x ∷ []));
          size_eq = omega (arith, twice, rest, length-append jobs (x ∷ bs));
          not_empty = omega (arith, p.not_empty);
        },
      )

  -- When the queue holds the jobs, `push` ends, and the queue holds the jobs with the new one as the
  -- newest, also when the vector is full and grows.
  pub push_job_lem :
      (blank x : A) (q : WorkStealingQueue A) (jobs : List A)
      → Represents q jobs
      → (r : WorkStealingQueue A) × (push_job blank x q ≡ ok r) × Represents r (jobs ++ x ∷ [])
  unfolding push_job
  push_job_lem blank x q jobs p = elim (Bool-cases (ltb q.tail_pos q.size)) [
    | inl room ↦ push_room blank x q jobs room p
    | inr full ↦
        let (r, done, held) = push_growing_lem blank x q jobs full p in
        (r, rw (push_job, full) done, held)
  ]
