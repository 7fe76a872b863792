-- ===== src/WorkQueue/Sequence.antt =====
-- Source/Evaluator/LockFreeWorkStealingQueue.h: sequences of operations on a new queue, and the same
-- sequences on a list of jobs.
use fptl.Prelude.{
  ◌≡◌, refl, ◌∙◌, ap, Option, List, [], ◌∷◌, ◌++◌, drop, get_elem?, get_last?, drop_last, Result,
  ok, ◌>>=◌,
}
use fptl.WorkQueue.{WorkStealingQueue, new_queue, push_job, pop_job, steal}
use fptl.WorkQueue.Refine.{Represents, steal_lem, new_queue-Represents}
use fptl.WorkQueue.Pop.{pop_job_lem}
use fptl.WorkQueue.Push.{push_job_lem}

pub data QueueOp {ℓ} (A : Type ℓ) : Type ℓ where
  adding : A → QueueOp A
  popping stealing : QueueOp A

module _ {ℓ} {A : Type ℓ} where
  -- The jobs that the operations hand out, and the queue after them.
  unfoldable pub run_ops :
      A → List (QueueOp A) → WorkStealingQueue A → Result (List (Option A) × WorkStealingQueue A)
  run_ops blank [] q = ok ([], q)
  run_ops blank (adding x ∷ ops) q = do r ← push_job blank x q; run_ops blank ops r
  run_ops blank (popping ∷ ops) q = do
    (v, r) ← pop_job q
    (vs, s) ← run_ops blank ops r
    ok (v ∷ vs, s)
  run_ops blank (stealing ∷ ops) q = do
    (v, r) ← steal q
    (vs, s) ← run_ops blank ops r
    ok (v ∷ vs, s)

  -- The same on a list of jobs, the oldest first.
  unfoldable pub answers : List (QueueOp A) → List A → List (Option A)
  answers [] jobs = []
  answers (adding x ∷ ops) jobs = answers ops (jobs ++ x ∷ [])
  answers (popping ∷ ops) jobs = get_last? jobs ∷ answers ops (drop_last jobs)
  answers (stealing ∷ ops) jobs = get_elem? jobs 0 ∷ answers ops (drop 1 jobs)

  -- The jobs that are left.
  unfoldable pub left_over : List (QueueOp A) → List A → List A
  left_over [] jobs = jobs
  left_over (adding x ∷ ops) jobs = left_over ops (jobs ++ x ∷ [])
  left_over (popping ∷ ops) jobs = left_over ops (drop_last jobs)
  left_over (stealing ∷ ops) jobs = left_over ops (drop 1 jobs)

  run_ops_from :
      (blank : A) (ops : List (QueueOp A)) (q : WorkStealingQueue A) (jobs : List A)
      → Represents q jobs
      → (r : WorkStealingQueue A) × (run_ops blank ops q ≡ ok (answers ops jobs, r))
        × Represents r (left_over ops jobs)
  unfolding run_ops answers left_over
  run_ops_from blank [] q jobs p = (q, refl, p)
  run_ops_from blank (adding x ∷ ops) q jobs p =
      let (r, done, held) = push_job_lem blank x q jobs p in
      let (s, rest, held') = run_ops_from blank ops r (jobs ++ x ∷ []) held in
      (s, ap (λ m. m >>= run_ops blank ops) done ∙ rest, held')
  run_ops_from blank (popping ∷ ops) q jobs p =
      let (r, done, held) = pop_job_lem q jobs p in
      let (s, rest, held') = run_ops_from blank ops r (drop_last jobs) held in
      (s, rw (run_ops, done, rest) refl, held')
  run_ops_from blank (stealing ∷ ops) q jobs p =
      let (r, done, held) = steal_lem q jobs p in
      let (s, rest, held') = run_ops_from blank ops r (drop 1 jobs) held in
      (s, rw (run_ops, done, rest) refl, held')

  -- Every sequence of pushes, pops and steals on a new queue, one after the other, ends, and hands
  -- out the jobs that it hands out on a list of jobs, where a push adds the newest, a pop takes the
  -- newest and a steal the oldest; the queue holds the jobs that are left on the list.
  pub run_ops_lem :
      (blank : A) (ops : List (QueueOp A))
      → (r : WorkStealingQueue A) × (run_ops blank ops (new_queue blank) ≡ ok (answers ops [], r))
        × Represents r (left_over ops [])
  run_ops_lem blank ops = run_ops_from blank ops (new_queue blank) [] (new_queue-Represents blank)
