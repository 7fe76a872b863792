-- ===== src/WorkQueue/Tests.antt =====
-- The queue of Source/Evaluator/LockFreeWorkStealingQueue.h with numbers as jobs.
use fptl.Prelude.{ℕ, ◌≡◌, refl, none, some, List, [], ◌∷◌, ok, arith}
use fptl.WorkQueue.{WorkStealingQueue, new_queue, push_job, pop_job}
use fptl.WorkQueue.Refine.{Represents}
use fptl.WorkQueue.Pop.{pop_job_lem}
use fptl.WorkQueue.Push.{push_job_lem}
use fptl.WorkQueue.Sequence.{
  QueueOp, adding, popping, stealing, run_ops, answers, left_over, run_ops_lem,
}

-- A full vector with a stolen job at its front.
abbrev full : WorkStealingQueue ℕ
full = record { head_pos = 1; tail_pos = 3; size = 3; queue = 7 ∷ 8 ∷ 9 ∷ [] }

full-Represents : Represents full (8 ∷ 9 ∷ [])
full-Represents = record {
  front = 7 ∷ [];
  back = [];
  queue_eq = refl;
  head_eq = refl;
  tail_eq = refl;
  size_eq = refl;
  not_empty = omega arith;
}

push_job_lem_example :
    (r : WorkStealingQueue ℕ) × (push_job 0 10 full ≡ ok r) × Represents r (8 ∷ 9 ∷ 10 ∷ [])
push_job_lem_example = push_job_lem 0 10 full (8 ∷ 9 ∷ []) full-Represents

pop_job_lem_example :
    (r : WorkStealingQueue ℕ) × (pop_job full ≡ ok (some 9, r)) × Represents r (8 ∷ [])
pop_job_lem_example = pop_job_lem full (8 ∷ 9 ∷ []) full-Represents

abbrev ops : List (QueueOp ℕ)
ops = adding 1 ∷ adding 2 ∷ adding 3 ∷ stealing ∷ popping ∷ popping ∷ popping ∷ []

run_ops_lem_example :
    (r : WorkStealingQueue ℕ) × (run_ops 0 ops (new_queue 0)
      ≡ ok (some 1 ∷ some 3 ∷ some 2 ∷ none ∷ [], r))
    × Represents r []
unfolding answers left_over
run_ops_lem_example = run_ops_lem 0 ops
