-- ===== src/WorkQueue.antt =====
-- Source/Evaluator/LockFreeWorkStealingQueue.h: the queue of jobs, a vector with a position for the
-- owner and one for thieves. The operations run one after the other here, so that every
-- compare-and-exchange finds the value that was read before it.
pub mod Refine
pub mod Pop
pub mod Push
pub mod Sequence
pub mod Threads
mod Tests
use fptl.Prelude.{
  ℕ, zero, suc, ◌+◌, ◌-◌, ◌*◌, Bool, true, false, Option, none, some, List, [], ◌∷◌, length,
  get_elem?, set, replicate, ltb, ◌==◌, if◌then◌else◌, fault, Result, ok, err, ◌>>=◌,
}
use fptl.Vector.{copy_down, resize}

pub record WorkStealingQueue {ℓ} (A : Type ℓ) : Type ℓ where
  pub head_pos : ℕ
  pub tail_pos : ℕ
  pub size : ℕ
  pub queue : List A

-- `mQueue[i]`, read and written
unfoldable pub read {ℓ} : {A : Type ℓ} → ℕ → List A → Result A
read i xs = elim (get_elem? xs i) [ none ↦ err fault | some v ↦ ok v ]

unfoldable pub write {ℓ} : {A : Type ℓ} → ℕ → A → List A → Result (List A)
write i v xs = elim (ltb i (length xs)) [ true ↦ ok (set xs i v) | false ↦ err fault ]

-- The constructor; `blank` is the value that the vector gives to new elements.
unfoldable pub new_queue {ℓ} : {A : Type ℓ} → A → WorkStealingQueue A
new_queue blank = record { head_pos = 0; tail_pos = 0; size = 32; queue = replicate 32 blank }

-- A `push` on a full vector: the jobs move to the front, and the vector becomes twice as long. A
-- vector is never so long that the product wraps around.
unfoldable pub push_growing {ℓ} :
    {A : Type ℓ} → A → A → WorkStealingQueue A → Result (WorkStealingQueue A)
push_growing blank x q = do
  let num_jobs = q.tail_pos - q.head_pos
  moved ← (elim (ltb 0 q.head_pos) [
    | true ↦ copy_down num_jobs 0 q.head_pos q.queue
    | false ↦ ok q.queue
  ])
  written ← write num_jobs x (resize blank (q.size * 2) moved)
  ok (record { head_pos = 0; tail_pos = num_jobs + 1; size = q.size * 2; queue = written })

-- `push`
unfoldable pub push_job {ℓ} :
    {A : Type ℓ} → A → A → WorkStealingQueue A → Result (WorkStealingQueue A)
push_job blank x q = elim (ltb q.tail_pos q.size) [
  | true ↦ do
    written ← write q.tail_pos x q.queue
    ok (record q { queue = written; tail_pos = q.tail_pos + 1 })
  | false ↦ push_growing blank x q
]

-- `pop`, after the new position of the tail was stored.
unfoldable pub pop_at {ℓ} :
    {A : Type ℓ} → ℕ → WorkStealingQueue A → Result (Option A × WorkStealingQueue A)
pop_at tail q = elim (ltb tail q.head_pos) [
  | true ↦ ok (none, record q { tail_pos = q.head_pos })
  | false ↦ elim (ltb q.head_pos tail) [
    | true ↦ do v ← read tail q.queue; ok (some v, record q { tail_pos = tail })
    | false ↦ do
      v ← read q.head_pos q.queue
      ok (some v, record q { head_pos = q.head_pos + 1; tail_pos = q.head_pos + 1 })
  ]
]

-- `pop`
unfoldable pub pop_job {ℓ} :
    {A : Type ℓ} → WorkStealingQueue A → Result (Option A × WorkStealingQueue A)
pop_job q = elim (q.tail_pos == 0) [ true ↦ ok (none, q) | false ↦ pop_at (q.tail_pos - 1) q ]

-- `steal`
unfoldable pub steal {ℓ} :
    {A : Type ℓ} → WorkStealingQueue A → Result (Option A × WorkStealingQueue A)
steal q = elim (ltb q.head_pos q.tail_pos) [
  | true ↦ do v ← read q.head_pos q.queue; ok (some v, record q { head_pos = q.head_pos + 1 })
  | false ↦ ok (none, q)
]
