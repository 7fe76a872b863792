-- ===== src/WorkQueue/Threads/Growth.antt =====
-- Source/Evaluator/LockFreeWorkStealingQueue.h: a `push` on a full vector while a thief is about to
-- read.
use fptl.Prelude.{ℕ, zero, suc, ◌≤◌, ◌<◌, ◌≡◌, refl, ap, Bool-cases, inl, inr, ◌==◌, ==_iff, arith}
use fptl.WorkQueue.Threads.{
  update, resting, waiting, saw_head, claimed, State, start, Reach, here, next, push_load,
  push_write, push_store, grow_load, grow_head, grow_win, grow_copy, steal_head, steal_tail,
  steal_win,
}

-- The queue after the owner pushed `n` jobs, and nobody else did anything.
record Filled (f : ℕ → ℕ) (n : ℕ) (s : State) : Type 0 where
  reached : Reach s
  head_0 : s.head ≡ 0
  tail_n : s.tail ≡ n
  size_32 : s.size ≡ 32
  rests : s.owner ≡ resting
  waits : s.thieves 0 ≡ waiting
  jobs : (i : ℕ) → i < n → s.queue i ≡ f i

after_push :
    (f : ℕ → ℕ) (n k : ℕ) (q : ℕ → ℕ) (i : ℕ)
    → k ≡ n
    → ((j : ℕ) → j < n → q j ≡ f j)
    → i < suc n
    → update q k (f n) i ≡ f i
after_push f n k q i e jobs lt = elim (Bool-cases (i == k)) [
  | inl same ↦ rw same (ap f (omega (arith, e, (==_iff i k).0 same)))
  | inr other ↦ rw other (jobs i (ground arith))
]

push_one :
    (f : ℕ → ℕ) (n : ℕ) (s : State) → n < 32 → Filled f n s → (t : State) × Filled f (suc n) t
push_one f n s h k =
    let loaded = next k.reached (push_load (f n) k.rests (omega (arith, k.tail_n, k.size_32))) in
    let written = next loaded (push_write refl) in
    (
      _,
      record {
        reached = next written (push_store refl);
        head_0 = k.head_0;
        tail_n = omega (arith, k.tail_n);
        size_32 = k.size_32;
        rests = refl;
        waits = k.waits;
        jobs = λ i lt. after_push f n s.tail s.queue i k.tail_n k.jobs lt;
      },
    )

fill : (f : ℕ → ℕ) (n : ℕ) → n ≤ 32 → (s : State) × Filled f n s
fill f zero h = (
  start,
  record {
    reached = here;
    head_0 = refl;
    tail_n = refl;
    size_32 = refl;
    rests = refl;
    waits = refl;
    jobs = λ i lt. absurd (omega arith);
  },
)
fill f (suc n) h = let (s, k) = fill f n (omega arith) in push_one f n s (omega arith) k

lose_job :
    (f : ℕ → ℕ) (s : State)
    → Filled f 32 s
    → (t : State) × Reach t × (t.thieves 0 ≡ claimed 0 (f 0)) × (t.queue 0 ≡ f 1)
lose_job f s k =
    let saw = next k.reached (steal_head 0 k.waits) in
    let both = next saw (steal_tail 0 (ap saw_head k.head_0) (omega (arith, k.tail_n))) in
    let won = next both (steal_win 0 refl k.head_0) in
    let full = next won (grow_load (f 32) k.rests (omega (arith, k.tail_n, k.size_32))) in
    let aimed = next full (grow_head refl) in
    let closed = next aimed (grow_win refl refl) in
    let moved = next closed (grow_copy refl (omega arith) (omega (arith, k.tail_n))) in
    (_, moved, ap (claimed 0) (k.jobs 0 (omega arith)), k.jobs 1 (omega arith))

-- For any jobs, a state can be reached in which a thief was promised the first job that was pushed,
-- and the second stands where it will read: a `push` that found the vector full has moved it there.
pub push_growing_races :
    (f : ℕ → ℕ) → (t : State) × Reach t × (t.thieves 0 ≡ claimed 0 (f 0)) × (t.queue 0 ≡ f 1)
push_growing_races f = let (s, k) = fill f 32 (omega arith) in lose_job f s k
