-- ===== src/WorkQueue/Threads.antt =====
-- Source/Evaluator/LockFreeWorkStealingQueue.h: the owner, who pushes and pops, and any number of
-- thieves at the same queue, one access to a shared variable at a time, in any order. A job is a
-- number. The threads see the accesses in one order, as on the machines with the fence of `pop`.
pub mod Range
pub mod Invariant
pub mod OwnerSteps
pub mod ThiefSteps
pub mod Safety
pub mod Growth
pub mod Progress
mod Tests
use fptl.Prelude.{
  ℕ, suc, ◌+◌, ◌-◌, ◌*◌, ◌≤◌, ◌<◌, ◌≡◌, ◌≢◌, Bool, true, false, List, [], ◌∷◌, ltb, ◌==◌,
  if◌then◌else◌,
}

abbrev pub update {ℓ} : {A : Type ℓ} → (ℕ → A) → ℕ → A → ℕ → A
update f i v j = if j == i then v else f j

-- Where the owner stands, with the local variables that are live there. In `taking` and `won` the
-- last value is the job that was promised; the code reads the element next.
pub data Owner : Type 0 where
  resting : Owner
  pushing : (x t : ℕ) → Owner  -- `push` has read the tail
  placed : (x t : ℕ) → Owner  -- the element is written
  popping : (t : ℕ) → Owner  -- `pop` has read the tail
  lowered : (t : ℕ) → Owner  -- the new tail is stored
  taking : (t v : ℕ) → Owner  -- the tail is above the head
  last : (t : ℕ) → Owner  -- they are equal: before the compare-and-exchange
  won : (t v : ℕ) → Owner
  restoring : (h : ℕ) → Owner  -- before the tail is set to the head
  growing : (x t : ℕ) → Owner  -- a `push` on a full vector
  closing : (x t h : ℕ) → Owner  -- before the compare-and-exchange that stops thieves
  copying : (x h n i : ℕ) → Owner  -- the jobs are moved to the front
  shifted : (x n : ℕ) → Owner
  enlarged : (x n : ℕ) → Owner
  appended : (x n : ℕ) → Owner
  reopening : (x : ℕ) → Owner

-- Where a thief stands.
pub data Thief : Type 0 where
  waiting : Thief
  saw_head : (h : ℕ) → Thief
  saw_tail : (h : ℕ) → Thief  -- before the compare-and-exchange
  claimed : (h v : ℕ) → Thief  -- after it: reads the element next

-- The shared variables, where each thread stands, and what happened so far: whether a `push` found the
-- vector full, the jobs that were pushed, and those that a thread was promised.
pub record State : Type 0 where
  pub head : ℕ
  pub tail : ℕ
  pub size : ℕ
  pub queue : ℕ → ℕ
  pub owner : Owner
  pub thieves : ℕ → Thief
  pub grew : Bool
  pub pushed : List ℕ
  pub taken : List ℕ

-- One access of one thread.
pub data Step (s : State) : State → Type 0 where
  -- `push`
  push_load :
      (x : ℕ) → s.owner ≡ resting → s.tail < s.size → Step s (record s { owner = pushing x s.tail })
  push_write :
      {x t : ℕ}
      → s.owner ≡ pushing x t
      → Step s (record s { owner = placed x t; queue = update s.queue t x })
  push_store :
      {x t : ℕ}
      → s.owner ≡ placed x t
      → Step s (record s { owner = resting; tail = t + 1; pushed = x ∷ s.pushed })
  -- `push` on a full vector
  grow_load :
      (x : ℕ)
      → s.owner ≡ resting
      → s.size ≤ s.tail
      → Step s (record s { owner = growing x s.tail; grew = true })
  grow_head : {x t : ℕ} → s.owner ≡ growing x t → Step s (record s { owner = closing x t s.head })
  grow_lose :
      {x t h : ℕ} → s.owner ≡ closing x t h → s.head ≢ h → Step s (record s { owner = growing x t })
  grow_win :
      {x t h : ℕ}
      → s.owner ≡ closing x t h
      → s.head ≡ h
      → Step s (record s { owner = copying x h (t - h) 0; head = t })
  grow_copy :
      {x h n i : ℕ}
      → s.owner ≡ copying x h n i
      → 0 < h
      → i < n
      → Step s
          (record s { owner = copying x h n (i + 1); queue = update s.queue i (s.queue (i + h)) })
  grow_shift :
      {x h n i : ℕ}
      → s.owner ≡ copying x h n i
      → 0 < h
      → n ≤ i
      → Step s (record s { owner = shifted x n; tail = n })
  grow_keep : {x n i : ℕ} → s.owner ≡ copying x 0 n i → Step s (record s { owner = shifted x n })
  grow_resize :
      {x n : ℕ}
      → s.owner ≡ shifted x n
      → Step s (record s {
        owner = enlarged x n;
        size = s.size * 2;
        queue = λ i. if ltb i s.size then s.queue i else 0;
      })
  grow_write :
      {x n : ℕ}
      → s.owner ≡ enlarged x n
      → Step s (record s { owner = appended x n; queue = update s.queue n x })
  grow_store :
      {x n : ℕ} → s.owner ≡ appended x n → Step s (record s { owner = reopening x; tail = n + 1 })
  grow_open :
      {x : ℕ}
      → s.owner ≡ reopening x
      → Step s (record s { owner = resting; head = 0; pushed = x ∷ s.pushed })
  -- `pop`
  pop_none : s.owner ≡ resting → s.tail ≡ 0 → Step s s
  pop_load : s.owner ≡ resting → s.tail ≢ 0 → Step s (record s { owner = popping s.tail })
  pop_store :
      {t : ℕ} → s.owner ≡ popping t → Step s (record s { owner = lowered (t - 1); tail = t - 1 })
  pop_below :
      {t : ℕ} → s.owner ≡ lowered t → t < s.head → Step s (record s { owner = restoring s.head })
  pop_above :
      {t : ℕ}
      → s.owner ≡ lowered t
      → s.head < t
      → Step s (record s { owner = taking t (s.queue t); taken = s.queue t ∷ s.taken })
  pop_read : {t v : ℕ} → s.owner ≡ taking t v → Step s (record s { owner = resting })
  pop_equal : {t : ℕ} → s.owner ≡ lowered t → t ≡ s.head → Step s (record s { owner = last t })
  pop_win :
      {t : ℕ}
      → s.owner ≡ last t
      → s.head ≡ t
      → Step s (record s { owner = won t (s.queue t); head = t + 1; taken = s.queue t ∷ s.taken })
  pop_lose :
      {t : ℕ} → s.owner ≡ last t → s.head ≢ t → Step s (record s { owner = restoring s.head })
  pop_last : {t v : ℕ} → s.owner ≡ won t v → Step s (record s { owner = resting; tail = t + 1 })
  pop_restore : {h : ℕ} → s.owner ≡ restoring h → Step s (record s { owner = resting; tail = h })
  -- `steal` of the thief `i`
  steal_head :
      (i : ℕ)
      → s.thieves i ≡ waiting
      → Step s (record s { thieves = update s.thieves i (saw_head s.head) })
  steal_none :
      (i : ℕ) {h : ℕ}
      → s.thieves i ≡ saw_head h
      → s.tail ≤ h
      → Step s (record s { thieves = update s.thieves i waiting })
  steal_tail :
      (i : ℕ) {h : ℕ}
      → s.thieves i ≡ saw_head h
      → h < s.tail
      → Step s (record s { thieves = update s.thieves i (saw_tail h) })
  steal_lose :
      (i : ℕ) {h : ℕ}
      → s.thieves i ≡ saw_tail h
      → s.head ≢ h
      → Step s (record s { thieves = update s.thieves i waiting })
  steal_win :
      (i : ℕ) {h : ℕ}
      → s.thieves i ≡ saw_tail h
      → s.head ≡ h
      → Step s (record s {
        head = h + 1;
        thieves = update s.thieves i (claimed h (s.queue h));
        taken = s.queue h ∷ s.taken;
      })
  steal_read :
      (i : ℕ) {h v : ℕ}
      → s.thieves i ≡ claimed h v
      → Step s (record s { thieves = update s.thieves i waiting })

-- A new queue with nobody at work, and the states that can follow.
abbrev pub start : State
start = record {
  head = 0;
  tail = 0;
  size = 32;
  queue = λ i. 0;
  owner = resting;
  thieves = λ i. waiting;
  grew = false;
  pushed = [];
  taken = [];
}

pub data Reach : State → Type 0 where
  here : Reach start
  next : {s t : State} → Reach s → Step s t → Reach t
