-- ===== src/WorkQueue/Threads/Invariant.antt =====
-- Source/Evaluator/LockFreeWorkStealingQueue.h: what holds between two accesses of the threads, as
-- long as no `push` finds the vector full.
use fptl.Prelude.{ℕ, ◌+◌, ◌-◌, ◌≤◌, ◌<◌, ◌≡◌, refl, ◌∙◌, arith}
use fptl.WorkQueue.Threads.{
  Owner, resting, pushing, placed, popping, lowered, taking, last, won, restoring, growing, closing,
  copying, shifted, enlarged, appended, reopening, Thief, waiting, saw_head, saw_tail, claimed,
  State, start,
}
use fptl.WorkQueue.Threads.Range.{count, count_in}

-- The end of the part of the vector in which jobs wait.
abbrev pub top : ℕ → Owner → ℕ
top tail resting = tail
top tail (pushing x t) = tail
top tail (placed x t) = tail
top tail (popping t) = tail
top tail (lowered t) = t + 1
top tail (taking t v) = tail
top tail (last t) = t + 1
top tail (won t v) = t + 1
top tail (restoring h) = h
top tail (growing x t) = tail
top tail (closing x t h) = tail
top tail (copying x h n i) = tail
top tail (shifted x n) = tail
top tail (enlarged x n) = tail
top tail (appended x n) = tail
top tail (reopening x) = tail

-- What the owner's local variables are to the shared ones.
abbrev pub OwnerFits : ℕ → ℕ → ℕ → (ℕ → ℕ) → Owner → Type 0
OwnerFits head tail size q resting = head ≤ tail
OwnerFits head tail size q (pushing x t) = (head ≤ tail) × (t ≡ tail) × (t < size)
OwnerFits head tail size q (placed x t) = (head ≤ tail) × (t ≡ tail) × (t < size) × (q t ≡ x)
OwnerFits head tail size q (popping t) = (head ≤ tail) × (t ≡ tail) × (0 < t)
OwnerFits head tail size q (lowered t) = (tail ≡ t) × (head ≤ t + 1)
OwnerFits head tail size q (taking t v) = (tail ≡ t) × (head ≤ t) × (q t ≡ v) × (t < size)
OwnerFits head tail size q (last t) = (tail ≡ t) × (t ≤ head) × (head ≤ t + 1)
OwnerFits head tail size q (won t v) = (tail ≡ t) × (head ≡ t + 1) × (q t ≡ v) × (t < size)
OwnerFits head tail size q (restoring h) = (head ≡ h) × (tail ≤ h)
OwnerFits head tail size q _ = ⊥

-- A thief saw no head that is not there yet; if the head is still what it saw, a job waits there; and
-- the job that it was promised stands where it will read.
abbrev pub ThiefFits : ℕ → ℕ → ℕ → (ℕ → ℕ) → Thief → Type 0
ThiefFits head upper size q waiting = Unit
ThiefFits head upper size q (saw_head h) = h ≤ head
ThiefFits head upper size q (saw_tail h) = (h ≤ head) × (h ≡ head → head < upper)
ThiefFits head upper size q (claimed h v) = (h < head) × (q h ≡ v) × (h < size)

-- Every job that was pushed waits in the vector or was promised to one thread.
pub record IsConsistent (s : State) : Type 0 where
  pub room : top s.tail s.owner ≤ s.size
  pub owned : OwnerFits s.head s.tail s.size s.queue s.owner
  pub stolen : (i : ℕ) → ThiefFits s.head (top s.tail s.owner) s.size s.queue (s.thieves i)
  pub accounts :
      (a : ℕ)
      → count a s.pushed ≡ count a s.taken + count_in a s.queue s.head (top s.tail s.owner - s.head)

pub start-IsConsistent : IsConsistent start
unfolding count count_in
start-IsConsistent = record {
  room = omega arith;
  owned = omega arith;
  stolen = λ i. tt;
  accounts = λ a. refl;
}

-- What a thief relies on is kept when the head does not move, the end stays above it if it was, and
-- no job below the head changes.
pub ThiefFits-keep :
    (head head' upper upper' size : ℕ) (q q' : ℕ → ℕ) (p : Thief)
    → head ≤ head'
    → (head' ≡ head → head < upper → head < upper')
    → ((h : ℕ) → h < head → q' h ≡ q h)
    → ThiefFits head upper size q p
    → ThiefFits head' upper' size q' p
ThiefFits-keep head head' upper upper' size q q' waiting up above same f = tt
ThiefFits-keep head head' upper upper' size q q' (saw_head h) up above same f = omega arith
ThiefFits-keep head head' upper upper' size q q' (saw_tail h) up above same (le, at_head) = (
  omega arith,
  λ e. let inside : head < upper' = above (omega arith) (at_head (omega arith)) in omega arith,
)
ThiefFits-keep head head' upper upper' size q q' (claimed h v) up above same (lt, stands, inside) =
    (omega arith, same h lt ∙ stands, inside)
