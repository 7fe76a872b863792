-- ===== src/Gc/Stops.antt =====
-- Source/GC/GarbageCollector.cpp, runGc, needGC and safePoint: how the threads of the program stop
-- for one of them to scan the roots. A step is what a thread does under mRunMutex, or one access to
-- mStop or to mGcMutex; a thread that waits on the condition goes on when it holds.
pub mod Counts
pub mod Safety
use fptl.Prelude.{
  ℕ, suc, ◌+◌, ◌-◌, ◌≡◌, Bool, true, false, Option, some, List, [], ◌∷◌, length, get_elem?, set,
  replicate,
}

-- Where a thread is. A thread that looks for mGcMutex in the loop of runGc comes back there after
-- a stop, one that works goes on with its work: `back` is true for the loop.
pub data Phase : Type 0 where
  working trying : Phase
  -- needGC() has answered true
  noticed : Bool → Phase
  -- in the wait of safePoint()
  halted : Bool → Phase
  -- runGc() with mGcMutex, before mStop is set
  holding : Phase
  -- runGc() in its wait for the others
  asking : Phase
  -- markRoots and the reset of the heaps
  scanning : Phase
  -- runGc() after mStop is reset
  releasing : Phase

pub record Threads : Type 0 where
  pub phases : List Phase
  pub stop : Bool
  pub stopped : ℕ
  pub locked : Bool

-- All threads work.
abbrev pub started : ℕ → Threads
started n = record { phases = replicate n working; stop = false; stopped = 0; locked = false }

-- Where needGC() is asked, and where the thread goes on after it
abbrev pub asks_from : Bool → Phase
asks_from true = trying
asks_from false = working

abbrev pub move : ℕ → Phase → Threads → Threads
move i p s = record s { phases = set s.phases i p }

-- The thread `i` makes a step.
pub data Step (i : ℕ) (s : Threads) : Threads → Type 0 where
  request : get_elem? s.phases i ≡ some working → Step i s (move i trying s)
  notice :
      (back : Bool)
      → get_elem? s.phases i ≡ some (asks_from back)
      → s.stop ≡ true
      → Step i s (move i (noticed back) s)
  halt :
      (back : Bool)
      → get_elem? s.phases i ≡ some (noticed back)
      → Step i s (record (move i (halted back) s) { stopped = suc s.stopped })
  resume :
      (back : Bool)
      → get_elem? s.phases i ≡ some (halted back)
      → s.stop ≡ false
      → Step i s (record (move i (asks_from back) s) { stopped = s.stopped - 1 })
  lock :
      get_elem? s.phases i ≡ some trying
      → s.locked ≡ false
      → Step i s (record (move i holding s) { locked = true })
  ask :
      get_elem? s.phases i ≡ some holding
      → Step i s (record (move i asking s) { stop = true; stopped = suc s.stopped })
  scan :
      get_elem? s.phases i ≡ some asking
      → s.stopped ≡ length s.phases
      → Step i s (record (move i scanning s) { stopped = s.stopped - 1 })
  release :
      get_elem? s.phases i ≡ some scanning → Step i s (record (move i releasing s) { stop = false })
  unlock :
      get_elem? s.phases i ≡ some releasing
      → Step i s (record (move i working s) { locked = false })

-- The states that `n` threads come to, one step after the other
pub data Reached (n : ℕ) : Threads → Type 0 where
  begin : Reached n (started n)
  next : {s t : Threads} (i : ℕ) → Reached n s → Step i s t → Reached n t
