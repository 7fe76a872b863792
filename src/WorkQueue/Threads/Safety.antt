-- ===== src/WorkQueue/Threads/Safety.antt =====
-- Source/Evaluator/LockFreeWorkStealingQueue.h: every state that the threads can reach.
use fptl.Prelude.{ℕ, ◌+◌, ◌-◌, ◌<◌, ◌≡◌, subst, false}
use fptl.WorkQueue.Threads.{
  Owner, taking, won, claimed, State, Reach, here, next, Step, push_load, push_write, push_store,
  grow_load, grow_head, grow_lose, grow_win, grow_copy, grow_shift, grow_keep, grow_resize,
  grow_write, grow_store, grow_open, pop_none, pop_load, pop_store, pop_below, pop_above, pop_read,
  pop_equal, pop_win, pop_lose, pop_last, pop_restore, steal_head, steal_none, steal_tail,
  steal_lose, steal_win, steal_read,
}
use fptl.WorkQueue.Threads.Range.{count, count_in}
use fptl.WorkQueue.Threads.Invariant.{top, OwnerFits, ThiefFits, IsConsistent, start-IsConsistent}
use fptl.WorkQueue.Threads.OwnerSteps.{
  push_load-IsConsistent, push_write-IsConsistent, push_store-IsConsistent, pop_load-IsConsistent,
  pop_store-IsConsistent, pop_below-IsConsistent, pop_above-IsConsistent, pop_read-IsConsistent,
  pop_equal-IsConsistent, pop_win-IsConsistent, pop_lose-IsConsistent, pop_last-IsConsistent,
  pop_restore-IsConsistent,
}
use fptl.WorkQueue.Threads.ThiefSteps.{
  steal_head-IsConsistent, steal_done-IsConsistent, steal_tail-IsConsistent, steal_win-IsConsistent,
}

-- A vector that is not full yet is not being enlarged.
standing :
    (s : State) (o : Owner)
    → s.owner ≡ o
    → IsConsistent s
    → OwnerFits s.head s.tail s.size s.queue o
standing s o e c = subst (OwnerFits s.head s.tail s.size s.queue) e c.owned

Step-IsConsistent :
    {s t : State} → Step s t → t.grew ≡ false → (s.grew ≡ false → IsConsistent s) → IsConsistent t
Step-IsConsistent {s} (push_load x e h) g c = push_load-IsConsistent s (c g) x e h
Step-IsConsistent {s} (push_write e) g c = push_write-IsConsistent s (c g) e
Step-IsConsistent {s} (push_store e) g c = push_store-IsConsistent s (c g) e
Step-IsConsistent {s} (grow_load x e h) g c = cc
Step-IsConsistent {s} (grow_head e) g c = absurd (standing s _ e (c g))
Step-IsConsistent {s} (grow_lose e h) g c = absurd (standing s _ e (c g))
Step-IsConsistent {s} (grow_win e h) g c = absurd (standing s _ e (c g))
Step-IsConsistent {s} (grow_copy e h k) g c = absurd (standing s _ e (c g))
Step-IsConsistent {s} (grow_shift e h k) g c = absurd (standing s _ e (c g))
Step-IsConsistent {s} (grow_keep e) g c = absurd (standing s _ e (c g))
Step-IsConsistent {s} (grow_resize e) g c = absurd (standing s _ e (c g))
Step-IsConsistent {s} (grow_write e) g c = absurd (standing s _ e (c g))
Step-IsConsistent {s} (grow_store e) g c = absurd (standing s _ e (c g))
Step-IsConsistent {s} (grow_open e) g c = absurd (standing s _ e (c g))
Step-IsConsistent {s} (pop_none e h) g c = c g
Step-IsConsistent {s} (pop_load e h) g c = pop_load-IsConsistent s (c g) e h
Step-IsConsistent {s} (pop_store e) g c = pop_store-IsConsistent s (c g) e
Step-IsConsistent {s} (pop_below e h) g c = pop_below-IsConsistent s (c g) e h
Step-IsConsistent {s} (pop_above e h) g c = pop_above-IsConsistent s (c g) e h
Step-IsConsistent {s} (pop_read e) g c = pop_read-IsConsistent s (c g) e
Step-IsConsistent {s} (pop_equal e h) g c = pop_equal-IsConsistent s (c g) e h
Step-IsConsistent {s} (pop_win e h) g c = pop_win-IsConsistent s (c g) e h
Step-IsConsistent {s} (pop_lose e h) g c = pop_lose-IsConsistent s (c g) e h
Step-IsConsistent {s} (pop_last e) g c = pop_last-IsConsistent s (c g) e
Step-IsConsistent {s} (pop_restore e) g c = pop_restore-IsConsistent s (c g) e
Step-IsConsistent {s} (steal_head i e) g c = steal_head-IsConsistent s (c g) i
Step-IsConsistent {s} (steal_none i e h) g c = steal_done-IsConsistent s (c g) i
Step-IsConsistent {s} (steal_tail i e h) g c = steal_tail-IsConsistent s (c g) i e h
Step-IsConsistent {s} (steal_lose i e h) g c = steal_done-IsConsistent s (c g) i
Step-IsConsistent {s} (steal_win i e h) g c = steal_win-IsConsistent s (c g) i e h
Step-IsConsistent {s} (steal_read i e) g c = steal_done-IsConsistent s (c g) i

Reach-IsConsistent : {s : State} → Reach s → s.grew ≡ false → IsConsistent s
Reach-IsConsistent here g = start-IsConsistent
Reach-IsConsistent (next r st) g = Step-IsConsistent st g (λ g'. Reach-IsConsistent r g')

-- In every state that the owner and any number of thieves reach, in any order of their accesses, as
-- long as no `push` has found the vector full, a job was pushed as often as it was promised to a
-- thread or waits in the vector between the head and the end, both counted together.
pub promised_once :
    {s : State}
    → Reach s
    → s.grew ≡ false
    → (a : ℕ)
    → count a s.pushed ≡ count a s.taken + count_in a s.queue s.head (top s.tail s.owner - s.head)
promised_once r g a = (Reach-IsConsistent r g).accounts a

-- What a thread was promised: a thief after its compare-and-exchange, the owner before it reads.
abbrev pub StandsAt : State → ℕ → ℕ → Type 0
StandsAt s i v = (i < s.size) × (s.queue i ≡ v)

-- In every such state, an element that a thread is about to read, a thief or the owner, is inside the
-- vector and is the job that the thread was promised, whatever the others have done since.
pub reads_promise :
    {s : State}
    → Reach s
    → s.grew ≡ false
    → ((i h v : ℕ) → s.thieves i ≡ claimed h v → StandsAt s h v)
      × ((t v : ℕ) → s.owner ≡ taking t v → StandsAt s t v)
      × ((t v : ℕ) → s.owner ≡ won t v → StandsAt s t v)
reads_promise {s} r g =
    let c = Reach-IsConsistent r g in
    (
      (λ i h v e.
          let (below, stands, inside) =
            subst (ThiefFits s.head (top s.tail s.owner) s.size s.queue) e (c.stolen i) in
          (inside, stands)),
      (λ t v e. let (same, le, stands, inside) = standing s (taking t v) e c in (inside, stands)),
      (λ t v e. let (same, eq, stands, inside) = standing s (won t v) e c in (inside, stands)),
    )
