-- ===== src/WorkQueue/Threads/Tests.antt =====
-- One job, pushed by the owner and claimed by a thief.
use fptl.Prelude.{ℕ, ◌+◌, ◌-◌, ◌≡◌, refl, [], ◌∷◌, arith}
use fptl.WorkQueue.Threads.{
  update, resting, pushing, placed, taking, won, waiting, saw_head, saw_tail, claimed, State, start,
  Reach, here, next, push_load, push_write, push_store, steal_head, steal_tail, steal_win,
}
use fptl.WorkQueue.Threads.Range.{count, count_in}
use fptl.WorkQueue.Threads.Safety.{promised_once, reads_promise, StandsAt}
use fptl.WorkQueue.Threads.Progress.{OwnerEnds, ThiefEnds, owner_ends, thief_ends}
use fptl.WorkQueue.Threads.Growth.{push_growing_races}

abbrev queue : ℕ → ℕ
queue = update (λ i. 0) 0 7

abbrev loaded : State
loaded = record start { owner = pushing 7 0 }

abbrev written : State
written = record loaded { owner = placed 7 0; queue = queue }

abbrev stored : State
stored = record written { owner = resting; tail = 1; pushed = 7 ∷ [] }

abbrev saw : State
saw = record stored { thieves = update (λ i. waiting) 4 (saw_head 0) }

abbrev both : State
both = record saw { thieves = update saw.thieves 4 (saw_tail 0) }

abbrev stolen : State
stolen = record both { head = 1; thieves = update both.thieves 4 (claimed 0 7); taken = 7 ∷ [] }

Reach-stored : Reach stored
Reach-stored =
    next (next (next here (push_load 7 refl (omega arith))) (push_write refl)) (push_store refl)

Reach-stolen : Reach stolen
Reach-stolen =
    next (next (next Reach-stored (steal_head 4 refl)) (steal_tail 4 refl (omega arith)))
      (steal_win 4 refl refl)

promised_once_example : count 7 (7 ∷ []) ≡ count 7 (7 ∷ []) + count_in 7 queue 1 (1 - 1)
promised_once_example = promised_once {s = stolen} Reach-stolen refl 7

reads_promise_example :
    ((i h v : ℕ) → stolen.thieves i ≡ claimed h v → StandsAt stolen h v)
    × ((t v : ℕ) → stolen.owner ≡ taking t v → StandsAt stolen t v)
    × ((t v : ℕ) → stolen.owner ≡ won t v → StandsAt stolen t v)
reads_promise_example = reads_promise {s = stolen} Reach-stolen refl

push_growing_races_example : (t : State) × Reach t × (t.thieves 0 ≡ claimed 0 5) × (t.queue 0 ≡ 6)
push_growing_races_example = push_growing_races (λ i. i + 5)

owner_ends_example : OwnerEnds loaded
owner_ends_example = owner_ends loaded

thief_ends_example : ThiefEnds 4 3 saw
thief_ends_example = thief_ends saw 4
