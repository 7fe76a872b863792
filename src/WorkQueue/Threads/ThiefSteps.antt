-- ===== src/WorkQueue/Threads/ThiefSteps.antt =====
-- Source/Evaluator/LockFreeWorkStealingQueue.h: the accesses of `steal`.
use fptl.Prelude.{
  ℕ, ◌+◌, ◌-◌, ◌≤◌, ◌<◌, ◌≡◌, refl, sym, ap, subst, Bool-cases, inl, inr, ◌∷◌, ◌==◌, arith,
}
use fptl.WorkQueue.Threads.{
  update, Owner, resting, pushing, placed, popping, lowered, taking, last, won, restoring, growing,
  closing, copying, shifted, enlarged, appended, reopening, State, Thief, waiting, saw_head,
  saw_tail, claimed,
}
use fptl.WorkQueue.Threads.Range.{hit, count-cons, count_in, count_in-drop}
use fptl.WorkQueue.Threads.Invariant.{top, OwnerFits, IsConsistent, ThiefFits, ThiefFits-keep}

-- A family that changes at one index.
update-All :
    (P : Thief → Type 0) (f : ℕ → Thief) (i : ℕ) (p : Thief)
    → ((j : ℕ) → P (f j))
    → P p
    → (j : ℕ) → P (update f i p j)
update-All P f i p all new j = elim (Bool-cases (j == i)) [
  | inl same ↦ rw same new
  | inr other ↦ rw other (all j)
]

known_thief :
    (s : State) (i : ℕ) (p : Thief)
    → s.thieves i ≡ p
    → IsConsistent s
    → ThiefFits s.head (top s.tail s.owner) s.size s.queue p
known_thief s i p e c = subst (ThiefFits s.head (top s.tail s.owner) s.size s.queue) e (c.stolen i)

-- An access that changes only where a thief stands.
thief_moves :
    (s : State) (i : ℕ) (p : Thief)
    → IsConsistent s
    → ThiefFits s.head (top s.tail s.owner) s.size s.queue p
    → IsConsistent (record s { thieves = update s.thieves i p })
thief_moves s i p c fits = record {
  room = c.room;
  owned = c.owned;
  stolen =
      update-All (ThiefFits s.head (top s.tail s.owner) s.size s.queue) s.thieves i p c.stolen fits;
  accounts = c.accounts;
}

-- The tail is never behind the end.
tail-le-top :
    (head tail size : ℕ) (q : ℕ → ℕ) (o : Owner) → OwnerFits head tail size q o → tail ≤ top tail o
tail-le-top head tail size q (lowered t) f = omega arith
tail-le-top head tail size q (last t) f = omega arith
tail-le-top head tail size q (won t v) f = omega arith
tail-le-top head tail size q (restoring h) f = omega arith
tail-le-top head tail size q resting f = omega arith
tail-le-top head tail size q _ f = omega arith

-- The owner, when a thief takes the job at the head, which stands before the end.
owner_keeps :
    (head tail size : ℕ) (q : ℕ → ℕ) (o : Owner)
    → head < top tail o
    → OwnerFits head tail size q o
    → OwnerFits (head + 1) tail size q o
owner_keeps head tail size q resting lt f = omega arith
owner_keeps head tail size q (pushing x t) lt (le, same, room) = (omega arith, same, room)
owner_keeps head tail size q (placed x t) lt (le, same, room, stands) =
    (omega arith, same, room, stands)
owner_keeps head tail size q (popping t) lt f = omega arith
owner_keeps head tail size q (lowered t) lt f = omega arith
owner_keeps head tail size q (taking t v) lt (same, le, stands, room) =
    (same, omega arith, stands, room)
owner_keeps head tail size q (last t) lt f = omega arith
owner_keeps head tail size q (won t v) lt f = absurd (omega (arith, f.1))
owner_keeps head tail size q (restoring h) lt f = absurd (omega arith)
owner_keeps head tail size q (growing x t) lt f = f
owner_keeps head tail size q (closing x t h) lt f = f
owner_keeps head tail size q (copying x h n i) lt f = f
owner_keeps head tail size q (shifted x n) lt f = f
owner_keeps head tail size q (enlarged x n) lt f = f
owner_keeps head tail size q (appended x n) lt f = f
owner_keeps head tail size q (reopening x) lt f = f

module _ (s : State) (c : IsConsistent s) (i : ℕ) where
  pub steal_head-IsConsistent :
      IsConsistent (record s { thieves = update s.thieves i (saw_head s.head) })
  steal_head-IsConsistent = thief_moves s i (saw_head s.head) c (omega arith)

  pub steal_done-IsConsistent : IsConsistent (record s { thieves = update s.thieves i waiting })
  steal_done-IsConsistent = thief_moves s i waiting c tt

  pub steal_tail-IsConsistent :
      {h : ℕ}
      → s.thieves i ≡ saw_head h
      → h < s.tail
      → IsConsistent (record s { thieves = update s.thieves i (saw_tail h) })
  steal_tail-IsConsistent {h} e lt =
      let le = known_thief s i (saw_head h) e c in
      let end = tail-le-top s.head s.tail s.size s.queue s.owner c.owned in
      thief_moves s i (saw_tail h) c (le, λ same. omega arith)

  pub steal_win-IsConsistent :
      {h : ℕ}
      → s.thieves i ≡ saw_tail h
      → s.head ≡ h
      → IsConsistent (record s {
        head = h + 1;
        thieves = update s.thieves i (claimed h (s.queue h));
        taken = s.queue h ∷ s.taken;
      })
  steal_win-IsConsistent {h} e at =
      let (le, below) = known_thief s i (saw_tail h) e c in
      let lt : s.head < top s.tail s.owner = below (sym at) in
      record {
        room = c.room;
        owned =
            subst (λ n. OwnerFits (n + 1) s.tail s.size s.queue s.owner) at
              (owner_keeps s.head s.tail s.size s.queue s.owner lt c.owned);
        stolen =
            update-All (ThiefFits (h + 1) (top s.tail s.owner) s.size s.queue) s.thieves i
              (claimed h (s.queue h))
              (λ j.
                ThiefFits-keep s.head (h + 1) (top s.tail s.owner) (top s.tail s.owner) s.size
                  s.queue s.queue (s.thieves j) (omega arith) (λ e' _. absurd (omega arith))
                  (λ k _. refl) (c.stolen j))
              (omega arith, refl, omega (arith, c.room));
        accounts = λ a. omega (
          arith,
          c.accounts a,
          count-cons a (s.queue h) s.taken,
          count_in-drop a s.queue s.head (top s.tail s.owner) lt,
          ap (λ n. hit (s.queue n) a + count_in a s.queue (n + 1) (top s.tail s.owner - (n + 1)))
              at,
        );
      }
