-- ===== src/WorkQueue/Threads/Progress.antt =====
-- Source/Evaluator/LockFreeWorkStealingQueue.h: a thread that runs while the others stand still.
use fptl.Prelude.{
  ℕ, zero, suc, ◌+◌, ◌-◌, ◌≤◌, ◌<◌, ◌≡◌, ◌≢◌, refl, Bool-cases, inl, inr, ◌⊎◌, ◌==◌, arith, ==_iff,
}
use fptl.WorkQueue.Threads.{
  update, Owner, resting, pushing, placed, popping, lowered, taking, last, won, restoring, growing,
  closing, copying, shifted, enlarged, appended, reopening, Thief, waiting, saw_head, saw_tail,
  claimed, State, Step, push_write, push_store, grow_head, grow_win, grow_lose, grow_copy,
  grow_shift, grow_keep, grow_resize, grow_write, grow_store, grow_open, pop_store, pop_below,
  pop_above, pop_read, pop_equal, pop_win, pop_lose, pop_last, pop_restore, steal_none, steal_tail,
  steal_lose, steal_win, steal_read,
}

-- The owner ends its operation, and no thief moves.
pub data OwnerEnds : State → Type 0 where
  ends : {s : State} → s.owner ≡ resting → OwnerEnds s
  moves : {s t : State} → Step s t → t.thieves ≡ s.thieves → OwnerEnds t → OwnerEnds s

restoring_ends : (s : State) (h : ℕ) → s.owner ≡ restoring h → OwnerEnds s
restoring_ends s h e = moves (pop_restore e) refl (ends refl)

last_ends : (s : State) (t : ℕ) → s.owner ≡ last t → OwnerEnds s
last_ends s t e = elim (Bool-cases (s.head == t)) [
  | inl same ↦
      moves (pop_win e ((==_iff s.head t).0 same)) refl (moves (pop_last refl) refl (ends refl))
  | inr other ↦ moves (pop_lose e (ground arith)) refl (restoring_ends _ s.head refl)
]

order : (a b : ℕ) → (a < b) ⊎ (b < a) ⊎ (a ≡ b)
order a b = omega arith

lowered_ends : (s : State) (t : ℕ) → s.owner ≡ lowered t → OwnerEnds s
lowered_ends s t e = elim (order t s.head) [
  | inl below ↦ moves (pop_below e below) refl (restoring_ends _ s.head refl)
  | inr (inl above) ↦ moves (pop_above e above) refl (moves (pop_read refl) refl (ends refl))
  | inr (inr same) ↦ moves (pop_equal e same) refl (last_ends _ t refl)
]

placed_ends : (s : State) (x t : ℕ) → s.owner ≡ placed x t → OwnerEnds s
placed_ends s x t e = moves (push_store e) refl (ends refl)

appended_ends : (s : State) (x n : ℕ) → s.owner ≡ appended x n → OwnerEnds s
appended_ends s x n e = moves (grow_store e) refl (moves (grow_open refl) refl (ends refl))

shifted_ends : (s : State) (x n : ℕ) → s.owner ≡ shifted x n → OwnerEnds s
shifted_ends s x n e =
    moves (grow_resize e) refl (moves (grow_write refl) refl (appended_ends _ x n refl))

-- The loop that moves the jobs to the front, with at most `k` of them left.
copying_ends : (x h n i k : ℕ) (s : State) → s.owner ≡ copying x h n i → n ≤ i + k → OwnerEnds s
copying_ends x zero n i k s e left = moves (grow_keep e) refl (shifted_ends _ x n refl)
copying_ends x (suc h) n i zero s e left =
    moves (grow_shift e (omega arith) (omega arith)) refl (shifted_ends _ x n refl)
copying_ends x (suc h) n i (suc k) s e left = elim (order i n) [
  | inl more ↦
      moves (grow_copy e (omega arith) more) refl
        (copying_ends x (suc h) n (i + 1) k _ refl (omega arith))
  | inr all ↦ moves (grow_shift e (omega arith) (omega arith)) refl (shifted_ends _ x n refl)
]

growing_ends : (s : State) (x t : ℕ) → s.owner ≡ growing x t → OwnerEnds s
growing_ends s x t e = moves (grow_head e) refl (
    moves (grow_win refl refl) refl
      (copying_ends x s.head (t - s.head) 0 (t - s.head) _ refl (omega arith)))

closing_ends : (s : State) (x t h : ℕ) → s.owner ≡ closing x t h → OwnerEnds s
closing_ends s x t h e = elim (Bool-cases (s.head == h)) [
  | inl same ↦
      moves (grow_win e ((==_iff s.head h).0 same)) refl
        (copying_ends x h (t - h) 0 (t - h) _ refl (omega arith))
  | inr other ↦ moves (grow_lose e (ground arith)) refl (growing_ends _ x t refl)
]

-- From every state, reachable or not, in the middle of a `push` or a `pop` or not, the owner comes to
-- the end of its operation by accesses of its own, while no thief moves.
pub owner_ends : (s : State) → OwnerEnds s
owner_ends s = from s.owner refl
  where
    from : (o : Owner) → s.owner ≡ o → OwnerEnds s
    from resting e = ends e
    from (pushing x t) e = moves (push_write e) refl (placed_ends _ x t refl)
    from (placed x t) e = placed_ends s x t e
    from (popping t) e = moves (pop_store e) refl (lowered_ends _ (t - 1) refl)
    from (lowered t) e = lowered_ends s t e
    from (taking t v) e = moves (pop_read e) refl (ends refl)
    from (last t) e = last_ends s t e
    from (won t v) e = moves (pop_last e) refl (ends refl)
    from (restoring h) e = restoring_ends s h e
    from (growing x t) e = growing_ends s x t e
    from (closing x t h) e = closing_ends s x t h e
    from (copying x h n i) e = copying_ends x h n i n s e (omega arith)
    from (shifted x n) e = shifted_ends s x n e
    from (enlarged x n) e = moves (grow_write e) refl (appended_ends _ x n refl)
    from (appended x n) e = appended_ends s x n e
    from (reopening x) e = moves (grow_open e) refl (ends refl)

-- The thief `i` ends its call, within a number of accesses, and nobody else moves.
pub data ThiefEnds (i : ℕ) : ℕ → State → Type 0 where
  over : {n : ℕ} {s : State} → s.thieves i ≡ waiting → ThiefEnds i n s
  turn :
      {n : ℕ} {s t : State}
      → Step s t
      → t.owner ≡ s.owner
      → ((j : ℕ) → j ≢ i → t.thieves j ≡ s.thieves j)
      → ThiefEnds i n t
      → ThiefEnds i (suc n) s

update_self {ℓ} : {A : Type ℓ} (f : ℕ → A) (i : ℕ) (v : A) → update f i v i ≡ v
update_self f i v = rw ((==_iff i i).1 refl) refl

update_other {ℓ} : {A : Type ℓ} (f : ℕ → A) (i : ℕ) (v : A) (j : ℕ) → j ≢ i → update f i v j ≡ f j
update_other f i v j ne = elim (Bool-cases (j == i)) [
  | inl same ↦ absurd (ne ((==_iff j i).0 same))
  | inr other ↦ rw other refl
]

claimed_ends : (s : State) (i h v : ℕ) → s.thieves i ≡ claimed h v → ThiefEnds i 1 s
claimed_ends s i h v e =
    turn (steal_read i e) refl (λ j ne. update_other s.thieves i waiting j ne)
      (over (update_self s.thieves i waiting))

saw_tail_ends : (s : State) (i h : ℕ) → s.thieves i ≡ saw_tail h → ThiefEnds i 2 s
saw_tail_ends s i h e = elim (Bool-cases (s.head == h)) [
  | inl same ↦
      turn (steal_win i e ((==_iff s.head h).0 same)) refl
        (λ j ne. update_other s.thieves i (claimed h (s.queue h)) j ne)
        (claimed_ends _ i h (s.queue h) (update_self s.thieves i (claimed h (s.queue h))))
  | inr other ↦
      turn (steal_lose i e (ground arith)) refl (λ j ne. update_other s.thieves i waiting j ne)
        (over (update_self s.thieves i waiting))
]

saw_head_ends : (s : State) (i h : ℕ) → s.thieves i ≡ saw_head h → ThiefEnds i 3 s
saw_head_ends s i h e = elim (order h s.tail) [
  | inl below ↦
      turn (steal_tail i e below) refl (λ j ne. update_other s.thieves i (saw_tail h) j ne)
        (saw_tail_ends _ i h (update_self s.thieves i (saw_tail h)))
  | inr above ↦
      turn (steal_none i e (omega arith)) refl (λ j ne. update_other s.thieves i waiting j ne)
        (over (update_self s.thieves i waiting))
]

more_time : (i : ℕ) {n : ℕ} {s : State} → ThiefEnds i n s → ThiefEnds i (suc n) s
more_time i (over e) = over e
more_time i (turn st same others rest) = turn st same others (more_time i rest)

-- From every state, reachable or not, a thief comes to the end of its call by at most three accesses
-- of its own, while the owner and the other thieves do not move.
pub thief_ends : (s : State) (i : ℕ) → ThiefEnds i 3 s
thief_ends s i = from (s.thieves i) refl
  where
    from : (p : Thief) → s.thieves i ≡ p → ThiefEnds i 3 s
    from waiting e = over e
    from (saw_head h) e = saw_head_ends s i h e
    from (saw_tail h) e = more_time i (saw_tail_ends s i h e)
    from (claimed h v) e = more_time i (more_time i (claimed_ends s i h v e))
