-- ===== src/WorkQueue/Threads/OwnerSteps.antt =====
-- Source/Evaluator/LockFreeWorkStealingQueue.h: the accesses of `push` and `pop`.
use fptl.Prelude.{ℕ, ◌+◌, ◌-◌, ◌≤◌, ◌<◌, ◌≡◌, ◌≢◌, refl, sym, ap, ◌∙◌, subst, ◌∷◌, arith}
use fptl.WorkQueue.Threads.{
  update, Owner, resting, pushing, placed, popping, lowered, taking, last, won, restoring, State,
}
use fptl.WorkQueue.Threads.Range.{
  hit, count, count-cons, count_in, count_in-update, count_in-grow, count_in-drop,
}
use fptl.WorkQueue.Threads.Invariant.{top, OwnerFits, IsConsistent, ThiefFits, ThiefFits-keep}

-- What is known where the owner stands.
known :
    (s : State) (o : Owner)
    → s.owner ≡ o
    → IsConsistent s
    → OwnerFits s.head s.tail s.size s.queue o
known s o e c = subst (OwnerFits s.head s.tail s.size s.queue) e c.owned

top_at : (s : State) (o : Owner) → s.owner ≡ o → top s.tail s.owner ≡ top s.tail o
top_at s o e = ap (top s.tail) e

-- An access that changes the tail or nothing, and not the end.
owner_moves :
    (s : State) (o' : Owner) (tail' : ℕ)
    → IsConsistent s
    → top tail' o' ≡ top s.tail s.owner
    → OwnerFits s.head tail' s.size s.queue o'
    → IsConsistent (record s { owner = o'; tail = tail' })
owner_moves s o' tail' c e fits = record {
  room = subst (λ n. n ≤ s.size) (sym e) c.room;
  owned = fits;
  stolen = λ i. subst (λ n. ThiefFits s.head n s.size s.queue (s.thieves i)) (sym e) (c.stolen i);
  accounts = λ a.
      subst (λ n. count a s.pushed ≡ count a s.taken + count_in a s.queue s.head (n - s.head))
        (sym e) (c.accounts a);
}

module _ (s : State) (c : IsConsistent s) where
  pub push_load-IsConsistent :
      (x : ℕ)
      → s.owner ≡ resting
      → s.tail < s.size
      → IsConsistent (record s { owner = pushing x s.tail })
  push_load-IsConsistent x e room =
      let k = known s resting e c in
      owner_moves s (pushing x s.tail) s.tail c (sym (top_at s resting e)) (k, refl, room)

  pub pop_load-IsConsistent :
      s.owner ≡ resting → s.tail ≢ 0 → IsConsistent (record s { owner = popping s.tail })
  pop_load-IsConsistent e ne =
      let k = known s resting e c in
      owner_moves s (popping s.tail) s.tail c (sym (top_at s resting e)) (k, refl, omega arith)

  pub pop_store-IsConsistent :
      {t : ℕ}
      → s.owner ≡ popping t
      → IsConsistent (record s { owner = lowered (t - 1); tail = t - 1 })
  pop_store-IsConsistent {t} e =
      let (le, same, positive) = known s (popping t) e c in
      let end = top_at s (popping t) e in
      owner_moves s (lowered (t - 1)) (t - 1) c (omega arith) (refl, omega arith)

  pub pop_below-IsConsistent :
      {t : ℕ}
      → s.owner ≡ lowered t
      → t < s.head
      → IsConsistent (record s { owner = restoring s.head })
  pop_below-IsConsistent {t} e lt =
      let (same, le) = known s (lowered t) e c in
      let end = top_at s (lowered t) e in
      owner_moves s (restoring s.head) s.tail c (omega arith) (refl, omega arith)

  pub pop_read-IsConsistent :
      {t v : ℕ} → s.owner ≡ taking t v → IsConsistent (record s { owner = resting })
  pop_read-IsConsistent {t} {v} e =
      let (same, le, stands, inside) = known s (taking t v) e c in
      owner_moves s resting s.tail c (sym (top_at s (taking t v) e)) (omega arith)

  pub pop_equal-IsConsistent :
      {t : ℕ} → s.owner ≡ lowered t → t ≡ s.head → IsConsistent (record s { owner = last t })
  pop_equal-IsConsistent {t} e eq =
      let (same, le) = known s (lowered t) e c in
      owner_moves s (last t) s.tail c (sym (top_at s (lowered t) e)) (same, omega arith, le)

  pub pop_lose-IsConsistent :
      {t : ℕ} → s.owner ≡ last t → s.head ≢ t → IsConsistent (record s { owner = restoring s.head })
  pop_lose-IsConsistent {t} e ne =
      let (same, ge, le) = known s (last t) e c in
      let end = top_at s (last t) e in
      owner_moves s (restoring s.head) s.tail c (omega arith) (refl, omega arith)

  pub pop_last-IsConsistent :
      {t v : ℕ} → s.owner ≡ won t v → IsConsistent (record s { owner = resting; tail = t + 1 })
  pop_last-IsConsistent {t} {v} e =
      let (same, eq, stands, inside) = known s (won t v) e c in
      owner_moves s resting (t + 1) c (sym (top_at s (won t v) e)) (omega arith)

  pub pop_restore-IsConsistent :
      {h : ℕ} → s.owner ≡ restoring h → IsConsistent (record s { owner = resting; tail = h })
  pop_restore-IsConsistent {h} e =
      let (same, le) = known s (restoring h) e c in
      owner_moves s resting h c (sym (top_at s (restoring h) e)) (omega arith)

pub accounts_at :
    (s : State) (c : IsConsistent s) (upper a : ℕ)
    → top s.tail s.owner ≡ upper
    → count a s.pushed ≡ count a s.taken + count_in a s.queue s.head (upper - s.head)
accounts_at s c upper a e =
    c.accounts a ∙ ap (λ n. count a s.taken + count_in a s.queue s.head (n - s.head)) e

update_other : (q : ℕ → ℕ) (k x h : ℕ) → h < k → update q k x h ≡ q h
update_other q k x h lt = ground arith

update_self : (q : ℕ → ℕ) (k x : ℕ) → update q k x k ≡ x
update_self q k x = ground arith

module _ (s : State) (c : IsConsistent s) where
  pub push_write-IsConsistent :
      {x t : ℕ}
      → s.owner ≡ pushing x t
      → IsConsistent (record s { owner = placed x t; queue = update s.queue t x })
  push_write-IsConsistent {x} {t} e =
      let (le, same, inside) = known s (pushing x t) e c in
      let end = top_at s (pushing x t) e in
      record {
        room = omega (arith, c.room);
        owned = (le, same, inside, update_self s.queue t x);
        stolen = λ i.
            ThiefFits-keep s.head s.head (top s.tail s.owner) s.tail s.size s.queue
              (update s.queue t x) (s.thieves i) (omega arith) (λ _ lt. omega arith)
              (λ h lt. update_other s.queue t x h (omega arith)) (c.stolen i);
        accounts = λ a.
            c.accounts a
            ∙ ap (λ n. count a s.taken + count_in a s.queue s.head (n - s.head)) end
            ∙ ap (λ n. count a s.taken + n)
                (sym (count_in-update a s.queue s.head (s.tail - s.head) t x (omega arith)));
      }

  pub push_store-IsConsistent :
      {x t : ℕ}
      → s.owner ≡ placed x t
      → IsConsistent (record s { owner = resting; tail = t + 1; pushed = x ∷ s.pushed })
  push_store-IsConsistent {x} {t} e =
      let (le, same, inside, stands) = known s (placed x t) e c in
      let end = top_at s (placed x t) e in
      record {
        room = omega arith;
        owned = omega arith;
        stolen = λ i.
            ThiefFits-keep s.head s.head (top s.tail s.owner) (t + 1) s.size s.queue s.queue
              (s.thieves i) (omega arith) (λ _ lt. omega arith) (λ h lt. refl) (c.stolen i);
        accounts = λ a. omega (
          arith,
          accounts_at s c t a (omega arith),
          count-cons a x s.pushed,
          count_in-grow a s.queue s.head t (omega arith),
          ap (λ v. hit v a) stands,
        );
      }

  -- The job behind the end is promised to the owner.
  pub pop_above-IsConsistent :
      {t : ℕ}
      → s.owner ≡ lowered t
      → s.head < t
      → IsConsistent (record s { owner = taking t (s.queue t); taken = s.queue t ∷ s.taken })
  pop_above-IsConsistent {t} e lt =
      let (same, le) = known s (lowered t) e c in
      let end = top_at s (lowered t) e in
      record {
        room = omega (arith, c.room);
        owned = (same, omega arith, refl, omega (arith, c.room));
        stolen = λ i.
            ThiefFits-keep s.head s.head (top s.tail s.owner) s.tail s.size s.queue s.queue
              (s.thieves i) (omega arith) (λ _ _. omega arith) (λ h _. refl) (c.stolen i);
        accounts = λ a. omega (
          arith,
          accounts_at s c (t + 1) a end,
          count-cons a (s.queue t) s.taken,
          count_in-grow a s.queue s.head t (omega arith),
          ap (λ n. count_in a s.queue s.head (n - s.head)) same,
        );
      }

  -- The compare-and-exchange of `pop` finds the head that was read.
  pub pop_win-IsConsistent :
      {t : ℕ}
      → s.owner ≡ last t
      → s.head ≡ t
      → IsConsistent
          (record s { owner = won t (s.queue t); head = t + 1; taken = s.queue t ∷ s.taken })
  pop_win-IsConsistent {t} e eq =
      let (same, ge, le) = known s (last t) e c in
      let end = top_at s (last t) e in
      record {
        room = omega (arith, c.room);
        owned = (same, refl, refl, omega (arith, c.room));
        stolen = λ i.
            ThiefFits-keep s.head (t + 1) (top s.tail s.owner) (t + 1) s.size s.queue s.queue
              (s.thieves i) (omega arith) (λ e' _. absurd (omega arith)) (λ h _. refl) (c.stolen i);
        accounts = λ a. omega (
          arith,
          accounts_at s c (t + 1) a end,
          count-cons a (s.queue t) s.taken,
          ap (λ h. count_in a s.queue h (t + 1 - h)) eq,
          count_in-drop a s.queue t (t + 1) (omega arith),
        );
      }
