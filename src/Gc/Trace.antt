-- ===== src/Gc/Trace.antt =====
-- Source/GC/GarbageCollector.cpp, HeapMarker::traceDataRecursively: the invariant of the loop.
use fptl.Prelude.{ℕ, ◌≡◌, refl, sym, subst, ◌⊎◌, inl, inr, Bool, true, false, List, [], ◌∷◌, arith}
use mathlib.Core.List.{Memᴰ}
use mathlib.Core.List.Memᴰ
use mathlib.Core.Logic.{⊎_elim}
use fptl.Gc.{Age, check_age, Ref, Content, Sizes, HeapMarker, elements, mark_object, heap_marker}
use fptl.Gc.Reach.{targets, IsFresh, Found, root, child, IsAlive}
use fptl.Gc.Marks.{mem-push_all, set_flag_iff, offered, first, again, offer}

module _ (age : ℕ → Age) (sizes : Sizes) (content : ℕ → Content) (start : HeapMarker) where
  -- The objects of a value that are young enough are marked.
  abbrev pub Done : HeapMarker → Ref → Type 0
  Done s v =
      (a : ℕ)
      → Memᴰ a (targets content v)
      → check_age (age a) start.max_age ≡ true
      → s.marked a ≡ true

  -- A value is being visited, is on the stack, or is done.
  abbrev pub Waits : List Ref → HeapMarker → Ref → Type 0
  Waits current s v = (Memᴰ v current ⊎ Memᴰ v s.mark_stack) ⊎ Done s v

  pub record Inv (current : List Ref) (s : HeapMarker) : Type 0 where
    pub limit : s.max_age ≡ start.max_age
    pub kept : (a : ℕ) → start.marked a ≡ true → s.marked a ≡ true
    pub sound :
        (a : ℕ)
        → s.marked a ≡ true
        → (start.marked a ≡ true)
          ⊎ IsAlive content age start.marked start.max_age start.mark_stack a
    pub found :
        (v : Ref)
        → Memᴰ v current ⊎ Memᴰ v s.mark_stack
        → Found content age start.marked start.max_age start.mark_stack v
    pub rooted : (v : Ref) → Memᴰ v start.mark_stack → Waits current s v
    pub closed :
        (a : ℕ)
        → s.marked a ≡ true
        → (start.marked a ≡ true) ⊎ ((v : Ref) → Memᴰ v (elements (content a)) → Waits current s v)

  pub Inv-start : Inv [] start
  Inv-start = record {
    limit = refl;
    kept = λ a m. m;
    sound = λ a m. inl m;
    found = λ v. ⊎_elim (λ none. absurd (Memᴰ.not-nil none)) (λ m. root m);
    rooted = λ v m. inl (inr m);
    closed = λ a m. inl m;
  }

  -- Marks that grow leave what waits waiting.
  Waits-grow :
      (current : List Ref) (s t : HeapMarker) (v : Ref)
      → ((w : Ref) → Memᴰ w s.mark_stack → Memᴰ w t.mark_stack)
      → ((a : ℕ) → s.marked a ≡ true → t.marked a ≡ true)
      → Waits current s v
      → Waits current t v
  Waits-grow current s t v stack marks (inl (inl now)) = inl (inl now)
  Waits-grow current s t v stack marks (inl (inr later)) = inl (inr (stack v later))
  Waits-grow current s t v stack marks (inr done) = inr (λ a m h. marks a (done a m h))

  Inv-offered :
      (current : List Ref) (s : HeapMarker) (v : Ref) (a : ℕ)
      → Inv current s
      → Found content age start.marked start.max_age start.mark_stack v
      → Memᴰ a (targets content v)
      → s.marked a ≡ false
      → check_age (age a) s.max_age ≡ true
      → Inv current (offered age sizes content a s)
  Inv-offered current s v a h f m unmarked in_age =
      let t : HeapMarker = offered age sizes content a s in
      let fresh : IsFresh content age start.marked start.max_age a = (
        fresh_mark (start.marked a) (h.kept a),
        subst (λ x. check_age (age a) x ≡ true) h.limit in_age,
      ) in
      let grown = λ (b : ℕ) (e : s.marked b ≡ true). (set_flag_iff a b s.marked).1 (inr e) in
      let pushed = λ (w : Ref) (e : Memᴰ w s.mark_stack).
        (mem-push_all w (elements (content a)) s.mark_stack).1 (inr e) in
      record {
        limit = h.limit;
        kept = λ b e. grown b (h.kept b e);
        sound = λ b e. elim ((set_flag_iff a b s.marked).0 e) [
          | inl same ↦ inr (
              subst (IsAlive content age start.marked start.max_age start.mark_stack) (sym same)
                (v, f, m, fresh))
          | inr before ↦ h.sound b before
        ];
        found = λ w.
            ⊎_elim (λ now. h.found w (inl now))
              (λ later. elim ((mem-push_all w (elements (content a)) s.mark_stack).0 later) [
                | inl new ↦ child a f m fresh new
                | inr before ↦ h.found w (inr before)
              ]);
        rooted = λ w e. Waits-grow current s t w pushed grown (h.rooted w e);
        closed = λ b e. elim ((set_flag_iff a b s.marked).0 e) [
          | inl same ↦ inr (λ w new. inl (
              inr (
                (mem-push_all w (elements (content a)) s.mark_stack).1
                  (inl (subst (λ x. Memᴰ w (elements (content x))) same new)))))
          | inr before ↦ elim (h.closed b before) [
            | inl old ↦ inl old
            | inr waits ↦ inr (λ w new. Waits-grow current s t w pushed grown (waits w new))
          ]
        ];
      }
    where
      fresh_mark : (x : Bool) → (x ≡ true → s.marked a ≡ true) → x ≡ false
      fresh_mark true k = ground (arith, k refl, unmarked)
      fresh_mark false k = refl

  -- One object of a value that is found keeps the invariant and is marked, if it is young enough.
  pub record Marks (current : List Ref) (a : ℕ) (s t : HeapMarker) : Type 0 where
    pub inv : Inv current t
    pub marks : check_age (age a) start.max_age ≡ true → t.marked a ≡ true
    pub grows : (b : ℕ) → s.marked b ≡ true → t.marked b ≡ true

  pub mark_object-Marks :
      (current : List Ref) (s : HeapMarker) (v : Ref) (a : ℕ)
      → Inv current s
      → Found content age start.marked start.max_age start.mark_stack v
      → Memᴰ a (targets content v)
      → Marks current a s (mark_object sizes content (heap_marker age) a s)
  mark_object-Marks current s v a h f m = elim (offer age sizes content a s) [
    | first unmarked in_age e ↦ rw e (record {
      inv = Inv-offered current s v a h f m unmarked in_age;
      marks = λ _. (set_flag_iff a a s.marked).1 (inl refl);
      grows = λ b x. (set_flag_iff a b s.marked).1 (inr x);
    })
    | again why e ↦ rw e (record {
      inv = h;
      marks = λ in_age. elim why [ inl marked ↦ marked | inr older ↦ cc (h.limit) ];
      grows = λ b x. x;
    })
  ]

  -- The value that is popped is visited.
  pub Inv-pop :
      (s : HeapMarker) (v : Ref) (rest : List Ref)
      → s.mark_stack ≡ v ∷ rest
      → Inv [] s
      → Inv (v ∷ []) (record s { mark_stack = rest })
  Inv-pop s v rest e h = record {
    limit = h.limit;
    kept = h.kept;
    sound = h.sound;
    found = λ w.
        ⊎_elim
          (λ now. h.found w (inr (subst (Memᴰ w) (sym e) (Memᴰ.head (Memᴰ.eq_of_singleton now)))))
          (λ later. h.found w (inr (subst (Memᴰ w) (sym e) (Memᴰ.tail later))));
    rooted = λ w m. moved w (h.rooted w m);
    closed = λ a m. elim (h.closed a m) [
      | inl old ↦ inl old
      | inr waits ↦ inr (λ w new. moved w (waits w new))
    ];
  }
    where
      moved : (w : Ref) → Waits [] s w → Waits (v ∷ []) (record s { mark_stack = rest }) w
      moved w (inl (inl none)) = absurd (Memᴰ.not-nil none)
      moved w (inl (inr now)) = elim (Memᴰ.cases_cons (subst (Memᴰ w) e now)) [
        | inl same ↦ inl (inl (Memᴰ.head same))
        | inr later ↦ inl (inr later)
      ]
      moved w (inr done) = inr done

  -- A value whose objects are marked is visited no longer.
  pub Inv-drop : (t : HeapMarker) (v : Ref) → Inv (v ∷ []) t → Done t v → Inv [] t
  Inv-drop t v h done = record {
    limit = h.limit;
    kept = h.kept;
    sound = h.sound;
    found = λ w. ⊎_elim (λ none. absurd (Memᴰ.not-nil none)) (λ later. h.found w (inr later));
    rooted = λ w m. moved w (h.rooted w m);
    closed = λ a m. elim (h.closed a m) [
      | inl old ↦ inl old
      | inr waits ↦ inr (λ w new. moved w (waits w new))
    ];
  }
    where
      moved : (w : Ref) → Waits (v ∷ []) t w → Waits [] t w
      moved w (inl (inl now)) = inr (subst (Done t) (sym (Memᴰ.eq_of_singleton now)) done)
      moved w (inl (inr later)) = inl (inr later)
      moved w (inr d) = inr d
