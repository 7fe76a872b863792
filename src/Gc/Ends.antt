-- ===== src/Gc/Ends.antt =====
-- Source/GC/GarbageCollector.cpp, HeapMarker::traceDataRecursively: the loop ends.
use fptl.Prelude.{
  ℕ, zero, suc, ◌≤◌, ◌<◌, ◌≡◌, refl, sym, subst, ap, ◌⊎◌, ◌↔◌, inl, inr, true, List, [], ◌∷◌,
  length, ok, arith,
}
use mathlib.Core.List.{Memᴰ}
use mathlib.Core.List.Memᴰ
use fptl.Gc.{
  Age, check_age, Ref, plain, adt_ref, array_ref, string_ref, Content, string_value, Sizes,
  HeapMarker, mark_object, heap_marker, visit_ref, trace,
}
use fptl.Gc.Reach.{shared_data, targets, IsValue, IsHeap, IsAlive, Found, root, child}
use mathlib.Core.Logic.{⊎_elim}
use fptl.Gc.Trace.{Waits, Done, Inv, Inv-start, Inv-pop, Inv-drop, mark_object-Marks}
use fptl.Gc.Measure.{List-cases, found-IsValue, rounds, rounds-mark_object, visit_string}

module _ (age : ℕ → Age) (sizes : Sizes) (content : ℕ → Content) where
  module _ (start : HeapMarker) (n : ℕ) where
    top :
        (s : HeapMarker) (v : Ref) (rest : List Ref)
        → s.mark_stack ≡ v ∷ rest
        → Inv age sizes content start [] s
        → Found content age start.marked start.max_age start.mark_stack v
    top s v rest e h = h.found v (inr (subst (Memᴰ v) (sym e) (Memᴰ.head refl)))

    visit_object :
        (s : HeapMarker) (v : Ref) (a : ℕ) (rest : List Ref)
        → s.mark_stack ≡ v ∷ rest
        → Memᴰ a (targets content v)
        → ((b : ℕ) → Memᴰ b (targets content v) → b ≡ a)
        → a < n
        → Inv age sizes content start [] s
        → Inv age sizes content start []
            (mark_object sizes content (heap_marker age) a (record s { mark_stack = rest }))
          × (suc (
                rounds age sizes content n
                  (mark_object sizes content (heap_marker age) a (record s { mark_stack = rest })))
              ≡ rounds age sizes content n s)
    visit_object s v a rest e here only lt h =
        let popped : HeapMarker = record s { mark_stack = rest } in
        let one =
          mark_object-Marks age sizes content start (v ∷ []) popped v a
            (Inv-pop age sizes content start s v rest e h) (top s v rest e h) here in
        (
          Inv-drop age sizes content start (mark_object sizes content (heap_marker age) a popped) v
              one.inv
              (λ b m in_age.
                let same = only b m in
                subst (λ x. (mark_object sizes content (heap_marker age) a popped).marked x ≡ true)
                  (sym same)
                  (one.marks (subst (λ x. check_age (age x) start.max_age ≡ true) same in_age))),
          omega (arith, ap length e, rounds-mark_object age sizes content n a popped lt),
        )

    string_done :
        (t : HeapMarker) (a d b : ℕ)
        → content a ≡ string_value d
        → (check_age (age a) start.max_age ≡ true → t.marked a ≡ true)
        → (check_age (age d) start.max_age ≡ true → t.marked d ≡ true)
        → Memᴰ b (targets content (string_ref a))
        → check_age (age b) start.max_age ≡ true
        → t.marked b ≡ true
    string_done t a d b e text characters m in_age = elim (Memᴰ.cases_cons m) [
      | inl same ↦ moved a same text
      | inr rest ↦
          moved d (Memᴰ.eq_of_singleton (subst (λ x. Memᴰ b (shared_data x)) e rest)) characters
    ]
      where
        moved :
            (c : ℕ)
            → b ≡ c
            → (check_age (age c) start.max_age ≡ true → t.marked c ≡ true)
            → t.marked b ≡ true
        moved c same k =
            subst (λ x. t.marked x ≡ true) (sym same)
              (k (subst (λ x. check_age (age x) start.max_age ≡ true) same in_age))

    -- One round visits the value at the top of the stack.
    visit_ref-Inv :
        (s : HeapMarker) (v : Ref) (rest : List Ref)
        → s.mark_stack ≡ v ∷ rest
        → IsValue content n v
        → Inv age sizes content start [] s
        → Inv age sizes content start [] (visit_ref age sizes content v rest s)
          × (suc (rounds age sizes content n (visit_ref age sizes content v rest s))
              ≡ rounds age sizes content n s)
    unfolding visit_ref
    visit_ref-Inv s plain rest e typed h = (
      Inv-drop age sizes content start (record s { mark_stack = rest }) plain
          (Inv-pop age sizes content start s plain rest e h) (λ a m. absurd (Memᴰ.not-nil m)),
      omega (arith, ap length e),
    )
    visit_ref-Inv s (adt_ref a) rest e typed h =
        visit_object s (adt_ref a) a rest e (Memᴰ.head refl) (λ b m. Memᴰ.eq_of_singleton m) typed.0
          h
    visit_ref-Inv s (array_ref a) rest e typed h =
        visit_object s (array_ref a) a rest e (Memᴰ.head refl) (λ b m. Memᴰ.eq_of_singleton m)
          typed.0 h
    visit_ref-Inv s (string_ref a) rest e (lt, d, ea, lt_d, k, ed) h =
        let v : Ref = string_ref a in
        let popped : HeapMarker = record s { mark_stack = rest } in
        let both : HeapMarker =
          mark_object sizes content (heap_marker age) d
            (mark_object sizes content (heap_marker age) a popped) in
        let shared = λ (b : ℕ) (c : Content) (ec : c ≡ string_value b).
          subst (λ x. Memᴰ b (shared_data x)) (sym ec) (Memᴰ.head refl) in
        let f = top s v rest e h in
        let one =
          mark_object-Marks age sizes content start (v ∷ []) popped v a
            (Inv-pop age sizes content start s v rest e h) f (Memᴰ.head refl) in
        let two =
          mark_object-Marks age sizes content start (v ∷ [])
            (mark_object sizes content (heap_marker age) a popped) v d one.inv f
            (Memᴰ.tail (shared d (content a) ea)) in
        let done =
          λ (b : ℕ) (m : Memᴰ b (targets content v))
              (in_age : check_age (age b) start.max_age ≡ true).
            string_done both a d b ea (λ x. two.grows a (one.marks x)) two.marks m in_age in
        subst
          (λ t.
            Inv age sizes content start [] t
            × (suc (rounds age sizes content n t) ≡ rounds age sizes content n s))
          (sym (visit_string age sizes content a d k popped ea ed))
          (
            Inv-drop age sizes content start both v two.inv done,
            omega (
              arith,
              ap length e,
              rounds-mark_object age sizes content n a popped lt,
              rounds-mark_object age sizes content n d
                  (mark_object sizes content (heap_marker age) a popped) lt_d,
            ),
          )

    -- The loop ends with nothing left on the stack.
    trace-ends :
        (fuel : ℕ) (s : HeapMarker)
        → IsHeap content n
        → ((v : Ref) → Memᴰ v start.mark_stack → IsValue content n v)
        → rounds age sizes content n s ≤ fuel
        → Inv age sizes content start [] s
        → (t : HeapMarker) × (trace age sizes content fuel s ≡ ok t)
          × Inv age sizes content start [] t
          × (t.mark_stack ≡ [])
    unfolding trace
    trace-ends zero s heap typed enough h = elim (List-cases s.mark_stack) [
      | inl empty ↦ (s, rw empty refl, h, empty)
      | inr (v, rest, e) ↦ absurd (omega (arith, ap length e))
    ]
    trace-ends (suc fuel) s heap typed enough h = elim (List-cases s.mark_stack) [
      | inl empty ↦ (s, rw empty refl, h, empty)
      | inr (v, rest, e) ↦
          let value =
            found-IsValue content age start.marked start.max_age start.mark_stack n heap typed v
              (top s v rest e h) in
          let (inv, less) = visit_ref-Inv s v rest e value h in
          let (t, ends, kept, empty) =
            trace-ends fuel (visit_ref age sizes content v rest s) heap typed (omega arith) inv in
          (t, rw (e, trace) ends, kept, empty)
    ]

  -- An invariant at its end: the marks are those from before and those of the objects found.
  trace-marks :
      (start t : HeapMarker) (n : ℕ)
      → IsHeap content n
      → ((v : Ref) → Memᴰ v start.mark_stack → IsValue content n v)
      → Inv age sizes content start [] t
      → t.mark_stack ≡ []
      → (a : ℕ)
      → (t.marked a ≡ true) ↔ (
          (start.marked a ≡ true)
          ⊎ IsAlive content age start.marked start.max_age start.mark_stack a)
  trace-marks start t n heap typed h empty a =
      (h.sound a, ⊎_elim (h.kept a) (λ (v, f, m, fresh). all v f a m fresh.1))
    where
      settled : (v : Ref) → Waits age sizes content start [] t v → Done age sizes content start t v
      settled v (inl (inl none)) = absurd (Memᴰ.not-nil none)
      settled v (inl (inr none)) = absurd (Memᴰ.not-nil (subst (Memᴰ v) empty none))
      settled v (inr done) = done

      all :
          (v : Ref)
          → Found content age start.marked start.max_age start.mark_stack v
          → Done age sizes content start t v
      all v (root m) = settled v (h.rooted v m)
      all w (child {v} b f m fresh new) = elim (h.closed b (all v f b m fresh.1)) [
        | inl old ↦ absurd (cc (old, fresh.0))
        | inr waits ↦ settled w (waits w new)
      ]

  -- When the objects below an address hold only values below it, the loop ends with as many rounds
  -- as there are values on the stack and in objects that are not marked, and it marks exactly the
  -- objects that can be found from the stack through objects that were not marked and are young
  -- enough; earlier marks stay.
  pub trace_lem :
      (s : HeapMarker) (n fuel : ℕ)
      → IsHeap content n
      → ((v : Ref) → Memᴰ v s.mark_stack → IsValue content n v)
      → rounds age sizes content n s ≤ fuel
      → (t : HeapMarker) × (trace age sizes content fuel s ≡ ok t)
        × ((a : ℕ)
            → (t.marked a ≡ true)
              ↔ ((s.marked a ≡ true) ⊎ IsAlive content age s.marked s.max_age s.mark_stack a))
  trace_lem s n fuel heap typed enough =
      let (t, ends, inv, empty) =
        trace-ends s n fuel s heap typed enough (Inv-start age sizes content s) in
      (t, ends, trace-marks s t n heap typed inv empty)
