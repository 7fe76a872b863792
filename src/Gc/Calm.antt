-- ===== src/Gc/Calm.antt =====
-- Source/GC/GarbageCollector.cpp: markers that find every young object marked already.
use fptl.Prelude.{
  ℕ, zero, suc, ◌<◌, ◌≡◌, refl, ◌⊎◌, inl, inr, Bool, true, false, Bool-cases, List, [], ◌∷◌, length,
  ok, timeout, arith, subst, sym, ap,
}
use mathlib.Core.List.{Memᴰ}
use mathlib.Core.List.Memᴰ
use fptl.Gc.{
  Age, young, old, check_age, Ref, plain, adt_ref, array_ref, string_ref, Content, value_array,
  array_value, string_value, string_data, Sizes, elements, size_of, add_children, mark_object,
  mark_data, mark, RootMarker, root_marker, add_root, HeapMarker, heap_marker, mark_once, visit_ref,
  trace,
}
use fptl.Gc.Collector.{mark_roots, split_marked}

module _ (age : ℕ → Age) (marked : ℕ → Bool) where
  -- Every object is marked or old.
  abbrev pub IsQuiet : Type 0
  IsQuiet = (a : ℕ) → (marked a ≡ true) ⊎ (age a ≡ old)

  pub marked_of_young : (a : ℕ) → IsQuiet → check_age (age a) young ≡ true → marked a ≡ true
  unfolding check_age
  marked_of_young a quiet e = elim (quiet a) [ inl m ↦ m | inr o ↦ absurd (cc (o, e)) ]

  -- The roots that are found are marked, and no old object is among them.
  pub record IsCalmRoots (m : RootMarker) : Type 0 where
    pub limit : m.max_age ≡ young
    pub roots : (p : ℕ × ℕ) → Memᴰ p m.roots → marked p.0 ≡ true

  module _ (quiet : IsQuiet) (sizes : Sizes) (content : ℕ → Content) where
    add_root-IsCalmRoots :
        (a size : ℕ) (m : RootMarker) → IsCalmRoots m → IsCalmRoots (add_root age a size m).1
    unfolding add_root
    add_root-IsCalmRoots a size m h = elim (Bool-cases (check_age (age a) m.max_age)) [
      | inl in_age ↦ rw in_age (record {
        limit = h.limit;
        roots = λ p new. elim (Memᴰ.append_cases m.roots new) [
          | inl before ↦ h.roots p before
          | inr last ↦
              let same = ap (λ (q : ℕ × ℕ). q.0) (Memᴰ.eq_of_singleton last) in
              subst (λ x. marked x ≡ true) (sym same)
                (marked_of_young a quiet (subst (λ x. check_age (age a) x ≡ true) h.limit in_age))
        ];
      })
      | inr older ↦ rw older h
    ]

    add_children-IsCalmRoots :
        (vs : List Ref) (m : RootMarker)
        → IsCalmRoots m
        → IsCalmRoots (add_children sizes content (root_marker age) vs m)
    unfolding add_children root_marker
    add_children-IsCalmRoots [] m h = h
    add_children-IsCalmRoots (v ∷ vs) m h =
        add_children-IsCalmRoots vs (record m { mark_stack = v ∷ m.mark_stack })
          (record { limit = h.limit; roots = h.roots })

    mark_object-IsCalmRoots :
        (a : ℕ) (m : RootMarker)
        → IsCalmRoots m
        → IsCalmRoots (mark_object sizes content (root_marker age) a m)
    unfolding mark_object root_marker
    mark_object-IsCalmRoots a m h =
        let size = size_of sizes content (content a) in
        let next = add_root-IsCalmRoots a size m h in
        elim (Bool-cases (add_root age a size m).0) [
          | inl alive ↦
              rw alive
                (add_children-IsCalmRoots (elements (content a)) (add_root age a size m).1 next)
          | inr dead ↦ rw dead next
        ]

    mark_data-IsCalmRoots :
        (c : Content) (m : RootMarker)
        → IsCalmRoots m
        → IsCalmRoots (mark_data sizes content (root_marker age) c m)
    unfolding mark_data root_marker
    mark_data-IsCalmRoots (string_value d) m h =
        add_root-IsCalmRoots d (size_of sizes content (content d)) m h
    mark_data-IsCalmRoots (value_array vs) m h = h
    mark_data-IsCalmRoots (array_value vs) m h = h
    mark_data-IsCalmRoots (string_data n) m h = h

    pub mark-IsCalmRoots :
        (v : Ref) (m : RootMarker)
        → IsCalmRoots m
        → IsCalmRoots (mark sizes content (root_marker age) v m)
    unfolding mark
    mark-IsCalmRoots plain m h = h
    mark-IsCalmRoots (adt_ref a) m h = mark_object-IsCalmRoots a m h
    mark-IsCalmRoots (array_ref a) m h = mark_object-IsCalmRoots a m h
    mark-IsCalmRoots (string_ref a) m h =
        mark_data-IsCalmRoots (content a)
          ((root_marker age).mark_alive a (size_of sizes content (content a)) m).1
          (unfold root_marker in (add_root-IsCalmRoots a (size_of sizes content (content a)) m h))

  -- Roots that are marked count for nothing.
  pub mark_roots-marked :
      (roots : List (ℕ × ℕ)) (alive : ℕ)
      → ((p : ℕ × ℕ) → Memᴰ p roots → marked p.0 ≡ true)
      → mark_roots roots (marked, alive) ≡ (marked, alive)
  unfolding mark_roots
  mark_roots-marked [] alive h = refl
  mark_roots-marked ((a, size) ∷ roots) alive h =
      rw (h (a, size) (Memᴰ.head refl)) (mark_roots-marked roots alive (λ p m. h p (Memᴰ.tail m)))

  pub split_marked-all :
      (objects : List ℕ)
      → ((a : ℕ) → Memᴰ a objects → marked a ≡ true)
      → split_marked marked objects ≡ (objects, [])
  unfolding split_marked
  split_marked-all [] h = refl
  split_marked-all (a ∷ objects) h =
      rw (split_marked-all objects (λ b m. h b (Memᴰ.tail m)), h a (Memᴰ.head refl)) refl

module _ (age : ℕ → Age) (sizes : Sizes) (content : ℕ → Content) where
  -- A value whose objects are marked or too old changes nothing.
  mark_once-IsQuiet :
      (a size : ℕ) (m : HeapMarker)
      → IsQuiet age m.marked
      → m.max_age ≡ young
      → mark_once age a size m ≡ (false, m)
  unfolding mark_once check_age
  mark_once-IsQuiet a size m quiet e = elim (quiet a) [
    | inl marked ↦ rw marked refl
    | inr older ↦ elim (Bool-cases (m.marked a)) [
      | inl marked ↦ rw marked refl
      | inr fresh ↦ rw (fresh, older, e) refl
    ]
  ]

  mark-IsQuiet :
      (v : Ref) (m : HeapMarker)
      → IsQuiet age m.marked
      → m.max_age ≡ young
      → mark sizes content (heap_marker age) v m ≡ m
  unfolding mark mark_object mark_data heap_marker
  mark-IsQuiet plain m quiet e = refl
  mark-IsQuiet (adt_ref a) m quiet e =
      rw (mark_once-IsQuiet a (size_of sizes content (content a)) m quiet e) refl
  mark-IsQuiet (array_ref a) m quiet e =
      rw (mark_once-IsQuiet a (size_of sizes content (content a)) m quiet e) refl
  mark-IsQuiet (string_ref a) m quiet e =
      rw (mark_once-IsQuiet a (size_of sizes content (content a)) m quiet e) (again (content a))
    where
      again : (c : Content) → mark_data sizes content (heap_marker age) c m ≡ m
      again (string_value d) =
          ap (λ (r : Bool × HeapMarker). r.1)
            (mark_once-IsQuiet d (size_of sizes content (content d)) m quiet e)
      again (value_array vs) = refl
      again (array_value vs) = refl
      again (string_data n) = refl

  -- The loop only empties its stack.
  pub trace-IsQuiet :
      (fuel : ℕ) (stack : List Ref) (m : HeapMarker)
      → IsQuiet age m.marked
      → m.max_age ≡ young
      → ((trace age sizes content fuel (record m { mark_stack = stack }) ≡ timeout)
          × (fuel < length stack))
        ⊎ (trace age sizes content fuel (record m { mark_stack = stack })
            ≡ ok (record m { mark_stack = [] }))
  unfolding trace visit_ref
  trace-IsQuiet zero [] m quiet e = inr refl
  trace-IsQuiet zero (v ∷ rest) m quiet e = inl (refl, omega arith)
  trace-IsQuiet (suc n) [] m quiet e = inr refl
  trace-IsQuiet (suc n) (v ∷ rest) m quiet e =
      rw (mark-IsQuiet v (record m { mark_stack = rest }) quiet e)
        (elim (trace-IsQuiet n rest m quiet e) [
          | inl (ends, less) ↦ inl (ends, omega arith)
          | inr done ↦ inr done
        ])
