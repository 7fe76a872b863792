-- ===== src/Gc/Marks.antt =====
-- Source/GC/GarbageCollector.cpp, HeapMarker: what `mark` does to the marks and to the mark stack.
use fptl.Prelude.{
  ℕ, ◌+◌, ◌≡◌, refl, ◌↔◌, ◌⊎◌, inl, inr, Bool, true, false, not, ◌&&◌, Bool-cases, List, [], ◌∷◌,
  arith,
}
use mathlib.Core.List.{Memᴰ}
use mathlib.Core.List.Memᴰ
use mathlib.Core.Logic.{⊎_elim}
use fptl.Gc.{
  Age, check_age, Ref, Content, Sizes, HeapMarker, elements, size_of, add_children, mark_object,
  set_flag, mark_once, heap_marker,
}

-- The children of an object on the stack, the last one first.
abbrev pub push_all : List Ref → List Ref → List Ref
push_all [] stack = stack
push_all (v ∷ vs) stack = push_all vs (v ∷ stack)

pub mem-push_all :
    (w : Ref) (vs stack : List Ref) → Memᴰ w (push_all vs stack) ↔ (Memᴰ w vs ⊎ Memᴰ w stack)
mem-push_all w [] stack = (inr, ⊎_elim (λ none. absurd (Memᴰ.not-nil none)) (λ m. m))
mem-push_all w (v ∷ vs) stack =
    let (forth, back) = mem-push_all w vs (v ∷ stack) in
    (
      λ m. elim (forth m) [
        | inl later ↦ inl (Memᴰ.tail later)
        | inr now ↦ elim (Memᴰ.cases_cons now) [ inl e ↦ inl (Memᴰ.head e) | inr old ↦ inr old ]
      ],
      ⊎_elim
          (λ new. elim (Memᴰ.cases_cons new) [
            | inl e ↦ back (inr (Memᴰ.head e))
            | inr later ↦ back (inl later)
          ])
          (λ old. back (inr (Memᴰ.tail old))),
    )

pub set_flag_iff :
    (a b : ℕ) (marks : ℕ → Bool) → (set_flag a true marks b ≡ true) ↔ ((b ≡ a) ⊎ (marks b ≡ true))
unfolding set_flag
set_flag_iff a b marks = ground arith

module _ (age : ℕ → Age) (sizes : Sizes) (content : ℕ → Content) where
  -- The marker after an object is marked for the first time.
  abbrev pub offered : ℕ → HeapMarker → HeapMarker
  offered a s = record {
    marked = set_flag a true s.marked;
    alive_size = s.alive_size + size_of sizes content (content a);
    mark_stack = push_all (elements (content a)) s.mark_stack;
    max_age = s.max_age;
  }

  add_children_lem :
      (vs : List Ref) (s : HeapMarker)
      → add_children sizes content (heap_marker age) vs s
        ≡ record s { mark_stack = push_all vs s.mark_stack }
  unfolding add_children heap_marker
  add_children_lem [] s = refl
  add_children_lem (v ∷ vs) s = add_children_lem vs (record s { mark_stack = v ∷ s.mark_stack })

  pub data Offer (a : ℕ) (s : HeapMarker) : Type 0 where
    first :
        s.marked a ≡ false
        → check_age (age a) s.max_age ≡ true
        → mark_object sizes content (heap_marker age) a s ≡ offered a s
        → Offer a s
    again :
        (s.marked a ≡ true) ⊎ (check_age (age a) s.max_age ≡ false)
        → mark_object sizes content (heap_marker age) a s ≡ s
        → Offer a s

  -- An object is marked and its children are pushed, or nothing happens.
  pub offer : (a : ℕ) (s : HeapMarker) → Offer a s
  unfolding mark_object heap_marker mark_once
  offer a s = elim (Bool-cases (s.marked a)) [
    | inl yes_marked ↦ again (inl yes_marked) (rw yes_marked refl)
    | inr no_mark ↦ elim (Bool-cases (check_age (age a) s.max_age)) [
      | inl in_age ↦ first no_mark in_age (
          rw (no_mark, in_age)
            (add_children_lem (elements (content a)) (record s {
              marked = set_flag a true s.marked;
              alive_size = s.alive_size + size_of sizes content (content a);
            })))
      | inr older ↦ again (inr older) (rw (no_mark, older) refl)
    ]
  ]

  -- Without children, marking and visiting are the same.
  pub mark_once-leaf :
      (a : ℕ) (s : HeapMarker)
      → elements (content a) ≡ []
      → (mark_once age a (size_of sizes content (content a)) s).1
        ≡ mark_object sizes content (heap_marker age) a s
  unfolding mark_object heap_marker mark_once add_children
  mark_once-leaf a s e = elim (Bool-cases (not (s.marked a) && check_age (age a) s.max_age)) [
    | inl yes_marked ↦ rw (yes_marked, e) refl
    | inr no_mark ↦ rw no_mark refl
  ]
