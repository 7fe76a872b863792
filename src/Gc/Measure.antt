-- ===== src/Gc/Measure.antt =====
-- Source/GC/GarbageCollector.cpp, HeapMarker::traceDataRecursively: how many rounds are left.
use fptl.Prelude.{
  ℕ, zero, suc, ◌+◌, ◌≤◌, ◌<◌, ◌≡◌, refl, sym, subst, ◌∙◌, ap, ◌⊎◌, ◌≢◌, inl, inr, Bool, true,
  false, if◌then◌else◌, List, [], ◌∷◌, length, arith,
}
use mathlib.Core.List.{Memᴰ}
use mathlib.Core.List.Memᴰ
use fptl.Gc.{
  Age, Ref, plain, adt_ref, array_ref, string_ref, Content, string_value, string_data, Sizes,
  HeapMarker, elements, size_of, mark_object, mark_data, mark, set_flag, heap_marker, mark_once,
}
use fptl.Gc.Reach.{shared_data, targets, IsValue, IsHeap, Found, root, child}
use fptl.Gc.Marks.{push_all, first, again, offer, mark_once-leaf}

length-push_all : (vs stack : List Ref) → length (push_all vs stack) ≡ length vs + length stack
length-push_all [] stack = omega arith
length-push_all (v ∷ vs) stack = omega (arith, length-push_all vs (v ∷ stack))

pub List-cases : (xs : List Ref) → (xs ≡ []) ⊎ ((x : Ref) × (rest : List Ref) × (xs ≡ x ∷ rest))
List-cases [] = inl refl
List-cases (x ∷ xs) = inr (x, xs, refl)

pub eq_or_ne : (a b : ℕ) → (a ≡ b) ⊎ (a ≢ b)
eq_or_ne a b = ground arith

module _ (content : ℕ → Content) where
  -- The children of the objects below an address that are not marked.
  abbrev pub pending : ℕ → (ℕ → Bool) → ℕ
  pending zero marks = 0
  pending (suc k) marks = (if marks k then 0 else length (elements (content k))) + pending k marks

  pending-other :
      (n a : ℕ) (marks : ℕ → Bool) → n ≤ a → pending n (set_flag a true marks) ≡ pending n marks
  unfolding set_flag
  pending-other zero a marks h = refl
  pending-other (suc n) a marks h = ground (arith, pending-other n a marks (omega arith))

  pending-set_flag :
      (n a : ℕ) (marks : ℕ → Bool)
      → a < n
      → marks a ≡ false
      → pending n (set_flag a true marks) + length (elements (content a)) ≡ pending n marks
  unfolding set_flag
  pending-set_flag zero a marks h e = absurd (omega arith)
  pending-set_flag (suc n) a marks h e = elim (eq_or_ne a n) [
    | inl same ↦ ground (arith, pending-other n a marks)
    | inr other ↦ ground (arith, pending-set_flag n a marks (omega arith) e)
  ]

  targets-lt : (n : ℕ) (v : Ref) (a : ℕ) → IsValue content n v → Memᴰ a (targets content v) → a < n
  targets-lt n plain a h m = absurd (Memᴰ.not-nil m)
  targets-lt n (adt_ref b) a h m = subst (λ x. x < n) (sym (Memᴰ.eq_of_singleton m)) h.0
  targets-lt n (array_ref b) a h m = subst (λ x. x < n) (sym (Memᴰ.eq_of_singleton m)) h.0
  targets-lt n (string_ref b) a (lt, d, e, lt_d, k, _) m = elim (Memᴰ.cases_cons m) [
    | inl same ↦ subst (λ x. x < n) (sym same) lt
    | inr shared ↦
        let last = Memᴰ.eq_of_singleton (subst (λ x. Memᴰ a (shared_data x)) e shared) in
        subst (λ x. x < n) (sym last) lt_d
  ]

  pub found-IsValue :
      (age : ℕ → Age) (marked : ℕ → Bool) (max : Age) (roots : List Ref) (n : ℕ)
      → IsHeap content n
      → ((v : Ref) → Memᴰ v roots → IsValue content n v)
      → (v : Ref) → Found content age marked max roots v
      → IsValue content n v
  found-IsValue age marked max roots n heap typed v (root m) = typed v m
  found-IsValue age marked max roots n heap typed w (child {v} a f m fresh new) =
      heap a w (targets-lt n v a (found-IsValue age marked max roots n heap typed v f) m) new

module _ (age : ℕ → Age) (sizes : Sizes) (content : ℕ → Content) where
  abbrev pub rounds : ℕ → HeapMarker → ℕ
  rounds n s = length s.mark_stack + pending content n s.marked

  -- A child comes on the stack once, with its object's first mark.
  pub rounds-mark_object :
      (n a : ℕ) (s : HeapMarker)
      → a < n
      → rounds n (mark_object sizes content (heap_marker age) a s) ≡ rounds n s
  rounds-mark_object n a s h = elim (offer age sizes content a s) [
    | first unmarked in_age e ↦ rw e (
        omega (
          arith,
          length-push_all (elements (content a)) s.mark_stack,
          pending-set_flag content n a s.marked h unmarked,
        ))
    | again why e ↦ rw e refl
  ]

  pub visit_string :
      (a d k : ℕ) (s : HeapMarker)
      → content a ≡ string_value d
      → content d ≡ string_data k
      → mark sizes content (heap_marker age) (string_ref a) s
        ≡ mark_object sizes content
            (heap_marker age)
            d
            (mark_object sizes content (heap_marker age) a s)
  unfolding mark mark_data heap_marker elements
  visit_string a d k s ea ed =
      let once : HeapMarker = (mark_once age a (size_of sizes content (content a)) s).1 in
      ap (λ c. mark_data sizes content (heap_marker age) c once) ea
      ∙ mark_once-leaf age sizes content d once (ap elements ed)
      ∙ ap (mark_object sizes content (heap_marker age) d)
          (mark_once-leaf age sizes content a s (ap elements ea))
