-- ===== src/Gc/Tests.antt =====
-- Source/GC at concrete heaps.
use fptl.Prelude.{
  ℕ, zero, suc, ◌≤◌, ◌≡◌, ◌≢◌, refl, sym, subst, ◌↔◌, ◌⊎◌, inl, inr, Bool, true, false, some,
  get_elem?, List, [], ◌∷◌, ◌++◌, Result, ok, arith,
}
use mathlib.Core.List.{Memᴰ}
use mathlib.Core.List.Memᴰ
use fptl.Gc.{
  Age, old, check_age, Ref, plain, adt_ref, array_ref, string_ref, Content, value_array,
  array_value, string_value, string_data, Sizes, elements, size_of, add_children, mark_object,
  mark_data, mark, set_flag, add_root, root_marker, mark_once, heap_marker, HeapMarker, visit_ref,
  trace,
}
use fptl.Gc.Reach.{IsValue, IsHeap, IsAlive}
use fptl.Gc.Ends.{trace_lem}
use fptl.Gc.Collector.{
  Collector, GcJob, threshold, new_config, new_collector, register_heap, heap_at, update_heap,
  register_object, reset, heap_objects, heap_sizes, new_marker, mark_roots, set_all, split_marked,
  sweep, scan_roots, new_job, run_gc, check_free_space, alloc, collect_job, next_job, collect,
}
use fptl.Gc.Runs.{Runs, begin, add_heap, allocate, Answers, runs_lem}
use fptl.Gc.Sweep.{Swept}
use fptl.Gc.Job.{IsKept, collect_lem}
use fptl.Gc.Stops.{
  Phase, halted, asking, scanning, Threads, Step, request, notice, halt, lock, ask, scan, Reached,
  next,
}
use fptl.Gc.Stops
use fptl.Gc.Stops.Counts.{is_halted}
use fptl.Gc.Stops.Safety.{scan_alone, scan_comes}

abbrev platform : Sizes
platform = record {
  of_value = 16;
  of_value_array = 16;
  of_array_value = 80;
  of_string_value = 40;
  of_string_data = 32;
}

-- A pair of a text and an array of itself; the object 4 is in no other.
abbrev sample : ℕ → Content
sample zero = value_array (string_ref 1 ∷ array_ref 3 ∷ [])
sample (suc zero) = string_value 2
sample (suc (suc zero)) = string_data 3
sample (suc (suc (suc zero))) = array_value (adt_ref 0 ∷ plain ∷ [])
sample (suc (suc (suc (suc n)))) = value_array (adt_ref 0 ∷ [])

abbrev all_old : ℕ → Age
all_old a = old

abbrev no_marks : ℕ → Bool
no_marks a = false

abbrev sample_marker : HeapMarker
sample_marker = record {
  marked = no_marks;
  alive_size = 0;
  mark_stack = adt_ref 0 ∷ [];
  max_age = old;
}

sample-IsValue : IsValue sample 5 (adt_ref 0)
sample-IsValue = (omega arith, string_ref 1 ∷ array_ref 3 ∷ [], refl)

-- The objects below 5 hold values below 5.
sample-IsHeap : IsHeap sample 5
unfolding elements
sample-IsHeap zero v lt m = elim (Memᴰ.cases_cons m) [
  | inl e ↦ subst (IsValue sample 5) (sym e) (omega arith, 2, refl, omega arith, 3, refl)
  | inr rest ↦
      subst (IsValue sample 5) (sym (Memᴰ.eq_of_singleton rest))
        (omega arith, adt_ref 0 ∷ plain ∷ [], refl)
]
sample-IsHeap (suc zero) v lt m = absurd (Memᴰ.not-nil m)
sample-IsHeap (suc (suc zero)) v lt m = absurd (Memᴰ.not-nil m)
sample-IsHeap (suc (suc (suc zero))) v lt m = elim (Memᴰ.cases_cons m) [
  | inl e ↦ subst (IsValue sample 5) (sym e) sample-IsValue
  | inr rest ↦ subst (IsValue sample 5) (sym (Memᴰ.eq_of_singleton rest)) tt
]
sample-IsHeap (suc (suc (suc (suc n)))) v lt m =
    subst (IsValue sample 5) (sym (Memᴰ.eq_of_singleton m)) sample-IsValue

abbrev marks_of : Result HeapMarker → Bool × Bool
marks_of (ok t) = (t.marked 2, t.marked 4)
marks_of _ = (false, true)

first_rounds : marks_of (trace all_old platform sample 6 sample_marker) ≡ (true, false)
unfolding trace visit_ref mark mark_object mark_data heap_marker mark_once check_age set_flag
    add_children elements
first_rounds = refl

sample_roots-typed : (v : Ref) → Memᴰ v (adt_ref 0 ∷ []) → IsValue sample 5 v
sample_roots-typed v m = subst (IsValue sample 5) (sym (Memᴰ.eq_of_singleton m)) sample-IsValue

trace_lem_example :
    (t : HeapMarker) × (trace all_old platform sample 6 sample_marker ≡ ok t)
    × ((a : ℕ)
        → (t.marked a ≡ true)
          ↔ ((false ≡ true) ⊎ IsAlive sample all_old no_marks old (adt_ref 0 ∷ []) a))
unfolding elements
trace_lem_example =
    trace_lem all_old platform sample sample_marker 5 6 sample-IsHeap sample_roots-typed
      (omega arith)

-- A program with a full collection of the sample ahead
abbrev sample_collector : Collector
sample_collector = record {
  config = record {
    enabled = true;
    young_gen_size = 100;
    old_gen_size = 500;
    old_gen_threshold = 0;
  };
  age = all_old;
  marked = no_marks;
  content = sample;
  heaps = [];
  queue = [];
  allocated = 0 ∷ 1 ∷ 2 ∷ 3 ∷ 4 ∷ [];
  old_gen_size = 200;
  collect_old = true;
  disposed = [];
}

abbrev disposed_of : Result Collector → List ℕ
disposed_of (ok d) = d.disposed
disposed_of _ = []

collected_sample :
    disposed_of (collect platform 6 (run_gc platform (adt_ref 0 ∷ []) sample_collector)) ≡ 4 ∷ []
unfolding collect next_job collect_job run_gc new_job scan_roots new_marker mark_roots heap_objects
    sweep split_marked set_all trace visit_ref mark mark_object mark_data root_marker add_root
    heap_marker mark_once check_age set_flag add_children elements size_of heap_sizes reset
collected_sample = refl

abbrev one_heap : Collector
one_heap = register_heap (new_collector new_config)

-- A pair at address 0, while a number is on the stack
abbrev with_pair : Collector
with_pair = alloc platform (plain ∷ []) 0 0 (value_array (plain ∷ plain ∷ [])) one_heap

abbrev settled : Collector → Collector
settled c = elim (collect platform 0 c) [ ok d ↦ d | _ ↦ c ]

one_allocation : Runs platform new_config (settled with_pair)
unfolding alloc check_free_space register_heap new_collector new_config threshold heap_at
    update_heap register_object collect next_job set_flag size_of heap_objects
one_allocation =
    allocate (plain ∷ []) 0 0 0 (value_array (plain ∷ plain ∷ [])) (add_heap begin)
      (λ m. Memᴰ.not-nil m) refl

runs_lem_example :
    ((settled with_pair).disposed ≡ [])
    × ((settled with_pair).old_gen_size ≡ 0)
    × ((settled with_pair).collect_old ≡ false)
    × ((values : List Ref)
        → Answers platform new_config (run_gc platform values (settled with_pair)))
    × ((values : List Ref) (i a : ℕ) (object : Content)
        → ¬ Memᴰ a (heap_objects (settled with_pair).heaps ++ (settled with_pair).allocated)
        → Answers platform new_config (alloc platform values i a object (settled with_pair)))
runs_lem_example = runs_lem platform new_config (settled with_pair) one_allocation

-- Two requests before the first round. The object 1 is old and keeps a mark from the second round,
-- so that the third does not look into it: it deletes the object 0, which the values reach through
-- 2 and 1.
abbrev pair_of_pairs : Collector
pair_of_pairs =
    let roots : List Ref = adt_ref 1 ∷ [] in
    let leaf = alloc platform roots 0 0 (value_array (plain ∷ [])) one_heap in
    alloc platform roots 0 1 (value_array (adt_ref 0 ∷ [])) leaf

abbrev after : Result Collector → Collector
after (ok d) = d
after _ = one_heap

abbrev overlapped : Collector
overlapped =
    let roots : List Ref = adt_ref 1 ∷ [] in
    let twice = run_gc platform roots (run_gc platform roots pair_of_pairs) in
    let first = after (collect platform 9 twice) in
    let second = after (collect platform 9 first) in
    alloc platform (adt_ref 2 ∷ []) 0 2 (value_array (adt_ref 1 ∷ [])) second

overlapped-deletes :
    disposed_of (collect platform 9 (run_gc platform (adt_ref 2 ∷ []) overlapped)) ≡ 0 ∷ []
unfolding alloc check_free_space register_heap new_collector new_config threshold heap_at
    update_heap register_object collect next_job set_flag size_of heap_objects collect_job run_gc
    new_job scan_roots new_marker mark_roots sweep split_marked set_all trace visit_ref mark
    mark_object mark_data root_marker add_root heap_marker mark_once check_age add_children elements
    heap_sizes reset
overlapped-deletes = refl

-- The third round, of a full job
abbrev third : Collector
third = run_gc platform (adt_ref 2 ∷ []) overlapped

abbrev third_job : GcJob
third_job = new_job platform (adt_ref 2 ∷ []) overlapped

third-waits : third.queue ≡ third_job ∷ []
unfolding alloc check_free_space register_heap new_collector new_config threshold heap_at
    update_heap register_object collect next_job set_flag size_of heap_objects collect_job run_gc
    new_job scan_roots new_marker mark_roots sweep split_marked set_all trace visit_ref mark
    mark_object mark_data root_marker add_root heap_marker mark_once check_age add_children elements
    heap_sizes reset
third-waits = refl

third-IsHeap : IsHeap third.content 3
unfolding alloc check_free_space register_heap new_collector new_config threshold heap_at
    update_heap register_object collect next_job set_flag size_of heap_objects collect_job run_gc
    new_job scan_roots new_marker mark_roots sweep split_marked set_all trace visit_ref mark
    mark_object mark_data root_marker add_root heap_marker mark_once check_age add_children elements
    heap_sizes reset
third-IsHeap zero v lt m = subst (IsValue third.content 3) (sym (Memᴰ.eq_of_singleton m)) tt
third-IsHeap (suc zero) v lt m =
    subst (IsValue third.content 3) (sym (Memᴰ.eq_of_singleton m)) (omega arith, plain ∷ [], refl)
third-IsHeap (suc (suc zero)) v lt m =
    subst (IsValue third.content 3) (sym (Memᴰ.eq_of_singleton m))
      (omega arith, adt_ref 0 ∷ [], refl)
third-IsHeap (suc (suc (suc a))) v lt m = absurd (omega arith)

third_stack-typed : (v : Ref) → Memᴰ v third_job.marker.mark_stack → IsValue third.content 3 v
unfolding alloc check_free_space register_heap new_collector new_config threshold heap_at
    update_heap register_object collect next_job set_flag size_of heap_objects collect_job run_gc
    new_job scan_roots new_marker mark_roots sweep split_marked set_all trace visit_ref mark
    mark_object mark_data root_marker add_root heap_marker mark_once check_age add_children elements
    heap_sizes reset
third_stack-typed v m =
    subst (IsValue third.content 3) (sym (Memᴰ.eq_of_singleton m))
      (omega arith, adt_ref 0 ∷ [], refl)

collect_lem_example :
    (bound : ℕ) × ((fuel : ℕ)
      → bound ≤ fuel
      → (d : Collector) × (collect platform fuel third ≡ ok d)
        × (d.queue ≡ [])
        × Swept third d third_job (IsKept third third_job))
collect_lem_example =
    collect_lem platform third third_job [] 3 third-waits third-IsHeap third_stack-typed

-- Two threads, of which the second stops for the first.
abbrev both_stopped : Threads
both_stopped = record {
  phases = asking ∷ halted false ∷ [];
  stop = true;
  stopped = 2;
  locked = true;
}

both_stopped-Reached : Reached 2 both_stopped
both_stopped-Reached =
    next 1
      (next 1
        (next 0 (next 0 (next 0 Reached.begin (Stops.Step.request refl)) (lock refl refl))
          (ask refl))
        (notice false refl refl))
      (halt false refl)

others-halted :
    (j : ℕ) (p : Phase) → j ≢ 0 → get_elem? both_stopped.phases j ≡ some p → is_halted p ≡ true
others-halted zero p h e = absurd (h refl)
others-halted (suc zero) p h e = ground arith
others-halted (suc (suc j)) p h e = ground arith

scan_comes_example : (t : Threads) × Step 0 both_stopped t × (get_elem? t.phases 0 ≡ some scanning)
scan_comes_example = scan_comes 2 both_stopped 0 both_stopped-Reached refl others-halted

abbrev first_scans : Threads
first_scans = record {
  phases = scanning ∷ halted false ∷ [];
  stop = true;
  stopped = 1;
  locked = true;
}

scan_alone_example : is_halted (halted false) ≡ true
scan_alone_example =
    scan_alone 2 first_scans 0 1 (halted false) (next 0 both_stopped-Reached (scan refl refl)) refl
      (omega arith) refl
