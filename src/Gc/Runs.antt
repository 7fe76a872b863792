-- ===== src/Gc/Runs.antt =====
-- Source/GC/GarbageCollector.cpp: allocations and collections one after the other, where the
-- collector's thread ends each job before the next request.
use fptl.Prelude.{
  ℕ, ◌≤◌, ◌≡◌, ◌∙◌, refl, inl, inr, false, List, [], ◌∷◌, ◌++◌, Result, ok, arith, subst, sym, ap,
}
use mathlib.Core.List.{Memᴰ}
use mathlib.Core.List.Memᴰ
use fptl.Gc.{Ref, Content, Sizes}
use fptl.Gc.Collector.{
  Collector, GcConfig, new_collector, register_heap, CollectedHeap, heap_objects, run_gc, alloc,
  collect,
}
use fptl.Gc.Rounds.{IsCalm, run_gc-IsCalm, collect-IsCalm, alloc-IsCalm}

-- The states that are reached from a new collector by registering heaps, by allocations at
-- addresses that are not in use and by requests for a collection, each with the round of the
-- collector's thread that follows it.
pub data Runs (sizes : Sizes) (config : GcConfig) : Collector → Type 0 where
  begin : Runs sizes config (new_collector config)
  add_heap : {c : Collector} → Runs sizes config c → Runs sizes config (register_heap c)
  allocate :
      {c d : Collector} (values : List Ref) (i a fuel : ℕ) (object : Content)
      → Runs sizes config c
      → ¬ Memᴰ a (heap_objects c.heaps ++ c.allocated)
      → collect sizes fuel (alloc sizes values i a object c) ≡ ok d
      → Runs sizes config d
  request :
      {c d : Collector} (values : List Ref) (fuel : ℕ)
      → Runs sizes config c
      → collect sizes fuel (run_gc sizes values c) ≡ ok d
      → Runs sizes config d

heap_objects-append :
    (heaps : List CollectedHeap) (n : ℕ)
    → heap_objects (heaps ++ record { allocated = []; allocated_size = 0; max_heap_size = n } ∷ [])
      ≡ heap_objects heaps
unfolding heap_objects
heap_objects-append [] n = refl
heap_objects-append (h ∷ heaps) n = ap (λ l. h.allocated ++ l) (heap_objects-append heaps n)

new_collector-IsCalm : (config : GcConfig) → IsCalm (new_collector config)
unfolding new_collector heap_objects
new_collector-IsCalm config = record {
  quiet = λ a. inl refl;
  young_marked = λ a m. refl;
  none_old = refl;
  no_full = refl;
  none_disposed = refl;
  waits = inl refl;
}

register_heap-IsCalm : (c : Collector) → IsCalm c → c.queue ≡ [] → IsCalm (register_heap c)
unfolding register_heap
register_heap-IsCalm c h empty = record {
  quiet = h.quiet;
  young_marked = λ a m.
      h.young_marked a (subst (Memᴰ a) (heap_objects-append c.heaps c.config.young_gen_size) m);
  none_old = h.none_old;
  no_full = h.no_full;
  none_disposed = h.none_disposed;
  waits = inl empty;
}

module _ (sizes : Sizes) (config : GcConfig) where
  collected-IsCalm :
      (fuel : ℕ) (c d : Collector)
      → IsCalm c
      → collect sizes fuel c ≡ ok d
      → IsCalm d × (d.queue ≡ [])
  collected-IsCalm fuel c d h e = elim ((collect-IsCalm sizes c h).1 fuel) [
    | inl (late, less) ↦ absurd (cc (late, e))
    | inr (t, ends, calm, empty) ↦
        subst (λ x. IsCalm x × (x.queue ≡ [])) (ok-injective (sym ends ∙ e)) (calm, empty)
  ]
    where
      collector_of : Result Collector → Collector
      collector_of (ok x) = x
      collector_of _ = c

      ok-injective : {x y : Collector} → ok x ≡ ok y → x ≡ y
      ok-injective q = ap collector_of q

  runs-IsCalm : (c : Collector) → Runs sizes config c → IsCalm c × (c.queue ≡ [])
  unfolding new_collector register_heap
  runs-IsCalm c begin = (new_collector-IsCalm config, refl)
  runs-IsCalm c (add_heap {c = b} r) =
      let (h, empty) = runs-IsCalm b r in (register_heap-IsCalm b h empty, empty)
  runs-IsCalm c (allocate {c = b} values i a fuel object r fresh e) =
      let (h, empty) = runs-IsCalm b r in
      collected-IsCalm fuel (alloc sizes values i a object b) c
        (alloc-IsCalm sizes values i a object b (λ m. fresh (Memᴰ.append_left b.allocated m)) h
          empty)
        e
  runs-IsCalm c (request {c = b} values fuel r e) =
      let (h, empty) = runs-IsCalm b r in
      collected-IsCalm fuel (run_gc sizes values b) c (run_gc-IsCalm sizes values b h empty) e

  -- The collector's round ends from some fuel on.
  abbrev pub Answers : Collector → Type 0
  Answers c =
      (bound : ℕ) × ((fuel : ℕ) → bound ≤ fuel → (d : Collector) × (collect sizes fuel c ≡ ok d))

  calm-Answers : (c : Collector) → IsCalm c → Answers c
  calm-Answers c h =
      let (bound, ends) = collect-IsCalm sizes c h in
      (
        bound,
        λ fuel enough. elim (ends fuel) [
          | inl (late, less) ↦ absurd (omega arith)
          | inr (d, e, _, _) ↦ (d, e)
        ],
      )

  -- As long as the collector's thread ends each job before the next request, every round of it ends,
  -- for requests and for allocations at addresses that are not in use; no object is ever deleted,
  -- the old generation counts as empty and no full collection is asked for.
  pub runs_lem :
      (c : Collector)
      → Runs sizes config c
      → (c.disposed ≡ [])
        × (c.old_gen_size ≡ 0)
        × (c.collect_old ≡ false)
        × ((values : List Ref) → Answers (run_gc sizes values c))
        × ((values : List Ref) (i a : ℕ) (object : Content)
            → ¬ Memᴰ a (heap_objects c.heaps ++ c.allocated)
            → Answers (alloc sizes values i a object c))
  runs_lem c r =
      let (h, empty) = runs-IsCalm c r in
      (
        h.none_disposed,
        h.none_old,
        h.no_full,
        λ values. calm-Answers (run_gc sizes values c) (run_gc-IsCalm sizes values c h empty),
        λ values i a object fresh. calm-Answers (alloc sizes values i a object c) (
            alloc-IsCalm sizes values i a object c (λ m. fresh (Memᴰ.append_left c.allocated m)) h
              empty),
      )
