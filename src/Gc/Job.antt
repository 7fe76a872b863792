-- ===== src/Gc/Job.antt =====
-- Source/GC/GarbageCollector.cpp, collectorThreadLoop: a job from its marks to its sweep.
use fptl.Prelude.{ℕ, ◌≤◌, ◌≡◌, refl, subst, ap, ◌∙◌, ◌⊎◌, ◌↔◌, true, List, ◌∷◌, Result, ok, ◌>>=◌}
use mathlib.Core.List.{Memᴰ}
use fptl.Gc.{Ref, Sizes, HeapMarker}
use fptl.Gc.Reach.{IsValue, IsHeap, IsAlive}
use fptl.Gc.Ends.{trace_lem}
use fptl.Gc.Measure.{rounds}
use fptl.Gc.Collector.{Collector, GcJob, mark_roots, sweep, collect_job, next_job, collect}
use fptl.Gc.Sweep.{root_marks, mark_roots_lem, Swept, sweep-Swept}

-- What a job should keep: what bears a mark, what the roots point to, and what is found from the
-- children of the roots through objects that bear no mark and are young enough.
abbrev pub IsKept : Collector → GcJob → ℕ → Type 0
IsKept c job a =
    let marks = root_marks job.marker.roots c.marked in
    (marks a ≡ true) ⊎ IsAlive c.content c.age marks job.marker.max_age job.marker.mark_stack a

module _ (sizes : Sizes) where
  -- The marker with which the tracing of a job starts
  abbrev first_marker : Collector → GcJob → HeapMarker
  first_marker c job =
      let (marked, alive) = mark_roots job.marker.roots (c.marked, 0) in
      record {
        marked = marked;
        alive_size = alive;
        mark_stack = job.marker.mark_stack;
        max_age = job.marker.max_age;
      }

  -- When a job waits and the objects below an address hold only values below it, the round of the
  -- collector's thread ends from some fuel on and takes this job. It deletes exactly the objects of
  -- the job, and for a full job those of the old generation too, that bear no mark, that no root
  -- points to and that are not found from the children of the roots through unmarked objects that are
  -- young enough. It keeps the others, which are old then, and none of these objects has a mark left.
  pub collect_lem :
      (c : Collector) (job : GcJob) (rest : List GcJob) (n : ℕ)
      → c.queue ≡ job ∷ rest
      → IsHeap c.content n
      → ((v : Ref) → Memᴰ v job.marker.mark_stack → IsValue c.content n v)
      → (bound : ℕ) × ((fuel : ℕ)
          → bound ≤ fuel
          → (d : Collector) × (collect sizes fuel c ≡ ok d)
            × (d.queue ≡ rest)
            × Swept c d job (IsKept c job))
  unfolding collect next_job collect_job sweep
  collect_lem c job rest n waits heap typed =
      let s = first_marker c job in
      (
        rounds c.age sizes c.content n s,
        λ fuel enough.
            let (t, ends, marks) = trace_lem c.age sizes c.content s n fuel heap typed enough in
            let later : Collector = record c { queue = rest } in
            (
              sweep job t later,
              ap (λ q. next_job sizes fuel q c) waits
                  ∙ ap (λ (r : Result HeapMarker). r >>= λ m. ok (sweep job m later)) ends,
              refl,
              sweep-Swept c job rest t (IsKept c job) (
                  subst
                    (λ f.
                      (a : ℕ)
                      → (t.marked a ≡ true)
                        ↔ ((f a ≡ true) ⊎ IsAlive c.content c.age f s.max_age s.mark_stack a))
                    (λ i a. mark_roots_lem job.marker.roots c.marked 0 a i) marks),
            ),
      )
