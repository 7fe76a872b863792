-- ===== src/Gc/Rounds.antt =====
-- Source/GC/GarbageCollector.cpp: an invariant of the collector under requests, allocations and
-- rounds of its thread.
use fptl.Prelude.{
  ℕ, zero, suc, ◌+◌, ◌<◌, ◌≡◌, ◌≢◌, ◌∙◌, refl, ◌⊎◌, inl, inr, Bool, true, false, ltb, Bool-cases,
  List, [], ◌∷◌, ◌++◌, map, append-nil, length, ok, timeout, arith, subst, sym, ap,
}
use mathlib.Core.List.{Memᴰ}
use mathlib.Core.List.Memᴰ
use fptl.Gc.{Age, young, old, Ref, Content, Sizes, size_of, set_flag, RootMarker, HeapMarker}
use fptl.Gc.Marks.{set_flag_iff}
use fptl.Gc.Collector.{
  Collector, GcJob, CollectedHeap, heap_at, update_heap, register_object, reset, heap_objects,
  new_marker, set_all, sweep, scan_roots, new_job, run_gc, check_free_space, alloc, collect_job,
  next_job, collect,
}
use fptl.Gc.Calm.{
  IsQuiet, IsCalmRoots, mark-IsCalmRoots, mark_roots-marked, split_marked-all, trace-IsQuiet,
}

-- A job that frees nothing.
pub record IsCalmJob (c : Collector) (job : GcJob) : Type 0 where
  pub minor : job.full_gc ≡ false
  pub calm : IsCalmRoots c.age c.marked job.marker
  pub objects : (a : ℕ) → Memᴰ a job.allocated → c.marked a ≡ true
  pub apart : (a : ℕ) → Memᴰ a job.allocated → ¬ Memᴰ a (heap_objects c.heaps)

-- Nothing was freed, no object was counted as old, and at most one job waits.
pub record IsCalm (c : Collector) : Type 0 where
  pub quiet : IsQuiet c.age c.marked
  pub young_marked : (a : ℕ) → Memᴰ a (heap_objects c.heaps) → c.marked a ≡ true
  pub none_old : c.old_gen_size ≡ 0
  pub no_full : c.collect_old ≡ false
  pub none_disposed : c.disposed ≡ []
  pub waits : (c.queue ≡ []) ⊎ ((job : GcJob) × (c.queue ≡ job ∷ []) × IsCalmJob c job)

pub heap_objects-reset : (heaps : List CollectedHeap) → heap_objects (map reset heaps) ≡ []
unfolding heap_objects reset
heap_objects-reset [] = refl
heap_objects-reset (h ∷ heaps) = heap_objects-reset heaps

mem-update_heap :
    (b a size i : ℕ) (heaps : List CollectedHeap)
    → Memᴰ b (heap_objects (update_heap (register_object a size) i heaps))
    → (b ≡ a) ⊎ Memᴰ b (heap_objects heaps)
unfolding heap_objects update_heap register_object
mem-update_heap b a size i [] m = inr m
mem-update_heap b a size zero (h ∷ heaps) m = Memᴰ.cases_cons m
mem-update_heap b a size (suc i) (h ∷ heaps) m = elim (Memᴰ.append_cases h.allocated m) [
  | inl here ↦ inr (Memᴰ.append_left (heap_objects heaps) here)
  | inr later ↦ elim (mem-update_heap b a size i heaps later) [
    | inl same ↦ inl same
    | inr before ↦ inr (Memᴰ.append_right h.allocated before)
  ]
]

set_all-other :
    (objects : List ℕ) (a : ℕ) (marks : ℕ → Bool)
    → ¬ Memᴰ a objects
    → set_all false objects marks a ≡ marks a
unfolding set_all set_flag
set_all-other [] a marks h = refl
set_all-other (b ∷ objects) a marks h =
    let rest = set_all-other objects a (set_flag b false marks) (λ m. h (Memᴰ.tail m)) in
    let other = λ (e : a ≡ b). h (Memᴰ.head e) in ground arith

pub eq_or_ne : (a b : ℕ) → (a ≡ b) ⊎ (a ≢ b)
eq_or_ne a b = ground arith

set_flag_ne : (a b : ℕ) (x : Age) (flags : ℕ → Age) → b ≢ a → set_flag a x flags b ≡ flags b
unfolding set_flag
set_flag_ne a b x flags h = ground arith

set_flag-quiet :
    (b a : ℕ) (age : ℕ → Age) (marks : ℕ → Bool)
    → (marks a ≡ true) ⊎ (age a ≡ old)
    → (set_flag b false marks a ≡ true) ⊎ (set_flag b old age a ≡ old)
unfolding set_flag
set_flag-quiet b a age marks (inl m) = ground arith
set_flag-quiet b a age marks (inr o) = ground arith

IsQuiet-set_all :
    (objects : List ℕ) (age : ℕ → Age) (marks : ℕ → Bool)
    → IsQuiet age marks
    → IsQuiet (set_all old objects age) (set_all false objects marks)
unfolding set_all set_flag
IsQuiet-set_all [] age marks h = h
IsQuiet-set_all (b ∷ objects) age marks h =
    IsQuiet-set_all objects (set_flag b old age) (set_flag b false marks)
      (λ a. set_flag-quiet b a age marks (h a))

module _ (sizes : Sizes) where
  scan_roots-IsCalmRoots :
      (c : Collector) (vs : List Ref) (m : RootMarker)
      → IsQuiet c.age c.marked
      → IsCalmRoots c.age c.marked m
      → IsCalmRoots c.age c.marked (scan_roots sizes c vs m)
  unfolding scan_roots
  scan_roots-IsCalmRoots c [] m quiet h = h
  scan_roots-IsCalmRoots c (v ∷ vs) m quiet h =
      scan_roots-IsCalmRoots c vs _ quiet
        (mark-IsCalmRoots c.age c.marked quiet sizes c.content v m h)

  pub run_gc-IsCalm :
      (values : List Ref) (c : Collector) → IsCalm c → c.queue ≡ [] → IsCalm (run_gc sizes values c)
  unfolding run_gc new_job new_marker
  run_gc-IsCalm values c h e = elim (Bool-cases c.config.enabled) [
    | inl on ↦ simp on (record {
      quiet = h.quiet;
      young_marked = λ a m. absurd (Memᴰ.not-nil (subst (Memᴰ a) (heap_objects-reset c.heaps) m));
      none_old = h.none_old;
      no_full = h.no_full;
      none_disposed = h.none_disposed;
      waits = inr (
        new_job sizes values c,
        ap (λ (q : List GcJob). q ++ new_job sizes values c ∷ []) e,
        record {
          minor = h.no_full;
          calm =
              scan_roots-IsCalmRoots c values (new_marker c.collect_old) h.quiet
                (record { limit = rw h.no_full refl; roots = λ p m. absurd (Memᴰ.not-nil m) });
          objects = h.young_marked;
          apart = λ a _ m. Memᴰ.not-nil (subst (Memᴰ a) (heap_objects-reset c.heaps) m);
        },
      );
    })
    | inr off ↦ simp off h
  ]

  register-IsCalm :
      (i a size : ℕ) (object : Content) (d : Collector)
      → ((job : GcJob) → d.queue ≡ job ∷ [] → ¬ Memᴰ a job.allocated)
      → IsCalm d
      → IsCalm (record d {
        age = set_flag a young d.age;
        marked = set_flag a true d.marked;
        content = set_flag a object d.content;
        heaps = update_heap (register_object a size) i d.heaps;
      })
  register-IsCalm i a size object d fresh h = record {
    quiet = λ b. elim (eq_or_ne b a) [
      | inl same ↦ inl ((set_flag_iff a b d.marked).1 (inl same))
      | inr other ↦ kept b other (h.quiet b)
    ];
    young_marked = λ b m.
        (set_flag_iff a b d.marked).1 (elim (mem-update_heap b a size i d.heaps m) [
          | inl same ↦ inl same
          | inr before ↦ inr (h.young_marked b before)
        ]);
    none_old = h.none_old;
    no_full = h.no_full;
    none_disposed = h.none_disposed;
    waits = elim h.waits [
      | inl none ↦ inl none
      | inr (job, e, calm) ↦ inr (
        job,
        e,
        record {
          minor = calm.minor;
          calm = record {
            limit = calm.calm.limit;
            roots = λ p m. (set_flag_iff a p.0 d.marked).1 (inr (calm.calm.roots p m));
          };
          objects = λ b m. (set_flag_iff a b d.marked).1 (inr (calm.objects b m));
          apart = λ b m there. elim (mem-update_heap b a size i d.heaps there) [
            | inl same ↦ fresh job e (subst (λ x. Memᴰ x job.allocated) same m)
            | inr before ↦ calm.apart b m before
          ];
        },
      )
    ];
  }
    where
      kept :
          (b : ℕ)
          → b ≢ a
          → (d.marked b ≡ true) ⊎ (d.age b ≡ old)
          → (set_flag a true d.marked b ≡ true) ⊎ (set_flag a young d.age b ≡ old)
      kept b other (inl m) = inl ((set_flag_iff a b d.marked).1 (inr m))
      kept b other (inr o) = inr (set_flag_ne a b young d.age other ∙ o)

  sweep-IsCalm :
      (c : Collector) (job : GcJob) (m : HeapMarker)
      → IsCalm c
      → IsCalmJob c job
      → c.queue ≡ []
      → m.marked ≡ c.marked
      → m.alive_size ≡ 0
      → IsCalm (sweep job m c)
  unfolding sweep
  sweep-IsCalm c job m h calm empty same none =
      let parts = split_marked-all c.age c.marked job.allocated calm.objects in
      simp (calm.minor, none, h.none_old, h.no_full, same)
        (simp (parts) (record {
          quiet = IsQuiet-set_all job.allocated c.age c.marked h.quiet;
          young_marked = λ a there.
              set_all-other job.allocated a c.marked (λ here. calm.apart a here there)
              ∙ h.young_marked a there;
          none_old = refl;
          no_full = ground arith;
          none_disposed = append-nil c.disposed ∙ h.none_disposed;
          waits = inl empty;
        }))

  -- The job ends, if the fuel is enough for the values on its stack.
  collect_job-IsCalm :
      (fuel : ℕ) (c : Collector) (job : GcJob)
      → IsCalm c
      → IsCalmJob c job
      → c.queue ≡ []
      → ((collect_job sizes fuel job c ≡ timeout) × (fuel < length job.marker.mark_stack))
        ⊎ ((d : Collector) × (collect_job sizes fuel job c ≡ ok d) × IsCalm d × (d.queue ≡ []))
  unfolding collect_job sweep
  collect_job-IsCalm fuel c job h calm empty =
      let m : HeapMarker = record {
        marked = c.marked;
        alive_size = 0;
        mark_stack = [];
        max_age = job.marker.max_age;
      } in
      let roots = mark_roots-marked c.age c.marked job.marker.roots 0 calm.calm.roots in
      elim (trace-IsQuiet c.age sizes c.content fuel job.marker.mark_stack m h.quiet
        calm.calm.limit) [
          | inl (ends, less) ↦ inl (simp (roots, ends) refl, less)
          | inr ends ↦ inr (
            sweep job m c,
            simp (roots, ends) refl,
            sweep-IsCalm c job m h calm empty refl refl,
            empty,
          )
        ]

  IsCalm-queue : (c : Collector) → IsCalm c → IsCalm (record c { queue = [] })
  IsCalm-queue c h = record {
    quiet = h.quiet;
    young_marked = h.young_marked;
    none_old = h.none_old;
    no_full = h.no_full;
    none_disposed = h.none_disposed;
    waits = inl refl;
  }

  -- How a round ends
  abbrev pub RoundEnds : ℕ → ℕ → Collector → Type 0
  RoundEnds bound fuel c =
      ((collect sizes fuel c ≡ timeout) × (fuel < bound))
      ⊎ ((d : Collector) × (collect sizes fuel c ≡ ok d) × IsCalm d × (d.queue ≡ []))

  pub collect-IsCalm :
      (c : Collector) → IsCalm c → (bound : ℕ) × ((fuel : ℕ) → RoundEnds bound fuel c)
  unfolding collect next_job
  collect-IsCalm c h = elim h.waits [
    | inl empty ↦ (0, λ fuel. inr (c, ap (λ q. next_job sizes fuel q c) empty, h, empty))
    | inr (job, e, calm) ↦ (
      length job.marker.mark_stack,
      λ fuel.
          elim (collect_job-IsCalm fuel (record c { queue = [] }) job (IsCalm-queue c h)
            (record {
              minor = calm.minor;
              calm = calm.calm;
              objects = calm.objects;
              apart = calm.apart;
            })
            refl) [
              | inl (ends, less) ↦ inl (ap (λ q. next_job sizes fuel q c) e ∙ ends, less)
              | inr (d, ends, kept, empty) ↦
                  inr (d, ap (λ q. next_job sizes fuel q c) e ∙ ends, kept, empty)
            ],
    )
  ]

  -- The job of a request holds only objects of the heaps.
  run_gc-fresh :
      (values : List Ref) (a : ℕ) (c : Collector) (job : GcJob)
      → ¬ Memᴰ a (heap_objects c.heaps)
      → c.queue ≡ []
      → (run_gc sizes values c).queue ≡ job ∷ []
      → ¬ Memᴰ a job.allocated
  unfolding run_gc new_job
  run_gc-fresh values a c job fresh empty e = elim (Bool-cases c.config.enabled) [
    | inl on ↦
        let one : new_job sizes values c ∷ [] ≡ job ∷ [] =
          sym (ap (λ (q : List GcJob). q ++ new_job sizes values c ∷ []) empty) ∙ (simp on at e) in
        let same : heap_objects c.heaps ≡ job.allocated = ap first_objects one in
        subst (λ l. ¬ Memᴰ a l) same fresh
    | inr off ↦ absurd (cc (empty, (simp off at e)))
  ]
    where
      first_objects : List GcJob → List ℕ
      first_objects [] = []
      first_objects (j ∷ js) = j.allocated

  pub alloc-IsCalm :
      (values : List Ref) (i a : ℕ) (object : Content) (c : Collector)
      → ¬ Memᴰ a (heap_objects c.heaps)
      → IsCalm c
      → c.queue ≡ []
      → IsCalm (alloc sizes values i a object c)
  unfolding alloc check_free_space
  alloc-IsCalm values i a object c fresh h empty =
      let size = size_of sizes c.content object in
      elim (Bool-cases
        (ltb (heap_at c.heaps i).max_heap_size ((heap_at c.heaps i).allocated_size + size))) [
          | inl full ↦ simp full (
              register-IsCalm i a size object (run_gc sizes values c)
                (λ job. run_gc-fresh values a c job fresh empty) (run_gc-IsCalm values c h empty))
          | inr room ↦
              simp room (register-IsCalm i a size object c (λ job e. absurd (cc (empty, e))) h)
        ]
