-- ===== src/Gc/Collector.antt =====
-- Source/GC/GarbageCollector.cpp, GarbageCollector.h, CollectedHeap.cpp: the heaps of the units, the
-- pause of the program that scans the roots, and the round of the collector's thread. The sums of
-- sizes stay below 2 ^ 64, as the memory does.
use fptl.Prelude.{
  ℕ, zero, suc, ◌+◌, ◌*◌, Bool, true, false, ltb, if◌then◌else◌, List, [], ◌∷◌, ◌++◌, map, Result,
  ok, ◌>>=◌,
}
use fptl.Gc.{
  Age, young, old, Ref, Content, string_data, Sizes, size_of, mark, set_flag, RootMarker,
  root_marker, HeapMarker, trace,
}

pub record GcConfig : Type 0 where
  pub enabled : Bool
  pub young_gen_size : ℕ
  pub old_gen_size : ℕ
  pub old_gen_threshold : ℕ

-- `setOldGenThreshold` for a ratio with this whole part
unfoldable pub threshold : ℕ → ℕ → ℕ
threshold size whole = size * whole

-- The constructor; the ratio 0.75 is converted to `size_t` before the product.
unfoldable pub new_config : GcConfig
unfolding threshold
new_config =
    let young_size : ℕ = 20 * 1024 * 1024 in
    record {
      enabled = true;
      young_gen_size = young_size;
      old_gen_size = 5 * young_size;
      old_gen_threshold = threshold (5 * young_size) 0;
    }

-- A list of objects has the newest first.
pub record CollectedHeap : Type 0 where
  pub allocated : List ℕ
  pub allocated_size : ℕ
  pub max_heap_size : ℕ

pub record GcJob : Type 0 where
  pub marker : RootMarker
  pub allocated : List ℕ
  pub allocated_size : ℕ
  pub full_gc : Bool

-- `GarbageCollectorImpl` with the fields of the objects. `disposed` lists what was deleted; the
-- jobs in the queue stand with the oldest first.
pub record Collector : Type 0 where
  pub config : GcConfig
  pub age : ℕ → Age
  pub marked : ℕ → Bool
  pub content : ℕ → Content
  pub heaps : List CollectedHeap
  pub queue : List GcJob
  pub allocated : List ℕ
  pub old_gen_size : ℕ
  pub collect_old : Bool
  pub disposed : List ℕ

-- The constructor. An object that is made is young and marked.
unfoldable pub new_collector : GcConfig → Collector
new_collector config = record {
  config = config;
  age = λ a. young;
  marked = λ a. true;
  content = λ a. string_data 0;
  heaps = [];
  queue = [];
  allocated = [];
  old_gen_size = 0;
  collect_old = false;
  disposed = [];
}

unfoldable pub register_heap : Collector → Collector
register_heap c = record c {
  heaps =
      c.heaps
      ++ record { allocated = []; allocated_size = 0; max_heap_size = c.config.young_gen_size }
        ∷ [];
}

unfoldable pub new_heap : CollectedHeap
new_heap = record { allocated = []; allocated_size = 0; max_heap_size = 0 }

-- The heap of a unit, and a change of it
unfoldable pub heap_at : List CollectedHeap → ℕ → CollectedHeap
unfolding new_heap
heap_at [] i = new_heap
heap_at (h ∷ heaps) zero = h
heap_at (h ∷ heaps) (suc i) = heap_at heaps i

unfoldable pub update_heap :
    (CollectedHeap → CollectedHeap) → ℕ → List CollectedHeap → List CollectedHeap
update_heap f i [] = []
update_heap f zero (h ∷ heaps) = f h ∷ heaps
update_heap f (suc i) (h ∷ heaps) = h ∷ update_heap f i heaps

-- `registerObject`
unfoldable pub register_object : ℕ → ℕ → CollectedHeap → CollectedHeap
register_object a size h = record h {
  allocated = a ∷ h.allocated;
  allocated_size = h.allocated_size + size;
}

-- `heap->reset()`
unfoldable pub reset : CollectedHeap → CollectedHeap
reset h = record h { allocated = []; allocated_size = 0 }

unfoldable pub heap_sizes : List CollectedHeap → ℕ
heap_sizes [] = 0
heap_sizes (h ∷ heaps) = h.allocated_size + heap_sizes heaps

unfoldable pub heap_objects : List CollectedHeap → List ℕ
heap_objects [] = []
heap_objects (h ∷ heaps) = h.allocated ++ heap_objects heaps

-- `GcJob::GcJob(bool)`
unfoldable pub new_marker : Bool → RootMarker
new_marker full = record { roots = []; mark_stack = []; max_age = if full then old else young }

-- The loop over the objects that the roots point to
unfoldable pub mark_roots : List (ℕ × ℕ) → (ℕ → Bool) × ℕ → (ℕ → Bool) × ℕ
unfolding set_flag
mark_roots [] m = m
mark_roots ((a, size) ∷ roots) (marked, alive) =
    mark_roots roots (if marked a then (marked, alive) else (set_flag a true marked, alive + size))

unfoldable pub set_all {ℓ} : {A : Type ℓ} → A → List ℕ → (ℕ → A) → ℕ → A
unfolding set_flag
set_all flag [] flags = flags
set_all flag (a ∷ objects) flags = set_all flag objects (set_flag a flag flags)

-- `remove_and_dispose_if`: the objects with the mark, and those without.
unfoldable pub split_marked : (ℕ → Bool) → List ℕ → List ℕ × List ℕ
split_marked marked [] = ([], [])
split_marked marked (a ∷ objects) =
    let (alive, dead) = split_marked marked objects in
    if marked a then (a ∷ alive, dead) else (alive, a ∷ dead)

-- What follows the tracing in `collectorThreadLoop`
unfoldable pub sweep : GcJob → HeapMarker → Collector → Collector
unfolding split_marked set_all
sweep job marker c =
    let objects = if job.full_gc then job.allocated ++ c.allocated else job.allocated in
    let (alive, dead) = split_marked marker.marked objects in
    let size = (if job.full_gc then 0 else c.old_gen_size) + marker.alive_size in
    let pending = if job.full_gc then false else c.collect_old in
    record c {
      age = set_all old alive c.age;
      marked = set_all false alive marker.marked;
      allocated = (if job.full_gc then [] else c.allocated) ++ alive;
      old_gen_size = size;
      collect_old = if ltb c.config.old_gen_threshold size then true else pending;
      disposed = c.disposed ++ dead;
    }

module _ (sizes : Sizes) where
  -- `markRoots`, for the values on the stacks of the units' tasks
  unfoldable pub scan_roots : Collector → List Ref → RootMarker → RootMarker
  unfolding mark root_marker
  scan_roots c [] m = m
  scan_roots c (v ∷ vs) m = scan_roots c vs (mark sizes c.content (root_marker c.age) v m)

  -- The job for the collector's thread
  unfoldable pub new_job : List Ref → Collector → GcJob
  unfolding scan_roots new_marker heap_sizes heap_objects
  new_job values c = record {
    marker = scan_roots c values (new_marker c.collect_old);
    allocated = heap_objects c.heaps;
    allocated_size = heap_sizes c.heaps;
    full_gc = c.collect_old;
  }

  -- `runGc`, for the unit that scans while the others are stopped
  unfoldable pub run_gc : List Ref → Collector → Collector
  unfolding new_job reset
  run_gc values c =
      if c.config.enabled
      then record c { heaps = map reset c.heaps; queue = c.queue ++ new_job values c ∷ [] }
      else c

  -- `checkFreeSpace`
  unfoldable pub check_free_space : List Ref → ℕ → ℕ → Collector → Collector
  unfolding run_gc heap_at
  check_free_space values i size c =
      let h = heap_at c.heaps i in
      if ltb h.max_heap_size (h.allocated_size + size) then run_gc values c else c

  -- `CollectedHeap::alloc` of an object at a new address, with the end of its GcAwarePtr
  unfoldable pub alloc : List Ref → ℕ → ℕ → Content → Collector → Collector
  unfolding check_free_space register_object update_heap size_of set_flag
  alloc values i a object c =
      let size = size_of sizes c.content object in
      let d = check_free_space values i size c in
      record d {
        age = set_flag a young d.age;
        marked = set_flag a true d.marked;
        content = set_flag a object d.content;
        heaps = update_heap (register_object a size) i d.heaps;
      }

  -- The body of `collectorThreadLoop` for a job
  unfoldable pub collect_job : ℕ → GcJob → Collector → Result Collector
  unfolding mark_roots trace sweep
  collect_job fuel job c =
      let (marked, alive) = mark_roots job.marker.roots (c.marked, 0) in
      let marker : HeapMarker = record {
        marked = marked;
        alive_size = alive;
        mark_stack = job.marker.mark_stack;
        max_age = job.marker.max_age;
      } in
      trace c.age sizes c.content fuel marker >>= λ m. ok (sweep job m c)

  -- One round of `collectorThreadLoop`; with no job the thread waits.
  unfoldable pub next_job : ℕ → List GcJob → Collector → Result Collector
  unfolding collect_job
  next_job fuel [] c = ok c
  next_job fuel (job ∷ rest) c = collect_job fuel job (record c { queue = rest })

  unfoldable pub collect : ℕ → Collector → Result Collector
  unfolding next_job
  collect fuel c = next_job fuel c.queue c
