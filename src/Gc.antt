-- ===== src/Gc.antt =====
-- Source/GC/GarbageCollector.cpp, CollectedHeap.h, CollectedHeap.cpp, and the `mark` of the classes
-- of operations in Source/DataTypes/Ops: the objects of the heap, what marks them, and the loop
-- that traces them. An object is its address; the fields of the objects stand in functions on the
-- addresses. Of a data value the collector sees the class and the pointer.
pub mod Collector
pub mod Reach
pub mod Marks
pub mod Trace
pub mod Measure
pub mod Ends
pub mod Calm
pub mod Rounds
pub mod Runs
pub mod Sweep
pub mod Job
pub mod Stops
mod Tests
use fptl.Prelude.{
  ℕ, suc, zero, ◌+◌, ◌*◌, Bool, true, false, not, ◌&&◌, ◌==◌, if◌then◌else◌, List, [], ◌∷◌, length,
  ◌++◌, Result, ok, timeout,
}

pub data Age : Type 0 where
  young old : Age

-- `ObjectMarker::checkAge`
unfoldable pub check_age : Age → Age → Bool
check_age young _ = true
check_age old old = true
check_age old young = false

-- A `DataValue`: ADTOps, ArrayOps and StringOps mark the object that the value points to.
pub data Ref : Type 0 where
  plain : Ref
  adt_ref array_ref string_ref : ℕ → Ref

-- An object by its class, with the fields that the marking reads. The data of a string is an
-- object of its own, which substrings share.
pub data Content : Type 0 where
  value_array array_value : List Ref → Content
  string_value : ℕ → Content
  string_data : ℕ → Content

-- The sizes of the classes in bytes, which the platform gives.
pub record Sizes : Type 0 where
  pub of_value : ℕ
  pub of_value_array : ℕ
  pub of_array_value : ℕ
  pub of_string_value : ℕ
  pub of_string_data : ℕ

-- The two virtual functions of a marker, which works on an `M`.
pub record ObjectMarker (M : Type 0) : Type 0 where
  pub mark_alive : ℕ → ℕ → M → Bool × M
  pub add_child : Ref → M → M

unfoldable pub elements : Content → List Ref
elements (value_array values) = values
elements (array_value values) = values
elements (string_value d) = []
elements (string_data n) = []

module _ (sizes : Sizes) (content : ℕ → Content) where
  -- The size that each `mark` computes.
  unfoldable pub size_of : Content → ℕ
  size_of (value_array values) = sizes.of_value_array + length values * sizes.of_value
  size_of (array_value values) = sizes.of_array_value + sizes.of_value * length values
  size_of (string_value d) = sizes.of_string_value
  size_of (string_data n) = (sizes.of_string_data + n) * sizes.of_string_data

  unfoldable pub add_children : {M : Type 0} → ObjectMarker M → List Ref → M → M
  add_children ops [] m = m
  add_children ops (v ∷ vs) m = add_children ops vs (ops.add_child v m)

  -- `if (marker->markAlive(...)) for (...) marker->addChild(...)`
  unfoldable pub mark_object : {M : Type 0} → ObjectMarker M → ℕ → M → M
  unfolding size_of add_children elements
  mark_object ops a m =
      let (alive, next) = ops.mark_alive a (size_of (content a)) m in
      if alive then add_children ops (elements (content a)) next else next

  -- The second call of `StringOps::mark`, for the data of the string.
  unfoldable pub mark_data : {M : Type 0} → ObjectMarker M → Content → M → M
  unfolding size_of
  mark_data ops (string_value d) m = (ops.mark_alive d (size_of (content d)) m).1
  mark_data ops _ m = m

  -- `mark` of each class of operations
  unfoldable pub mark : {M : Type 0} → ObjectMarker M → Ref → M → M
  unfolding mark_object mark_data size_of
  mark ops plain m = m
  mark ops (adt_ref a) m = mark_object ops a m
  mark ops (array_ref a) m = mark_object ops a m
  mark ops (string_ref a) m = mark_data ops (content a) (ops.mark_alive a (size_of (content a)) m).1

-- A flag of an object
unfoldable pub set_flag {ℓ} : {A : Type ℓ} → ℕ → A → (ℕ → A) → ℕ → A
set_flag a flag flags b = if b == a then flag else flags b

-- What the pause of the program collects; the newest child stands first.
pub record RootMarker : Type 0 where
  pub roots : List (ℕ × ℕ)
  pub mark_stack : List Ref
  pub max_age : Age

pub record HeapMarker : Type 0 where
  pub marked : ℕ → Bool
  pub alive_size : ℕ
  pub mark_stack : List Ref
  pub max_age : Age

module _ (age : ℕ → Age) where
  -- `emplace_back` on the roots
  unfoldable pub add_root : ℕ → ℕ → RootMarker → Bool × RootMarker
  unfolding check_age
  add_root a size m =
      if check_age (age a) m.max_age
      then (true, record m { roots = m.roots ++ (a, size) ∷ [] })
      else (false, m)

  unfoldable pub root_marker : ObjectMarker RootMarker
  unfolding add_root
  root_marker = record {
    mark_alive = add_root;
    add_child = λ child m. record m { mark_stack = child ∷ m.mark_stack };
  }

  unfoldable pub mark_once : ℕ → ℕ → HeapMarker → Bool × HeapMarker
  unfolding check_age set_flag
  mark_once a size m =
      if not (m.marked a) && check_age (age a) m.max_age
      then (true, record m { marked = set_flag a true m.marked; alive_size = m.alive_size + size })
      else (false, m)

  unfoldable pub heap_marker : ObjectMarker HeapMarker
  unfolding mark_once
  heap_marker = record {
    mark_alive = mark_once;
    add_child = λ child m. record m { mark_stack = child ∷ m.mark_stack };
  }

  module _ (sizes : Sizes) (content : ℕ → Content) where
    -- The body of the loop of `traceDataRecursively`, after `pop_back`
    unfoldable pub visit_ref : Ref → List Ref → HeapMarker → HeapMarker
    unfolding mark heap_marker
    visit_ref v rest m = mark sizes content heap_marker v (record m { mark_stack = rest })

    -- `traceDataRecursively`; its count is not used.
    unfoldable pub trace : ℕ → HeapMarker → Result HeapMarker
    unfolding visit_ref
    trace zero m = elim m.mark_stack [ [] ↦ ok m | _ ∷ _ ↦ timeout ]
    trace (suc fuel) m = elim m.mark_stack [
      | [] ↦ ok m
      | v ∷ rest ↦ trace fuel (visit_ref v rest m)
    ]
