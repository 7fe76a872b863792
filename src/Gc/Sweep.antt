-- ===== src/Gc/Sweep.antt =====
-- Source/GC/GarbageCollector.cpp, collectorThreadLoop: the marks of the roots, and what the sweep
-- keeps and deletes.
use fptl.Prelude.{
  ℕ, ◌+◌, ◌≡◌, refl, sym, subst, ap, ◌↔◌, ◌⊎◌, inl, inr, Bool, true, false, Bool-cases, List, [],
  ◌∷◌, ◌++◌, ◌||◌, ◌==◌, if◌then◌else◌, arith,
}
use mathlib.Core.List.{Memᴰ}
use mathlib.Core.List.Memᴰ
use mathlib.Core.Logic.{⊎_elim}
use fptl.Gc.{old, set_flag, HeapMarker}
use fptl.Gc.Collector.{Collector, GcJob, mark_roots, set_all, split_marked, sweep}

-- Whether a root is at an address
abbrev pub is_root : List (ℕ × ℕ) → ℕ → Bool
is_root [] a = false
is_root ((b, size) ∷ roots) a = let rest = is_root roots a in if a == b then true else rest

-- The marks from before with those of the roots
abbrev pub root_marks : List (ℕ × ℕ) → (ℕ → Bool) → ℕ → Bool
root_marks roots marks a = marks a || is_root roots a

pub mark_roots_lem :
    (roots : List (ℕ × ℕ)) (marks : ℕ → Bool) (alive a : ℕ)
    → (mark_roots roots (marks, alive)).0 a ≡ root_marks roots marks a
unfolding mark_roots set_flag
mark_roots_lem [] marks alive a = ground arith
mark_roots_lem ((b, size) ∷ roots) marks alive a = elim (Bool-cases (marks b)) [
  | inl before ↦
      let rest = mark_roots_lem roots marks alive a in
      let same = λ (e : a ≡ b). ap marks e in ground (arith, rest, before, same)
  | inr unmarked ↦
      let rest = mark_roots_lem roots (set_flag b true marks) (alive + size) a in
      ground (arith, rest, unmarked)
]

split_marked-alive :
    (marks : ℕ → Bool) (objects : List ℕ) (a : ℕ)
    → Memᴰ a (split_marked marks objects).0 ↔ (Memᴰ a objects × (marks a ≡ true))
unfolding split_marked
split_marked-alive marks [] a = (λ m. absurd (Memᴰ.not-nil m), λ (m, _). m)
split_marked-alive marks (b ∷ objects) a =
    let (forth, back) = split_marked-alive marks objects a in
    elim (Bool-cases (marks b)) [
      | inl here ↦ rw here (
        λ m. elim (Memᴰ.cases_cons m) [
          | inl same ↦ (Memᴰ.head same, subst (λ x. marks x ≡ true) (sym same) here)
          | inr later ↦ (Memᴰ.tail (forth later).0, (forth later).1)
        ],
        λ (m, e). elim (Memᴰ.cases_cons m) [
          | inl same ↦ Memᴰ.head same
          | inr later ↦ Memᴰ.tail (back (later, e))
        ],
      )
      | inr gone ↦ rw gone (
        λ m. (Memᴰ.tail (forth m).0, (forth m).1),
        λ (m, e). elim (Memᴰ.cases_cons m) [
          | inl same ↦ absurd (cc (gone, e, same))
          | inr later ↦ back (later, e)
        ],
      )
    ]

split_marked-dead :
    (marks : ℕ → Bool) (objects : List ℕ) (a : ℕ)
    → Memᴰ a (split_marked marks objects).1 ↔ (Memᴰ a objects × (marks a ≡ false))
unfolding split_marked
split_marked-dead marks [] a = (λ m. absurd (Memᴰ.not-nil m), λ (m, _). m)
split_marked-dead marks (b ∷ objects) a =
    let (forth, back) = split_marked-dead marks objects a in
    elim (Bool-cases (marks b)) [
      | inl here ↦ rw here (
        λ m. (Memᴰ.tail (forth m).0, (forth m).1),
        λ (m, e). elim (Memᴰ.cases_cons m) [
          | inl same ↦ absurd (cc (here, e, same))
          | inr later ↦ back (later, e)
        ],
      )
      | inr gone ↦ rw gone (
        λ m. elim (Memᴰ.cases_cons m) [
          | inl same ↦ (Memᴰ.head same, subst (λ x. marks x ≡ false) (sym same) gone)
          | inr later ↦ (Memᴰ.tail (forth later).0, (forth later).1)
        ],
        λ (m, e). elim (Memᴰ.cases_cons m) [
          | inl same ↦ Memᴰ.head same
          | inr later ↦ Memᴰ.tail (back (later, e))
        ],
      )
    ]

-- The objects that a job is about, and those that it leaves alone
abbrev pub candidates : Collector → GcJob → List ℕ
candidates c job = if job.full_gc then job.allocated ++ c.allocated else job.allocated

abbrev pub spared : Collector → GcJob → List ℕ
spared c job = if job.full_gc then [] else c.allocated

set_all-inside :
    {A : Type 0} (flag : A) (objects : List ℕ) (a : ℕ) (flags : ℕ → A)
    → (Memᴰ a objects ⊎ (flags a ≡ flag))
    → set_all flag objects flags a ≡ flag
unfolding set_all set_flag
set_all-inside flag [] a flags (inl none) = absurd (Memᴰ.not-nil none)
set_all-inside flag [] a flags (inr e) = e
set_all-inside flag (b ∷ objects) a flags h =
    set_all-inside flag objects a (set_flag b flag flags) (elim h [
      | inl here ↦ elim (Memᴰ.cases_cons here) [
        | inl same ↦ inr (ground (arith, same))
        | inr later ↦ inl later
      ]
      | inr e ↦ inr (ground (arith, e))
    ])

-- What the end of a job leaves and deletes, where `IsKept` says what it should keep.
pub record Swept (c d : Collector) (job : GcJob) (IsKept : ℕ → Type 0) : Type 0 where
  pub dead : List ℕ
  pub deleted : d.disposed ≡ c.disposed ++ dead
  pub dead_iff : (a : ℕ) → Memᴰ a dead ↔ (Memᴰ a (candidates c job) × ¬ IsKept a)
  pub kept_iff :
      (a : ℕ)
      → Memᴰ a d.allocated ↔ (Memᴰ a (spared c job) ⊎ (Memᴰ a (candidates c job) × IsKept a))
  pub unmarked : (a : ℕ) → Memᴰ a (candidates c job) → d.marked a ≡ false
  pub aged : (a : ℕ) → Memᴰ a (candidates c job) → IsKept a → d.age a ≡ old

pub sweep-Swept :
    (c : Collector) (job : GcJob) (rest : List GcJob) (t : HeapMarker) (IsKept : ℕ → Type 0)
    → ((a : ℕ) → (t.marked a ≡ true) ↔ IsKept a)
    → Swept c (sweep job t (record c { queue = rest })) job IsKept
unfolding sweep
sweep-Swept c job rest t IsKept marks =
    let objects = candidates c job in
    let alive = split_marked-alive t.marked objects in
    let dead = split_marked-dead t.marked objects in
    let kept = (split_marked t.marked objects).0 in
    record {
      dead = (split_marked t.marked objects).1;
      deleted = refl;
      dead_iff = λ a. (
        λ m. (((dead a).0 m).0, λ k. cc (((dead a).0 m).1, (marks a).1 k)),
        λ (m, free). elim (Bool-cases (t.marked a)) [
          | inl marked ↦ absurd (free ((marks a).0 marked))
          | inr unmarked ↦ (dead a).1 (m, unmarked)
        ],
      );
      kept_iff = λ a. (
        λ m. elim (Memᴰ.append_cases (spared c job) m) [
          | inl left ↦ inl left
          | inr k ↦ inr (((alive a).0 k).0, (marks a).0 ((alive a).0 k).1)
        ],
        ⊎_elim (λ left. Memᴰ.append_left kept left)
            (λ (m, k). Memᴰ.append_right (spared c job) ((alive a).1 (m, (marks a).1 k))),
      );
      unmarked = λ a m. set_all-inside false kept a t.marked (elim (Bool-cases (t.marked a)) [
        | inl marked ↦ inl ((alive a).1 (m, marked))
        | inr unmarked ↦ inr unmarked
      ]);
      aged = λ a m k. set_all-inside old kept a c.age (inl ((alive a).1 (m, (marks a).1 k)));
    }
