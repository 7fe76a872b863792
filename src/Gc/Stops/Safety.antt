-- ===== src/Gc/Stops/Safety.antt =====
-- Source/GC/GarbageCollector.cpp: that the roots are scanned while the other threads are stopped.
use fptl.Prelude.{
  ℕ, suc, ◌+◌, ◌-◌, ◌≤◌, ◌≡◌, ◌≢◌, refl, sym, ◌∙◌, subst, ◌⊎◌, inl, inr, Bool, true, false, some,
  List, [], ◌∷◌, length, get_elem?, get_elem?-set_self, lt_of_get_elem?, set, arith,
}
use fptl.Gc.Stops.{
  Phase, working, trying, noticed, halted, holding, asking, scanning, releasing, Threads, started,
  move, Step, request, notice, halt, resume, lock, ask, scan, release, unlock, Reached, begin, next,
}
use fptl.Gc.Stops.Counts.{
  is_halted, stops, owns, closes, total, total-set, total-le, total-two, all_stopped,
  total-replicate, get_elem?-replicate, get_elem?-set_other,
}

abbrev is_scanning : Phase → Bool
is_scanning scanning = true
is_scanning _ = false

abbrev number : Bool → ℕ
number true = 1
number false = 0

number-le : (b : Bool) → number b ≤ 1
number-le b = ground arith

pub record Inv (s : Threads) : Type 0 where
  counted : s.stopped ≡ total stops s.phases
  owned : total owns s.phases ≡ number s.locked
  shut : (j : ℕ) (p : Phase) → get_elem? s.phases j ≡ some p → closes p ≡ true → s.stop ≡ true
  pub alone :
      (j k : ℕ) (p q : Phase)
      → get_elem? s.phases j ≡ some p
      → is_scanning p ≡ true
      → k ≢ j
      → get_elem? s.phases k ≡ some q
      → is_halted q ≡ true

-- What a thread's change of its phase from `p` to `q`, with the shared variables, has to keep.
record Keeps (i : ℕ) (p q : Phase) (s : Threads) (b : Bool) (m : ℕ) (l : Bool) : Type 0 where
  count : m + stops p ≡ s.stopped + stops q
  own : number l + owns p ≡ number s.locked + owns q
  own_shut : closes q ≡ true → b ≡ true
  other_shut :
      (j : ℕ) (r : Phase) → j ≢ i → get_elem? s.phases j ≡ some r → closes r ≡ true → b ≡ true
  own_alone :
      is_scanning q ≡ true
      → (k : ℕ) (r : Phase) → k ≢ i
      → get_elem? s.phases k ≡ some r
      → is_halted r ≡ true
  other_alone :
      (j : ℕ) (r : Phase)
      → j ≢ i
      → get_elem? s.phases j ≡ some r
      → is_scanning r ≡ true
      → is_halted q ≡ true

eq_or_ne : (a b : ℕ) → (a ≡ b) ⊎ (a ≢ b)
eq_or_ne a b = ground arith

-- The phase of a thread after the change
after_set :
    (ps : List Phase) (i j : ℕ) (p q r : Phase)
    → get_elem? ps i ≡ some p
    → get_elem? (set ps i q) j ≡ some r
    → ((j ≡ i) × (r ≡ q)) ⊎ ((j ≢ i) × (get_elem? ps j ≡ some r))
after_set ps i j p q r e f = elim (eq_or_ne j i) [
  | inl same ↦
      let at_i = get_elem?-set_self ps i q (lt_of_get_elem? i ps e) in
      inl (same, some-eq (sym (subst (λ x. get_elem? (set ps i q) x ≡ some r) same f) ∙ at_i))
  | inr other ↦ inr (other, sym (get_elem?-set_other ps i j q other) ∙ f)
]
  where
    some-eq : {x y : Phase} → some x ≡ some y → x ≡ y
    some-eq h = cc h

Keeps-Inv :
    (i : ℕ) (p q : Phase) (s : Threads) (b : Bool) (m : ℕ) (l : Bool)
    → Inv s
    → get_elem? s.phases i ≡ some p
    → Keeps i p q s b m l
    → Inv (record { phases = set s.phases i q; stop = b; stopped = m; locked = l })
Keeps-Inv i p q s b m l h e k = record {
  counted = omega (arith, total-set stops s.phases i p q e, k.count, h.counted);
  owned = omega (arith, total-set owns s.phases i p q e, k.own, h.owned);
  shut = λ j r f c. elim (after_set s.phases i j p q r e f) [
    | inl (same, now) ↦ k.own_shut (subst (λ x. closes x ≡ true) now c)
    | inr (other, before) ↦ k.other_shut j r other before c
  ];
  alone = λ j u r x f c d g. elim (after_set s.phases i j p q r e f) [
    | inl (same, now) ↦ elim (after_set s.phases i u p q x e g) [
      | inl (here, _) ↦ absurd (d (here ∙ sym same))
      | inr (other, before) ↦ k.own_alone (subst (λ y. is_scanning y ≡ true) now c) u x other before
    ]
    | inr (other, before) ↦ elim (after_set s.phases i u p q x e g) [
      | inl (here, moved) ↦
          subst (λ y. is_halted y ≡ true) (sym moved) (k.other_alone j r other before c)
      | inr (away, stays) ↦ h.alone j u r x before c d stays
    ]
  ];
}

started-Inv : (n : ℕ) → Inv (started n)
started-Inv n = record {
  counted = sym (total-replicate stops n refl);
  owned = total-replicate owns n refl;
  shut = λ j p e c. cc (get_elem?-replicate n j p e, c);
  alone = λ j k p q e c d f. cc (get_elem?-replicate n j p e, c);
}

scans_close : (r : Phase) → is_scanning r ≡ true → closes r ≡ true
scans_close r c = ground arith

closes-owns : (r : Phase) → closes r ≡ true → owns r ≢ 0
closes-owns r c = ground arith

-- Who has stopped and does not own mGcMutex waits in safePoint.
stops_or_owns : (r : Phase) → stops r ≡ 1 → owns r ≡ 0 → is_halted r ≡ true
stops_or_owns r a b = ground arith

-- A thread that scans leaves the others halted, so that only they could move, and mStop is set.
module _ (i : ℕ) (s : Threads) (h : Inv s) where
  none_scans :
      (p q : Phase)
      → get_elem? s.phases i ≡ some p
      → is_halted p ≡ false
      → (j : ℕ) (r : Phase) → j ≢ i
      → get_elem? s.phases j ≡ some r
      → is_scanning r ≡ true
      → is_halted q ≡ true
  none_scans p q e still j r other f c =
      absurd (cc (h.alone j i r p f c (λ x. other (sym x)) e, still))

  same_shut :
      (j : ℕ) (r : Phase) → j ≢ i → get_elem? s.phases j ≡ some r → closes r ≡ true → s.stop ≡ true
  same_shut j r other f c = h.shut j r f c

  -- Two threads do not own mGcMutex.
  one_owner :
      (p r : Phase) (j : ℕ)
      → get_elem? s.phases i ≡ some p
      → owns p ≡ 1
      → j ≢ i
      → get_elem? s.phases j ≡ some r
      → owns r ≡ 0
  one_owner p r j e o other f =
      omega (
        arith,
        total-two owns s.phases i j p r e f (λ x. other (sym x)),
        h.owned,
        number-le s.locked,
      )

  -- A step in which a thread that is not halted comes to a phase that does not close.
  simple-Inv :
      (p q : Phase) (m : ℕ) (l : Bool)
      → get_elem? s.phases i ≡ some p
      → is_halted p ≡ false
      → closes q ≡ false
      → is_scanning q ≡ false
      → m + stops p ≡ s.stopped + stops q
      → number l + owns p ≡ number s.locked + owns q
      → Inv (record { phases = set s.phases i q; stop = s.stop; stopped = m; locked = l })
  simple-Inv p q m l e still clear apart count own = Keeps-Inv i p q s s.stop m l h e (record {
    count = count;
    own = own;
    own_shut = λ x. cc (x, clear);
    other_shut = same_shut;
    own_alone = λ x. cc (x, apart);
    other_alone = none_scans p q e still;
  })

  -- A halted thread that goes on does so while none scans.
  resume-Inv :
      (back : Bool) (q : Phase)
      → get_elem? s.phases i ≡ some (halted back)
      → s.stop ≡ false
      → stops q ≡ 0
      → owns q ≡ 0
      → closes q ≡ false
      → is_scanning q ≡ false
      → Inv (record {
        phases = set s.phases i q;
        stop = s.stop;
        stopped = s.stopped - 1;
        locked = s.locked;
      })
  resume-Inv back q e off zero_stops zero_owns clear apart =
      Keeps-Inv i (halted back) q s s.stop (s.stopped - 1) s.locked h e (record {
        count = omega (arith, total-le stops s.phases i (halted back) e, h.counted);
        own = omega arith;
        own_shut = λ x. cc (x, clear);
        other_shut = same_shut;
        own_alone = λ x. cc (x, apart);
        other_alone = λ j r other f c. absurd (cc (h.shut j r f (scans_close r c), off));
      })

  ask-Inv :
      get_elem? s.phases i ≡ some holding
      → Inv (record {
        phases = set s.phases i asking;
        stop = true;
        stopped = suc s.stopped;
        locked = s.locked;
      })
  ask-Inv e = Keeps-Inv i holding asking s true (suc s.stopped) s.locked h e (record {
    count = omega arith;
    own = refl;
    own_shut = λ x. refl;
    other_shut = λ j r other f c. refl;
    own_alone = λ x. cc x;
    other_alone = none_scans holding asking e refl;
  })

  scan-Inv :
      get_elem? s.phases i ≡ some asking
      → s.stopped ≡ length s.phases
      → Inv (record {
        phases = set s.phases i scanning;
        stop = s.stop;
        stopped = s.stopped - 1;
        locked = s.locked;
      })
  scan-Inv e all = Keeps-Inv i asking scanning s s.stop (s.stopped - 1) s.locked h e (record {
    count = omega (arith, total-le stops s.phases i asking e, h.counted);
    own = refl;
    own_shut = λ x. h.shut i asking e refl;
    other_shut = same_shut;
    own_alone = λ x k r other f.
        stops_or_owns r (all_stopped s.phases k r (sym h.counted ∙ all) f)
          (one_owner asking r k e refl other f);
    other_alone = none_scans asking scanning e refl;
  })

  release-Inv :
      get_elem? s.phases i ≡ some scanning
      → Inv (record {
        phases = set s.phases i releasing;
        stop = false;
        stopped = s.stopped;
        locked = s.locked;
      })
  release-Inv e = Keeps-Inv i scanning releasing s false s.stopped s.locked h e (record {
    count = refl;
    own = refl;
    own_shut = λ x. cc x;
    other_shut = λ j r other f c. absurd (closes-owns r c (one_owner scanning r j e refl other f));
    own_alone = λ x. cc x;
    other_alone = none_scans scanning releasing e refl;
  })

step-Inv : (i : ℕ) (s t : Threads) → Inv s → Step i s t → Inv t
step-Inv i s t h (request e) =
    simple-Inv i s h working trying s.stopped s.locked e refl refl refl refl refl
step-Inv i s t h (notice true e on) =
    simple-Inv i s h trying (noticed true) s.stopped s.locked e refl refl refl refl refl
step-Inv i s t h (notice false e on) =
    simple-Inv i s h working (noticed false) s.stopped s.locked e refl refl refl refl refl
step-Inv i s t h (halt back e) =
    simple-Inv i s h (noticed back) (halted back) (suc s.stopped) s.locked e refl refl refl
      (omega arith) refl
step-Inv i s t h (resume true e off) = resume-Inv i s h true trying e off refl refl refl refl
step-Inv i s t h (resume false e off) = resume-Inv i s h false working e off refl refl refl refl
step-Inv i s t h (lock e free) =
    simple-Inv i s h trying holding s.stopped true e refl refl refl refl (rw free refl)
step-Inv i s t h (ask e) = ask-Inv i s h e
step-Inv i s t h (scan e all) = scan-Inv i s h e all
step-Inv i s t h (release e) = release-Inv i s h e
step-Inv i s t h (unlock e) =
    simple-Inv i s h releasing working s.stopped false e refl refl refl refl
      (owner_locks (total-le owns s.phases i releasing e) h.owned)
  where
    owner_locks :
        1 ≤ total owns s.phases
        → total owns s.phases ≡ number s.locked
        → 0 + 1 ≡ number s.locked + 0
    owner_locks one same = omega (arith, number-le s.locked)

Reached-Inv : (n : ℕ) (s : Threads) → Reached n s → Inv s
Reached-Inv n s begin = started-Inv n
Reached-Inv n t (next {s = s} i r step) = step-Inv i s t (Reached-Inv n s r) step

-- In every state that is reached, whatever the order of the threads' steps, each other thread waits
-- in safePoint while one scans the roots.
pub scan_alone :
    (n : ℕ) (s : Threads) (i j : ℕ) (p : Phase)
    → Reached n s
    → get_elem? s.phases i ≡ some scanning
    → j ≢ i
    → get_elem? s.phases j ≡ some p
    → is_halted p ≡ true
scan_alone n s i j p r e other f = (Reached-Inv n s r).alone i j scanning p e refl other f

total-all :
    (ps : List Phase)
    → ((j : ℕ) (p : Phase) → get_elem? ps j ≡ some p → stops p ≡ 1)
    → total stops ps ≡ length ps
total-all [] h = refl
total-all (p ∷ ps) h = omega (arith, h 0 p refl, total-all ps (λ j q e. h (suc j) q e))

halted_stops : (p : Phase) → is_halted p ≡ true → stops p ≡ 1
halted_stops p h = ground arith

-- A thread that asks for the stop can scan as soon as each other thread waits in safePoint, in
-- whatever order they came there.
pub scan_comes :
    (n : ℕ) (s : Threads) (i : ℕ)
    → Reached n s
    → get_elem? s.phases i ≡ some asking
    → ((j : ℕ) (p : Phase) → j ≢ i → get_elem? s.phases j ≡ some p → is_halted p ≡ true)
    → (t : Threads) × Step i s t × (get_elem? t.phases i ≡ some scanning)
scan_comes n s i r e others =
    let all = total-all s.phases (λ j p f. elim (eq_or_ne j i) [
      | inl same ↦ cc (same, e, f)
      | inr other ↦ halted_stops p (others j p other f)
    ]) in
    let full : s.stopped ≡ length s.phases = (Reached-Inv n s r).counted ∙ all in
    (
      record (move i scanning s) { stopped = s.stopped - 1 },
      scan e full,
      get_elem?-set_self s.phases i scanning (lt_of_get_elem? i s.phases e),
    )
