-- ===== src/Correct/Visit.antt =====
-- Source/InternalForm/Generator.cpp: `visit` of each class of nodes, its code and its table of
-- functions.
use fptl.Prelude.{
  ℕ, zero, suc, ◌<◌, ◌≡◌, refl, sym, ◌∙◌, ap, Bool, true, false, ◌&&◌, inl, inr, Bool-cases, some,
  Option-cases, length, ◌≤◌, get_elem?, ok, arith,
}
use fptl.Scheme.{Node, parallel, sequential, condition, scheme, FScheme, Program, is_long}
use fptl.Form.{
  Form, FormPtr, ret, end_op, par_join, par_fork, seq_end, seq_advance, seq_begin, rec_fn,
}
use fptl.Exec.Steps.{Functions, find_fun}
use fptl.Generator.{span, visit, declare_fun, get_scheme, in_place, branch_tail, scheme_name}
use fptl.Correct.Table.{Gives, Gives-bind, IsSound, Visited, declare-IsSound}
use fptl.Correct.Measure.{missing, missing-Grows, missing-declare, missing-pos}
use fptl.Correct.Nodes.{
  leaf-Visited, both-Visited, scheme-Visited, condition-Visited, parallel_forked, parallel_in_line,
}

module _ (prog : Program) (pro : Bool) where
  -- With fuel for every scheme that has no entry, the visit gives the code of the node and a sound
  -- table.
  abbrev pub VisitsWell : ℕ → Bool → Node → Type 0
  VisitsWell f chain n =
      (tail : Form) (fs : Functions)
      → IsSound prog pro fs
      → missing (length prog) fs ≤ f
      → Gives (Visited prog pro chain n tail fs) (visit prog pro f chain n tail fs)

  -- The fuel is enough for the table that a visit leaves, too.
  enough :
      (f : ℕ) (chain : Bool) (n : Node) (tail : Form) (fs : Functions) (x : Form × Functions)
      → Visited prog pro chain n tail fs x
      → missing (length prog) fs ≤ f
      → missing (length prog) x.1 ≤ f
  enough f chain n tail fs x v h = omega (arith, missing-Grows (length prog) fs x.1 v.grows)

  pub parallel_visited :
      (f : ℕ) (chain long : Bool) (l r : Node)
      → VisitsWell f false l
      → VisitsWell f false r
      → VisitsWell f chain (parallel long l r)
  unfolding visit
  parallel_visited f chain long l r vl vr tail fs sound fuel =
      elim (Bool-cases (is_long prog l && is_long prog r)) [
        | inl b ↦
            rw (visit, b)
              (Gives-bind (vl (par_join tail) fs sound fuel) (λ x px.
                Gives-bind (vr end_op x.1 px.sound (enough f false l _ fs x px fuel)) (λ y py. (
                  _,
                  refl,
                  both-Visited prog pro false false chain l r (parallel long l r) (par_join tail)
                      end_op tail (par_fork x.0 y.0) fs x y px py
                      (rw (parallel_forked prog pro chain long l r tail b, px.code, py.code))
                      (λ hl hr. (hl, hr)),
                ))))
        | inr b ↦
            rw (visit, b)
              (Gives-bind (vr tail fs sound fuel) (λ x px.
                let (y, e, py) = vl x.0 x.1 px.sound (enough f false r _ fs x px fuel) in
                (
                  y,
                  e,
                  both-Visited prog pro false false chain r l (parallel long l r) tail x.0 tail y.0
                      fs x y px py
                      (py.code
                        ∙ ap (λ form. span prog pro false l form) px.code
                        ∙ sym (parallel_in_line prog pro chain long l r tail b))
                      (λ hr hl. (hl, hr)),
                )))
      ]

  pub chain_visited :
      (f : ℕ) (long : Bool) (l r : Node)
      → VisitsWell f true l
      → VisitsWell f false r
      → VisitsWell f true (sequential long l r)
  unfolding visit span
  chain_visited f long l r vl vr last fs sound fuel = Gives-bind (vr last fs sound fuel) (λ x px.
      let (y, e, py) = vl (seq_advance x.0) x.1 px.sound (enough f false r _ fs x px fuel) in
      (
        y,
        e,
        both-Visited prog pro false true true r l (sequential long l r) last (seq_advance x.0) last
            y.0 fs x y px py
            (py.code ∙ ap (λ form. span prog pro true l (seq_advance form)) px.code)
            (λ hr hl. (hl, hr)),
      ))

  pub sequential_visited :
      (f : ℕ) (long : Bool) (l r : Node)
      → VisitsWell f true l
      → VisitsWell f false r
      → VisitsWell f false (sequential long l r)
  unfolding visit span
  sequential_visited f long l r vl vr tail fs sound fuel =
      Gives-bind (vr (seq_end tail) fs sound fuel) (λ x px.
        Gives-bind (vl (seq_advance x.0) x.1 px.sound (enough f false r _ fs x px fuel)) (λ y py. (
          _,
          refl,
          both-Visited prog pro false true false r l (sequential long l r) (seq_end tail)
              (seq_advance x.0) tail (seq_begin y.0) fs x y px py
              (ap seq_begin
                (py.code ∙ ap (λ form. span prog pro true l (seq_advance form)) px.code))
              (λ hr hl. (hl, hr)),
        )))

  pub branches_visited :
      (f : ℕ) (chain long : Bool) (c t e : Node)
      → VisitsWell f false c
      → VisitsWell f false t
      → VisitsWell f false e
      → VisitsWell f chain (condition long c t e)
  unfolding visit
  branches_visited f chain long c t e vc vt ve tail fs sound fuel =
      Gives-bind (vt (branch_tail (in_place prog pro c t) tail) fs sound fuel) (λ x px.
        let fuel_x = enough f false t _ fs x px fuel in
        Gives-bind (ve (branch_tail (in_place prog pro c e) tail) x.1 px.sound fuel_x) (λ y py.
          Gives-bind (vc _ y.1 py.sound (enough f false e _ x.1 y py fuel_x)) (λ z pz.
            (_, refl, condition-Visited prog pro chain long c t e tail fs x y z px py pz))))

  -- A scheme that has an entry.
  entered-Visited :
      (chain : Bool) (k : ℕ) (tail : Form) (fs : Functions) (p : FormPtr)
      → find_fun fs k ≡ some p
      → IsSound prog pro fs
      → Visited prog pro chain (scheme k) tail fs (rec_fn k tail (scheme_name prog k), fs)
  unfolding span
  entered-Visited chain k tail fs p e sound =
      leaf-Visited prog pro chain (scheme k) tail (rec_fn k tail (scheme_name prog k)) fs refl
        (p, e) sound

  pub scheme_zero : (chain : Bool) (k : ℕ) → k < length prog → VisitsWell zero chain (scheme k)
  unfolding visit
  scheme_zero chain k h tail fs sound fuel = elim (Option-cases (find_fun fs k)) [
    | inr (p, e) ↦ rw (visit, e) (_, refl, entered-Visited chain k tail fs p e sound)
    | inl e ↦ absurd (omega (arith, fuel, missing-pos (length prog) k fs h e))
  ]

  get_scheme_lem : (k : ℕ) (s : FScheme) → get_elem? prog k ≡ some s → get_scheme prog k ≡ ok s
  unfolding get_scheme
  get_scheme_lem k s there = rw (get_scheme, there)

  pub scheme_suc :
      (f : ℕ) (chain : Bool) (k : ℕ) (s : FScheme)
      → k < length prog
      → get_elem? prog k ≡ some s
      → VisitsWell f false s.first_node
      → VisitsWell (suc f) chain (scheme k)
  unfolding visit
  scheme_suc f chain k s h there v tail fs sound fuel = elim (Option-cases (find_fun fs k)) [
    | inr (p, e) ↦ rw (visit, e) (_, refl, entered-Visited chain k tail fs p e sound)
    | inl e ↦
        rw (visit, e, get_scheme_lem k s there)
          (Gives-bind
            (v ret (declare_fun k fs) (declare-IsSound prog pro k fs sound)
              (omega (arith, fuel, missing-declare (length prog) k fs h e)))
            (λ x px. (_, refl, scheme-Visited prog pro chain k s tail fs x there px)))
  ]
