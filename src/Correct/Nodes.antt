-- ===== src/Correct/Nodes.antt =====
-- Source/InternalForm/Generator.cpp: how the tables and the code of a node come from those of its
-- parts.
use fptl.Prelude.{ℕ, ◌≡◌, refl, ◌∙◌, Bool, true, false, ◌&&◌, some, get_elem?, arith}
use fptl.Scheme.{Node, parallel, condition, scheme, FScheme, Program, is_long}
use fptl.Form.{Form, ref, ret, end_op, par_join, par_fork, cond_choose, cond_start, rec_fn}
use fptl.Exec.Steps.{Functions}
use fptl.Generator.{
  span, declare_fun, define_fun, in_place, branch_tail, placed_branch, forked_branch, scheme_name,
}
use fptl.Correct.Table.{
  IsClosed, IsClosed-Grows, Grows-refl, Grows-trans, IsSound, Visited, declare-Grows, define-Grows,
  define-IsSound, define-KeepsOpen, find-define,
}

module _ (prog : Program) (pro : Bool) where
  -- A node that calls nothing.
  pub leaf-Visited :
      (chain : Bool) (n : Node) (tail form : Form) (fs : Functions)
      → form ≡ span prog pro chain n tail
      → IsClosed fs n
      → IsSound prog pro fs
      → Visited prog pro chain n tail fs (form, fs)
  leaf-Visited chain n tail form fs code closed sound = record {
    code = code;
    closed = closed;
    grows = Grows-refl fs;
    keeps_open = λ k e. e;
    sound = sound;
  }

  -- Two nodes, visited one after the other.
  pub both-Visited :
      (ca cb c : Bool) (a b n : Node) (ta tb t form : Form) (fs : Functions)
      (x y : Form × Functions)
      → Visited prog pro ca a ta fs x
      → Visited prog pro cb b tb x.1 y
      → form ≡ span prog pro c n t
      → (IsClosed y.1 a → IsClosed y.1 b → IsClosed y.1 n)
      → Visited prog pro c n t fs (form, y.1)
  both-Visited ca cb c a b n ta tb t form fs x y va vb code closed = record {
    code = code;
    closed = closed (IsClosed-Grows x.1 y.1 a vb.grows va.closed) vb.closed;
    grows = Grows-trans fs x.1 y.1 va.grows vb.grows;
    keeps_open = λ k e. va.keeps_open k (vb.keeps_open k e);
    sound = vb.sound;
  }

  pub scheme-Visited :
      (chain : Bool) (k : ℕ) (s : FScheme) (tail : Form) (fs : Functions) (x : Form × Functions)
      → get_elem? prog k ≡ some s
      → Visited prog pro false s.first_node ret (declare_fun k fs) x
      → Visited prog pro chain
          (scheme k)
          tail
          fs
          (rec_fn k tail (scheme_name prog k), define_fun k x.0 x.1)
  unfolding span
  scheme-Visited chain k s tail fs x there v = record {
    code = refl;
    closed = (ref x.0, find-define k k x.0 x.1 ∙ ground arith);
    grows = Grows-trans fs (declare_fun k fs) (define_fun k x.0 x.1) (declare-Grows k fs) (
        Grows-trans (declare_fun k fs) x.1 (define_fun k x.0 x.1) v.grows (define-Grows k x.0 x.1));
    keeps_open = define-KeepsOpen k x.0 fs x.1 v.keeps_open;
    sound = define-IsSound prog pro k x.1 s x.0 v.sound there v.code v.closed;
  }

  pub condition-Visited :
      (chain long : Bool) (c t e : Node) (tail : Form) (fs : Functions) (x y z : Form × Functions)
      → Visited prog pro false t (branch_tail (in_place prog pro c t) tail) fs x
      → Visited prog pro false e (branch_tail (in_place prog pro c e) tail) x.1 y
      → Visited prog pro false c
          (cond_choose
            (placed_branch (in_place prog pro c t) x.0)
            (placed_branch (in_place prog pro c e) y.0)
            tail)
          y.1
          z
      → Visited prog pro chain (condition long c t e) tail fs (
        cond_start z.0
            (forked_branch (in_place prog pro c t) x.0)
            (forked_branch (in_place prog pro c e) y.0),
        z.1,
      )
  unfolding span
  condition-Visited chain long c t e tail fs x y z vt ve vc = record {
    code =
        (λ i.
          cond_start (vc.code i) (forked_branch (in_place prog pro c t) (vt.code i))
            (forked_branch (in_place prog pro c e) (ve.code i)))
        ∙ (λ i.
            cond_start
              (span prog pro false c (
                cond_choose (placed_branch (in_place prog pro c t) (vt.code i))
                  (placed_branch (in_place prog pro c e) (ve.code i)) tail))
              (forked_branch (in_place prog pro c t)
                (span prog pro false t (branch_tail (in_place prog pro c t) tail)))
              (forked_branch (in_place prog pro c e)
                (span prog pro false e (branch_tail (in_place prog pro c e) tail))));
    closed = (
      vc.closed,
      IsClosed-Grows y.1 z.1 t vc.grows (IsClosed-Grows x.1 y.1 t ve.grows vt.closed),
      IsClosed-Grows y.1 z.1 e vc.grows ve.closed,
    );
    grows = Grows-trans fs x.1 z.1 vt.grows (Grows-trans x.1 y.1 z.1 ve.grows vc.grows);
    keeps_open = λ k h. vt.keeps_open k (ve.keeps_open k (vc.keeps_open k h));
    sound = vc.sound;
  }

  pub parallel_forked :
      (chain long : Bool) (l r : Node) (tail : Form)
      → is_long prog l && is_long prog r ≡ true
      → span prog pro chain (parallel long l r) tail
        ≡ par_fork (span prog pro false l (par_join tail)) (span prog pro false r end_op)
  unfolding span
  parallel_forked chain long l r tail b = rw (span, b)

  pub parallel_in_line :
      (chain long : Bool) (l r : Node) (tail : Form)
      → is_long prog l && is_long prog r ≡ false
      → span prog pro chain (parallel long l r) tail
        ≡ span prog pro false l (span prog pro false r tail)
  unfolding span
  parallel_in_line chain long l r tail b = rw (span, b)
