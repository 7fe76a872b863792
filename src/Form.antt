-- ===== src/Form.antt =====
-- Source/InternalForm/InternalForm.h, ControlValue.h: the internal form, code in continuation
-- passing style. A pointer to an internal form that may be null is a `FormPtr`.
use fptl.Prelude.{ℕ, String, List, ◌++◌, [], ◌∷◌}
use fptl.Prelude.Int.{ℤ}
use fptl.Value.{DataValue}
use fptl.Scheme.{TFunction, Pos}

mutual
  pub data Form : Type 0 where
    par_fork : Form → Form → Form
    par_join seq_begin seq_end seq_advance : Form → Form
    cond_start : Form → FormPtr → FormPtr → Form
    cond_choose : FormPtr → FormPtr → Form → Form
    rec_fn : ℕ → Form → String → Form
    ret : Form
    basic_fn : Form → String → Pos → TFunction → Form
    get_args : Form → ℤ → ℤ → Pos → Form
    load_constant : Form → DataValue → Form
    end_op : Form

  pub data FormPtr : Type 0 where
    null : FormPtr
    ref : Form → FormPtr

-- The union `ControlValue`, by the constructor that set it.
pub data ControlValue : Type 0 where
  return_to : Form → ControlValue
  out_arity : ℕ → ControlValue
  saved : ℕ → ℕ → ℕ → ℕ → ControlValue

-- `zeroing` of each class, on the context's vector of exchanged nodes. `InternalForm::cancel` takes
-- its child by value, so that the assignment to it is lost and what remains is the list.
unfoldable mutual
  pub zeroing : Form → List Form → List Form
  zeroing (par_fork l r) ex = zeroing l (ex ++ l ∷ [])
  zeroing (par_join k) ex = zeroing k (ex ++ k ∷ [])
  zeroing (seq_begin k) ex = zeroing k (ex ++ k ∷ [])
  zeroing (seq_end k) ex = zeroing k (ex ++ k ∷ [])
  zeroing (seq_advance k) ex = zeroing k (ex ++ k ∷ [])
  zeroing (cond_start c t e) ex = zeroing c (ex ++ c ∷ [])
  zeroing (cond_choose t e k) ex = zeroing k (zeroing_ptr e (zeroing_ptr t ex) ++ k ∷ [])
  zeroing (rec_fn f k n) ex = ex
  zeroing ret ex = ex
  zeroing (basic_fn k n p fn) ex = zeroing k (ex ++ k ∷ [])
  zeroing (get_args k i j p) ex = zeroing k (ex ++ k ∷ [])
  zeroing (load_constant k v) ex = zeroing k (ex ++ k ∷ [])
  zeroing end_op ex = ex

  pub zeroing_ptr : FormPtr → List Form → List Form
  zeroing_ptr null ex = ex
  zeroing_ptr (ref f) ex = zeroing f (ex ++ f ∷ [])
