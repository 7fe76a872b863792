-- ===== src/Library/Source.antt =====
-- Source/FScheme/FSchemeGenerator.cpp with Source/Libraries: the basic functions that a node of a
-- scheme can have, and the run of programs made of them.
use fptl.Prelude.{
  ℕ, ◌+◌, ◌≡◌, ◌≢◌, refl, ◌⊎◌, inl, inr, sym, ap, ◌∙◌, subst, Bool, true, false, none, some, List,
  [], ◌∷◌, ◌++◌, get_elem?, String, fault, type_mismatch, Result, ok, err, timeout, ◌>>=◌,
  bind_assoc,
}
use fptl.Value.{DataValue, adt}
use fptl.Frame.{Frame, get_arg, push, push_all}
use fptl.Frame.Args.{args, IsPlaced}
use fptl.Scheme.{
  TFunction, Node, function, parallel, sequential, condition, scheme, take_node, constant,
  string_constant, FScheme, Program, push_undefined,
}
use fptl.Evaluator.{new_frame}
use fptl.Form.{Form}
use fptl.Exec.Steps.{Functions}
use fptl.Interpreter.{run_program}
use fptl.Semantics.{eval, IsLocal}
use fptl.Generator.{generate}
use fptl.Ops.{Foreign}
use fptl.Adt.{
  TypeInfo, Constructor, Params, get_type, match_type, collect, of_list, exec_constructor,
  exec_destructor, destruct,
}
use fptl.Library.{functions, get_function}
use fptl.Library.Strings.{string_functions}
use fptl.Library.Strings.Local.{string_functions-AllLocal}
use fptl.Library.Local.{
  arg_of, get_arg-args, PushesAll-IsLocal, Pushes-IsLocal, new_frame-IsPlaced, args-new_frame,
  push_undefined-IsLocal,
}
use fptl.Library.Tables.{AllLocal, AllLocal-append, functions-AllLocal, get_function-IsLocal}
use fptl.Correct.Settles.{Settles}
use fptl.Correct.Measure.{IsCalling, IsProgram}
use fptl.Correct.Generate.{HasLocals, generate-run_program}

-- An argument is the same on the tuple alone.
get_arg-new_frame :
    (fr : Frame) (i : ℕ) → IsPlaced fr → get_arg fr i ≡ get_arg (new_frame (args fr)) i
get_arg-new_frame fr i h =
    get_arg-args fr i h
    ∙ sym (
        get_arg-args (new_frame (args fr)) i (new_frame-IsPlaced (args fr))
        ∙ ap (λ vs. arg_of vs i) (args-new_frame (args fr)))

module _ (ctors : List Constructor) (array_type : ℕ → TypeInfo) where
  collect-new_frame :
      (refs : List TypeInfo) (i : ℕ) (ps : Params) (fr : Frame)
      → IsPlaced fr
      → collect ctors array_type refs i ps fr
        ≡ collect ctors array_type refs i ps (new_frame (args fr))
  unfolding collect
  collect-new_frame [] i ps fr h = refl
  collect-new_frame (ref ∷ refs) i ps fr h = λ j. do
    arg ← get_arg-new_frame fr i h j
    t ← get_type ctors array_type arg
    elim (match_type t ref ps).0 [
      | true ↦ do vs ← collect-new_frame refs (i + 1) (match_type t ref ps).1 fr h j; ok (arg ∷ vs)
      | false ↦ err type_mismatch
    ]

  constructor-IsLocal : (k : ℕ) → IsLocal (exec_constructor ctors array_type k)
  unfolding exec_constructor
  constructor-IsLocal k =
      elim (get_elem? ctors k)
        as (λ o. IsLocal (λ fr. elim o [
          | none ↦ err fault
          | some c ↦ do
            vs ← collect ctors array_type c.reference_type 0 [] fr
            ok (push (adt k (of_list vs)) fr)
        ])) [
          | none ↦ Pushes-IsLocal (λ fr. err fault) (λ vs. err fault) (λ fr h. refl)
          | some c ↦
              Pushes-IsLocal _
                (λ vs. collect ctors array_type c.reference_type 0 [] (new_frame vs) >>= λ ws.
                  ok (adt k (of_list ws)))
                (λ fr h.
                  ap (λ r. r >>= λ vs. ok (push (adt k (of_list vs)) fr))
                    (collect-new_frame c.reference_type 0 [] fr h)
                  ∙ sym (
                      bind_assoc
                        (collect ctors array_type c.reference_type 0 [] (new_frame (args fr))) _ _))
        ]

  destructor-IsLocal : (k : ℕ) → IsLocal (exec_destructor ctors array_type k)
  unfolding exec_destructor
  destructor-IsLocal k =
      PushesAll-IsLocal _ (λ vs. arg_of vs 0 >>= destruct ctors array_type k)
        (λ fr h.
          ap (λ r. r >>= λ arg. destruct ctors array_type k arg >>= λ vs. ok (push_all vs fr))
            (get_arg-args fr 0 h)
          ∙ sym (bind_assoc (arg_of (args fr) 0) (destruct ctors array_type k) _))

  module _ (table : List (String × TFunction × Bool)) where
    -- The functions that the generator of schemes gives to a node: one of the library by its name,
    -- a constructor, a destructor, and the one for a missing `else`.
    abbrev pub FromLibrary : String → TFunction → Type 0
    FromLibrary name fn =
        (fn ≡ (get_function table name).0)
        ⊎ ((k : ℕ) × (fn ≡ exec_constructor ctors array_type k))
        ⊎ ((k : ℕ) × (fn ≡ exec_destructor ctors array_type k))
        ⊎ (fn ≡ push_undefined)

    abbrev pub IsBuilt : Node → Type 0
    IsBuilt (function fn long name p) = FromLibrary name fn
    IsBuilt (parallel long l r) = IsBuilt l × IsBuilt r
    IsBuilt (sequential long l r) = IsBuilt l × IsBuilt r
    IsBuilt (condition long c t e) = IsBuilt c × IsBuilt t × IsBuilt e
    IsBuilt (scheme k) = Unit
    IsBuilt (take_node from to p) = Unit
    IsBuilt (constant v p) = Unit
    IsBuilt (string_constant s p) = Unit

    FromLibrary-IsLocal :
        (name : String) (fn : TFunction) → AllLocal table → FromLibrary name fn → IsLocal fn
    FromLibrary-IsLocal name fn all (inl e) =
        subst IsLocal (sym e) (get_function-IsLocal table name all)
    FromLibrary-IsLocal name fn all (inr (inl (k, e))) =
        subst IsLocal (sym e) (constructor-IsLocal k)
    FromLibrary-IsLocal name fn all (inr (inr (inl (k, e)))) =
        subst IsLocal (sym e) (destructor-IsLocal k)
    FromLibrary-IsLocal name fn all (inr (inr (inr e))) =
        subst IsLocal (sym e) push_undefined-IsLocal

    IsBuilt-HasLocals : AllLocal table → (n : Node) → IsBuilt n → HasLocals n
    IsBuilt-HasLocals all (function fn long name p) b = FromLibrary-IsLocal name fn all b
    IsBuilt-HasLocals all (parallel long l r) (a, b) =
        (IsBuilt-HasLocals all l a, IsBuilt-HasLocals all r b)
    IsBuilt-HasLocals all (sequential long l r) (a, b) =
        (IsBuilt-HasLocals all l a, IsBuilt-HasLocals all r b)
    IsBuilt-HasLocals all (condition long c t e) (a, b, d) =
        (IsBuilt-HasLocals all c a, IsBuilt-HasLocals all t b, IsBuilt-HasLocals all e d)
    IsBuilt-HasLocals all (scheme k) b = tt
    IsBuilt-HasLocals all (take_node from to p) b = tt
    IsBuilt-HasLocals all (constant v p) b = tt
    IsBuilt-HasLocals all (string_constant s p) b = tt

-- When every basic function of a program is a constructor, a destructor or one of the library, where
-- the library has the functions modelled and others that work on their argument tuple only, and the
-- program calls only schemes of its own, then `generate` ends, and what it yields, run on one unit
-- without proactive tasks, ends with enough fuel with the tuple or the exception that the node
-- means.
pub library-run_program :
    (cpp : Foreign) (others : List (String × TFunction × Bool)) (ctors : List Constructor)
    (array_type : ℕ → TypeInfo) (prog : Program) (f : ℕ) (n : Node) (r : Result (List DataValue))
    → AllLocal others
    → IsProgram prog
    → IsCalling prog n
    → ((k : ℕ) (s : FScheme)
        → get_elem? prog k ≡ some s
        → IsBuilt ctors array_type (functions cpp ++ (string_functions cpp ++ others)) s.first_node)
    → IsBuilt ctors array_type (functions cpp ++ (string_functions cpp ++ others)) n
    → eval prog f n [] ≡ r
    → r ≢ timeout
    → (form : Form) × (funs : Functions) × (generate prog false n ≡ ok (form, funs))
      × Settles (run_program funs form) r
library-run_program cpp others ctors array_type prog f n r local calls h built here e not_timeout =
    let table = functions cpp ++ (string_functions cpp ++ others) in
    let all =
      AllLocal-append (functions cpp) (string_functions cpp ++ others) (functions-AllLocal cpp)
        (AllLocal-append (string_functions cpp) others (string_functions-AllLocal cpp) local) in
    generate-run_program prog f n r calls h
      (λ k s there. IsBuilt-HasLocals ctors array_type table all s.first_node (built k s there))
      (IsBuilt-HasLocals ctors array_type table all n here) e not_timeout
