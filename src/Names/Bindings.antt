-- ===== src/Names/Bindings.antt =====
-- Source/Parser/Semantic.cpp: what the checker keeps while it goes through a tree.
use fptl.Prelude.{
  ◌≡◌, refl, sym, ap, ◌∙◌, inl, inr, Bool, true, false, Bool-cases, Option, none, some, List, [],
  ◌∷◌, ◌++◌, append-nil, append_assoc, if◌then◌else◌, String, ℕ, not, ◌&&◌,
}
use fptl.Prelude.{◌==◌ as eq_ℕ}
use text.Mathlib.TextEquality.{eq_iff}
use text.Mathlib.Text.{◌==◌}
use fptl.Names.{
  Target, TermDescriptor, LexicalContext, SemanticError, NamesChecker, find_name, insert_name,
  report, define, define_all, look_up, check_name, check_all, check_names, check_main, insert_where,
  check_found,
}

-- Every name keeps what it stands for.
abbrev pub Keeps : LexicalContext → LexicalContext → Type 0
Keeps c d =
    (name : String) (t : Target)
    → find_name name c.definitions ≡ some t
    → find_name name d.definitions ≡ some t

abbrev pub KeepsAll : List LexicalContext → List LexicalContext → Type 0
KeepsAll [] [] = Unit
KeepsAll (c ∷ cs) (d ∷ ds) = Keeps c d × KeepsAll cs ds
KeepsAll [] (d ∷ ds) = ⊥
KeepsAll (c ∷ cs) [] = ⊥

-- The contexts are as many, each keeps its names, and no error and no bound name is forgotten.
pub record Extends (s t : NamesChecker) : Type 0 where
  pub context : Keeps s.context t.context
  pub stack : KeepsAll s.stack t.stack
  pub errors : (more : List SemanticError) × (t.errors ≡ s.errors ++ more)
  pub targets : (more : List (ℕ × ℕ)) × (t.targets ≡ s.targets ++ more)

pub KeepsAll-refl : (cs : List LexicalContext) → KeepsAll cs cs
KeepsAll-refl [] = tt
KeepsAll-refl (c ∷ cs) = (λ name t e. e, KeepsAll-refl cs)

KeepsAll-trans : (bs cs ds : List LexicalContext) → KeepsAll bs cs → KeepsAll cs ds → KeepsAll bs ds
KeepsAll-trans [] [] [] h k = tt
KeepsAll-trans [] [] (d ∷ ds) h k = k
KeepsAll-trans [] (c ∷ cs) ds h k = absurd h
KeepsAll-trans (b ∷ bs) [] ds h k = absurd h
KeepsAll-trans (b ∷ bs) (c ∷ cs) [] h k = absurd k
KeepsAll-trans (b ∷ bs) (c ∷ cs) (d ∷ ds) (h, hs) (k, ks) =
    (λ name t e. k name t (h name t e), KeepsAll-trans bs cs ds hs ks)

pub Extends-refl : (s : NamesChecker) → Extends s s
Extends-refl s = record {
  context = λ name t e. e;
  stack = KeepsAll-refl s.stack;
  errors = ([], sym (append-nil s.errors));
  targets = ([], sym (append-nil s.targets));
}

pub Extends-trans : (r s t : NamesChecker) → Extends r s → Extends s t → Extends r t
Extends-trans r s t h k =
    let (one, e) = h.errors in
    let (two, f) = k.errors in
    let (bound, g) = h.targets in
    let (more, l) = k.targets in
    record {
      context = λ name x found. k.context name x (h.context name x found);
      stack = KeepsAll-trans r.stack s.stack t.stack h.stack k.stack;
      errors = (one ++ two, f ∙ ap (λ l. l ++ two) e ∙ append_assoc r.errors one two);
      targets = (bound ++ more, l ∙ ap (λ x. x ++ more) g ∙ append_assoc r.targets bound more);
    }

-- With the same contexts, or better ones
pub better-Extends :
    (s : NamesChecker) (c : LexicalContext) (cs : List LexicalContext)
    → Keeps s.context c
    → KeepsAll s.stack cs
    → Extends s (record s { context = c; stack = cs })
better-Extends s c cs h k = record {
  context = h;
  stack = k;
  errors = ([], sym (append-nil s.errors));
  targets = ([], sym (append-nil s.targets));
}

pub report-Extends : (e : SemanticError) (s : NamesChecker) → Extends s (report e s)
unfolding report
report-Extends e s = record {
  context = λ name t f. f;
  stack = KeepsAll-refl s.stack;
  errors = (e ∷ [], refl);
  targets = ([], sym (append-nil s.targets));
}

insert_where-Keeps :
    (o : Option Target) (name : String) (t : Target) (c : LexicalContext)
    → find_name name c.definitions ≡ o
    → Keeps c (insert_where o name t c).1
unfolding insert_where find_name
insert_where-Keeps (some bound) name t c e other u f = f
insert_where-Keeps none name t c free other u f = elim (Bool-cases (name == other)) [
  | inl same ↦
      absurd (cc (f, ap (λ x. find_name x c.definitions) ((eq_iff name other).0 same), free))
  | inr differ ↦ simp differ f
]

pub insert_name-Keeps :
    (name : String) (t : Target) (c : LexicalContext) → Keeps c (insert_name name t c).1
unfolding insert_name
insert_name-Keeps name t c = insert_where-Keeps (find_name name c.definitions) name t c refl

pub define-Extends : (name : String) (t : Target) (s : NamesChecker) → Extends s (define name t s)
unfolding define
define-Extends name t s =
    let next = record s { context = (insert_name name t s.context).1 } in
    let kept =
      better-Extends s (insert_name name t s.context).1 s.stack (insert_name-Keeps name t s.context)
        (KeepsAll-refl s.stack) in
    elim (Bool-cases (insert_name name t s.context).0) [
      | inl new ↦ simp new kept
      | inr taken ↦ simp taken (
          Extends-trans s next (report (SemanticError.duplicate_definition name) next) kept
            (report-Extends (SemanticError.duplicate_definition name) next))
    ]

pub define_all-Extends :
    (defs : List (String × Target)) (s : NamesChecker) → Extends s (define_all defs s)
unfolding define_all
define_all-Extends [] s = Extends-refl s
define_all-Extends ((name, t) ∷ rest) s =
    Extends-trans s (define name t s) (define_all rest (define name t s)) (define-Extends name t s)
      (define_all-Extends rest (define name t s))

pub if-Extends :
    (b : Bool) (r s t : NamesChecker) → Extends r s → Extends r t → Extends r (if b then s else t)
if-Extends true r s t h k = h
if-Extends false r s t h k = k

targets-Extends :
    (s : NamesChecker) (l : List (ℕ × ℕ)) → Extends s (record s { targets = s.targets ++ l })
targets-Extends s l = record {
  context = λ name t e. e;
  stack = KeepsAll-refl s.stack;
  errors = ([], sym (append-nil s.errors));
  targets = (l, refl);
}

check_found-Extends :
    (o : Option Target) (term : TermDescriptor) (s : NamesChecker)
    → Extends s (check_found o term s)
unfolding check_found
check_found-Extends none term s =
    report-Extends (SemanticError.undefined_identifier term.term_name) s
check_found-Extends (some t) term s =
    let wrong = report (SemanticError.undefined_scheme_name term.term_name) s in
    let scheme : NamesChecker = if term.running && not t.is_function then wrong else s in
    let kept =
      if-Extends (term.running && not t.is_function) s wrong s
        (report-Extends (SemanticError.undefined_scheme_name term.term_name) s) (Extends-refl s) in
    let bound = record scheme { targets = scheme.targets ++ (term.node, t.target) ∷ [] } in
    let counted = report (SemanticError.invalid_number_of_parameters term.term_name) scheme in
    if-Extends (eq_ℕ term.arguments t.parameters) s bound counted
      (Extends-trans s scheme bound kept (targets-Extends scheme ((term.node, t.target) ∷ [])))
      (Extends-trans s scheme counted kept
        (report-Extends (SemanticError.invalid_number_of_parameters term.term_name) scheme))

check_name-Extends : (term : TermDescriptor) (s : NamesChecker) → Extends s (check_name term s)
unfolding check_name
check_name-Extends term s = check_found-Extends (look_up term.term_name s) term s

check_all-Extends : (terms : List TermDescriptor) (s : NamesChecker) → Extends s (check_all terms s)
unfolding check_all
check_all-Extends [] s = Extends-refl s
check_all-Extends (term ∷ rest) s =
    Extends-trans s (check_name term s) (check_all rest (check_name term s))
      (check_name-Extends term s) (check_all-Extends rest (check_name term s))

pub check_names-Extends : (s : NamesChecker) → Extends s (check_names s)
unfolding check_names
check_names-Extends s = check_all-Extends s.context.terms s

pub check_main-Extends :
    (name : String) (main : Bool) (s : NamesChecker) → Extends s (check_main name main s)
unfolding check_main
check_main-Extends name true s = Extends-refl s
check_main-Extends name false s = report-Extends (SemanticError.missing_main_definition name) s
