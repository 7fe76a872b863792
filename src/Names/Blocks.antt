-- ===== src/Names/Blocks.antt =====
-- Source/Parser/Semantic.cpp: the contexts around a part of the tree.
use fptl.Prelude.{
  ◌≡◌, refl, sym, ap, ◌∙◌, subst, List, [], ◌∷◌, ◌++◌, get_last?, drop_last, get_last?-append,
  drop_last-append, if◌then◌else◌, String, Result, ok, ◌>>=◌, arith,
}
use fptl.Names.{
  Target, TermDescriptor, LexicalContext, SemanticError, NamesChecker, Trees, insert_name, report,
  push_context, pop_context, add_term, define_below, pop_to, add_below, handle_all,
}
use fptl.Names.Bindings.{
  Keeps, KeepsAll, Extends, KeepsAll-refl, Extends-trans, better-Extends, report-Extends,
  insert_name-Keeps, if-Extends,
}

-- The last context of a stack that keeps another's
KeepsAll-snoc :
    (cs : List LexicalContext) (c : LexicalContext) (ds : List LexicalContext)
    → KeepsAll (cs ++ c ∷ []) ds
    → (es : List LexicalContext) × (d : LexicalContext) × (ds ≡ es ++ d ∷ [])
      × KeepsAll cs es
      × Keeps c d
KeepsAll-snoc [] c [] h = absurd h
KeepsAll-snoc [] c (d ∷ []) h = ([], d, refl, tt, h.0)
KeepsAll-snoc [] c (d ∷ e ∷ ds) h = absurd h.1
KeepsAll-snoc (b ∷ cs) c [] h = absurd h
KeepsAll-snoc (b ∷ cs) c (d ∷ ds) (h, hs) =
    let (es, last, e, k, l) = KeepsAll-snoc cs c ds hs in
    (d ∷ es, last, ap (λ r. d ∷ r) e, (h, k), l)

pop_context_lem :
    (s : NamesChecker) (es : List LexicalContext) (d : LexicalContext)
    → s.stack ≡ es ++ d ∷ []
    → pop_context s ≡ ok (record s { context = d; stack = es })
unfolding pop_context pop_to
pop_context_lem s es d e =
    let last = ap get_last? e ∙ get_last?-append es d [] in
    ap (λ o. pop_to o s) last
    ∙ (λ i. ok (record s { context = d; stack = (ap drop_last e ∙ drop_last-append es d) i }))

-- A stack that is not empty
abbrev pub HasGlobal : List LexicalContext → Type 0
HasGlobal stack = (g : LexicalContext) × (rest : List LexicalContext) × (stack ≡ g ∷ rest)

HasGlobal-snoc : (cs : List LexicalContext) (c : LexicalContext) → HasGlobal (cs ++ c ∷ [])
HasGlobal-snoc [] c = (c, [], refl)
HasGlobal-snoc (b ∷ cs) c = (b, cs ++ c ∷ [], refl)

pub HasGlobal-kept : (cs ds : List LexicalContext) → HasGlobal cs → KeepsAll cs ds → HasGlobal ds
HasGlobal-kept [] ds (g, rest, e) h = ground arith
HasGlobal-kept (c ∷ cs) [] has h = absurd h
HasGlobal-kept (c ∷ cs) (d ∷ ds) has h = (d, ds, refl)

-- How a part of the tree is handled
abbrev pub Handled : Result NamesChecker → NamesChecker → Type 0
Handled r s = (t : NamesChecker) × (r ≡ ok t) × Extends s t

-- What stands in a block is handled in a context of its own.
pub enclosed :
    (children : Trees) (before after : NamesChecker → NamesChecker) (s : NamesChecker)
    → ((r : NamesChecker) → Extends r (before r))
    → ((r : NamesChecker) → Extends r (after r))
    → ((r : NamesChecker) → HasGlobal r.stack → Handled (handle_all children r) r)
    → Handled
        (handle_all children (before (push_context s)) >>= λ inner. pop_context (after inner))
        s
unfolding push_context
enclosed children before after s ahead behind inside =
    let r0 = push_context s in
    let r1 = before r0 in
    let (inner, e, kept) =
      inside r1
        (HasGlobal-kept r0.stack r1.stack (HasGlobal-snoc s.stack s.context) (ahead r0).stack) in
    let all =
      Extends-trans r0 r1 (after inner) (ahead r0)
        (Extends-trans r1 inner (after inner) kept (behind inner)) in
    let (es, d, f, k, l) = KeepsAll-snoc s.stack s.context (after inner).stack all.stack in
    (
      record (after inner) { context = d; stack = es },
      ap (λ (r : Result NamesChecker). r >>= λ x. pop_context (after x)) e
          ∙ pop_context_lem (after inner) es d f,
      record { context = l; stack = k; errors = all.errors; targets = all.targets },
    )

pub define_below-Handled :
    (stack : List LexicalContext) (name : String) (t : Target) (s : NamesChecker)
    → s.stack ≡ stack
    → HasGlobal stack
    → Handled (define_below stack name t s) s
unfolding define_below
define_below-Handled [] name t s e (g, rest, f) = ground arith
define_below-Handled (g ∷ rest) name t s e has =
    let next = record s { stack = (insert_name name t g).1 ∷ rest } in
    let kept =
      better-Extends s s.context ((insert_name name t g).1 ∷ rest) (λ x u f. f)
        (subst (λ l. KeepsAll l ((insert_name name t g).1 ∷ rest)) (sym e)
          (insert_name-Keeps name t g, KeepsAll-refl rest)) in
    (
      if (insert_name name t g).0
          then next
          else report (SemanticError.duplicate_definition name) next,
      refl,
      if-Extends (insert_name name t g).0 s next
          (report (SemanticError.duplicate_definition name) next) kept
          (Extends-trans s next (report (SemanticError.duplicate_definition name) next) kept
            (report-Extends (SemanticError.duplicate_definition name) next)),
    )

pub add_below-Handled :
    (stack : List LexicalContext) (term : TermDescriptor) (s : NamesChecker)
    → s.stack ≡ stack
    → HasGlobal stack
    → Handled (add_below stack term s) s
unfolding add_below add_term
add_below-Handled [] term s e (g, rest, f) = ground arith
add_below-Handled (g ∷ rest) term s e has = (
  record s { stack = add_term term g ∷ rest },
  refl,
  better-Extends s s.context (add_term term g ∷ rest) (λ x u f. f)
      (subst (λ l. KeepsAll l (add_term term g ∷ rest)) (sym e) (λ x u f. f, KeepsAll-refl rest)),
)

-- One part after the other
pub then-Handled :
    (r : Result NamesChecker) (next : NamesChecker → Result NamesChecker) (s : NamesChecker)
    → Handled r s
    → ((t : NamesChecker) → Extends s t → Handled (next t) t)
    → Handled (r >>= next) s
then-Handled r next s (t, e, h) k =
    let (u, f, l) = k t h in
    (u, ap (λ (x : Result NamesChecker). x >>= next) e ∙ f, Extends-trans s t u h l)
