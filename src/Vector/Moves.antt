-- ===== src/Vector/Moves.antt =====
-- Source/Evaluator/Context.cpp (`unwind`), Source/Evaluator/LockFreeWorkStealingQueue.h (`push`):
-- the loop that moves elements down in place, front to back, where the ranges may overlap.
use fptl.Prelude.{
  ℕ, suc, ◌+◌, ◌≡◌, sym, ap, ◌∙◌, some, List, [], ◌∷◌, ◌++◌, append_assoc, append-nil, length,
  length-append, get_elem?, get_elem?-append, set-append, take-append, lt→ltb, ok, arith,
}
use fptl.Vector.{copy_down, resize}

module _ {ℓ} {A : Type ℓ} where
  -- One round of the loop, at a position that holds `m` and whose source holds `r`.
  copy_down_step :
      (n src : ℕ) (base tl : List A) (m r : A)
      → get_elem? (base ++ m ∷ tl) src ≡ some r
      → copy_down (suc n) (length base) src (base ++ m ∷ tl)
        ≡ copy_down n (length base + 1) (src + 1) (base ++ r ∷ tl)
  unfolding copy_down
  copy_down_step n src base tl m r e = rw (
    copy_down,
    e,
    lt→ltb (length base) (length (base ++ m ∷ tl)) (omega (arith, length-append base (m ∷ tl))),
    set-append base tl m r,
  )

  copy_down-cong :
      (n : ℕ) {d d' s s' : ℕ} {st st' : List A}
      → d ≡ d'
      → s ≡ s'
      → st ≡ st'
      → copy_down n d s st ≡ copy_down n d' s' st'
  copy_down-cong n p q r = λ i. copy_down n (p i) (q i) (r i)

  -- The position of the first result: behind `base` and `mid`.
  get_elem?-results :
      (base mid rs : List A) (r : A)
      → get_elem? (base ++ (mid ++ r ∷ rs)) (length base + length mid) ≡ some r
  get_elem?-results base mid rs r =
      rw (← append_assoc base mid (r ∷ rs), ← length-append base mid)
        (get_elem?-append (base ++ mid) rs r)

  -- The loop moves `res`, which lies behind `base` and `mid`, down to `base`; what is left of `mid`
  -- and of the old copy stays behind it.
  pub copy_down_lem :
      (res base mid : List A)
      → (left : List A) × (copy_down
            (length res)
            (length base)
            (length base + length mid)
            (base ++ (mid ++ res))
          ≡ ok (base ++ (res ++ left)))
  unfolding copy_down
  copy_down_lem [] base mid = (mid, ap (λ l. ok (base ++ l)) (append-nil mid))
  copy_down_lem (r ∷ rs) base [] =
      let ih = copy_down_lem rs (base ++ r ∷ []) [] in
      (
        ih.0,
        copy_down_step (length rs) (length base + 0) base rs r r (get_elem?-results base [] rs r)
            ∙ copy_down-cong (length rs) (omega (arith, length-append base (r ∷ [])))
                (omega (arith, length-append base (r ∷ []))) (sym (append_assoc base (r ∷ []) rs))
            ∙ ih.1
            ∙ ap ok (append_assoc base (r ∷ []) (rs ++ ih.0)),
      )
  copy_down_lem (r ∷ rs) base (m ∷ ms) =
      let ih = copy_down_lem rs (base ++ r ∷ []) (ms ++ r ∷ []) in
      (
        ih.0,
        copy_down_step (length rs) (length base + suc (length ms)) base (ms ++ r ∷ rs) m r
              (get_elem?-results base (m ∷ ms) rs r)
            ∙ copy_down-cong (length rs) (omega (arith, length-append base (r ∷ [])))
                (omega (arith, length-append base (r ∷ []), length-append ms (r ∷ [])))
                (ap (λ l. base ++ r ∷ l) (sym (append_assoc ms (r ∷ []) rs))
                  ∙ sym (append_assoc base (r ∷ []) ((ms ++ r ∷ []) ++ rs)))
            ∙ ih.1
            ∙ ap ok (append_assoc base (r ∷ []) (rs ++ ih.0)),
      )

  pub resize_prefix :
      (blank : A) (base res left : List A)
      → resize blank (length base + length res) (base ++ (res ++ left)) ≡ base ++ res
  unfolding resize
  resize_prefix blank base res left =
      rw (← append_assoc base res left, ← length-append base res, append_assoc (base ++ res) left)
        (take-append (base ++ res) _)
