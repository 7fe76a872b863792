-- ===== src/CommandLine/Settings.antt =====
-- Source/Parser/CommandLineParser.cpp: which options pass, and what the collector is given then.
use fptl.Prelude.{
  ℕ, zero, suc, ◌%◌, ◌*◌, ◌^◌, ◌≤◌, ◌<◌, ◌≡◌, ◌⊎◌, refl, sym, subst, ap, ◌∙◌, ◌↔◌, Bool, true,
  false, inl, inr, ◌||◌, Bool-cases, List, [], ◌∷◌, arith,
}
use mathlib.Core.List.{Memᴰ}
use mathlib.Core.List.Memᴰ
use fptl.Prelude.Int.{ℤ, pos, negsuc}
use fptl.Ops.{Foreign}
use fptl.Gc.Collector.{threshold}
use fptl.CommandLine.{
  Options, Complaint, about_cores, about_young, about_old, about_ratio, at_most_zero, check_option,
  to_size, mebibytes, bad_ratio, options_verification, get_gc_config,
}

mebibytes_lem : (n : ℕ) → n < 2 ^ 44 → mebibytes n ≡ n * 1048576
unfolding mebibytes
mebibytes_lem n h = omega arith

mebibytes-wraps : (k : ℕ) → mebibytes (k * 2 ^ 44) ≡ 0
unfolding mebibytes
mebibytes-wraps k = omega arith

to_size-pos : (n : ℕ) → n < 2 ^ 64 → to_size (pos n) ≡ n
unfolding to_size
to_size-pos n h = omega arith

size_of_pos : (n : ℕ) → n < 2 ^ 44 → mebibytes (to_size (pos n)) ≡ n * 1048576
size_of_pos n h = ap mebibytes (to_size-pos n (omega arith)) ∙ mebibytes_lem n h

positive_of : (n : ℕ) → at_most_zero (pos n) ≡ false → 0 < n
unfolding at_most_zero
positive_of zero e = cc e
positive_of (suc n) e = omega arith

positive_at : (n : ℕ) → 0 < n → at_most_zero (pos n) ≡ false
unfolding at_most_zero
positive_at zero h = absurd (omega arith)
positive_at (suc n) h = refl

-- A ratio that is cut off to 0 or 1
threshold_of :
    (size m whole : ℕ)
    → size ≡ m * 1048576
    → m < 2 ^ 44
    → whole ≤ 1
    → (threshold size whole % 2 ^ 64 ≡ 0) ⊎ (threshold size whole % 2 ^ 64 ≡ m * 1048576)
unfolding threshold
threshold_of size m zero e h k = inl (omega arith)
threshold_of size m (suc zero) e h k = inr (omega arith)
threshold_of size m (suc (suc w)) e h k = absurd (omega arith)

flag_lem :
    (b : Bool) (c : Complaint) (s : Bool × List Complaint)
    → ((check_option b c s).0 ≡ true) ↔ ((b ≡ false) × (s.0 ≡ true))
unfolding check_option
flag_lem true c s = ground arith
flag_lem false c s = ground arith

said_lem :
    (b : Bool) (c d : Complaint) (s : Bool × List Complaint)
    → Memᴰ d (check_option b c s).1 ↔ (Memᴰ d s.1 ⊎ ((b ≡ true) × (d ≡ c)))
unfolding check_option
said_lem true c d s = (
  λ m. elim (Memᴰ.append_cases s.1 m) [
    | inl before ↦ inl before
    | inr last ↦ inr (refl, Memᴰ.eq_of_singleton last)
  ],
  λ h. elim h [
    | inl before ↦ Memᴰ.append_left (c ∷ []) before
    | inr (_, same) ↦ Memᴰ.append_right s.1 (Memᴰ.head same)
  ],
)
said_lem false c d s = (inl, λ h. elim h [ inl before ↦ before | inr (no_test, _) ↦ cc no_test ])

module _ (cpp : Foreign) where
  -- Whether an option is out of its range
  abbrev pub fails : Options → Complaint → Bool
  fails o about_cores = at_most_zero o.num_cores
  fails o about_young = at_most_zero o.young_gen
  fails o about_old = at_most_zero o.old_gen
  fails o about_ratio = bad_ratio cpp o.old_gen_ratio

  options_verification-fails :
      (o : Options)
      → (((options_verification cpp o).0 ≡ true) ↔ ((c : Complaint) → fails o c ≡ false))
        × ((c : Complaint) → Memᴰ c (options_verification cpp o).1 ↔ (fails o c ≡ true))
  unfolding options_verification
  options_verification-fails o =
      let one = check_option (at_most_zero o.num_cores) about_cores (true, []) in
      let two = check_option (at_most_zero o.young_gen) about_young one in
      let three = check_option (at_most_zero o.old_gen) about_old two in
      (
        (
          λ e.
              let (ratio, e3) = (flag_lem (bad_ratio cpp o.old_gen_ratio) about_ratio three).0 e in
              let (old, e2) = (flag_lem (at_most_zero o.old_gen) about_old two).0 e3 in
              let (young, e1) = (flag_lem (at_most_zero o.young_gen) about_young one).0 e2 in
              let (cores, _) = (flag_lem (at_most_zero o.num_cores) about_cores (true, [])).0 e1 in
              λ c. each o c cores young old ratio,
          λ h. (flag_lem (bad_ratio cpp o.old_gen_ratio) about_ratio three).1 (
            h about_ratio,
            (flag_lem (at_most_zero o.old_gen) about_old two).1 (
              h about_old,
              (flag_lem (at_most_zero o.young_gen) about_young one).1 (
                h about_young,
                (flag_lem (at_most_zero o.num_cores) about_cores (true, [])).1
                    (h about_cores, refl),
              ),
            ),
          ),
        ),
        λ c. (
          λ m. elim ((said_lem (bad_ratio cpp o.old_gen_ratio) about_ratio c three).0 m) [
            | inr (e, same) ↦ subst (λ x. fails o x ≡ true) (sym same) e
            | inl m3 ↦ elim ((said_lem (at_most_zero o.old_gen) about_old c two).0 m3) [
              | inr (e, same) ↦ subst (λ x. fails o x ≡ true) (sym same) e
              | inl m2 ↦ elim ((said_lem (at_most_zero o.young_gen) about_young c one).0 m2) [
                | inr (e, same) ↦ subst (λ x. fails o x ≡ true) (sym same) e
                | inl m1 ↦
                    elim ((said_lem (at_most_zero o.num_cores) about_cores c (true, [])).0 m1) [
                      | inr (e, same) ↦ subst (λ x. fails o x ≡ true) (sym same) e
                      | inl none ↦ absurd (Memᴰ.not-nil none)
                    ]
              ]
            ]
          ],
          said o c,
        ),
      )
    where
      each :
          (p : Options) (c : Complaint)
          → at_most_zero p.num_cores ≡ false
          → at_most_zero p.young_gen ≡ false
          → at_most_zero p.old_gen ≡ false
          → bad_ratio cpp p.old_gen_ratio ≡ false
          → fails p c ≡ false
      each p about_cores a b d e = a
      each p about_young a b d e = b
      each p about_old a b d e = d
      each p about_ratio a b d e = e

      said :
          (p : Options) (c : Complaint) → fails p c ≡ true → Memᴰ c (options_verification cpp p).1
      said p about_ratio e =
          (said_lem (bad_ratio cpp p.old_gen_ratio) about_ratio about_ratio _).1 (inr (e, refl))
      said p about_old e =
          (said_lem (bad_ratio cpp p.old_gen_ratio) about_ratio about_old _).1
            (inl ((said_lem (at_most_zero p.old_gen) about_old about_old _).1 (inr (e, refl))))
      said p about_young e =
          (said_lem (bad_ratio cpp p.old_gen_ratio) about_ratio about_young _).1 (
            inl (
              (said_lem (at_most_zero p.old_gen) about_old about_young _).1 (
                inl (
                  (said_lem (at_most_zero p.young_gen) about_young about_young _).1
                    (inr (e, refl))))))
      said p about_cores e =
          (said_lem (bad_ratio cpp p.old_gen_ratio) about_ratio about_cores _).1 (
            inl (
              (said_lem (at_most_zero p.old_gen) about_old about_cores _).1 (
                inl (
                  (said_lem (at_most_zero p.young_gen) about_young about_cores _).1 (
                    inl (
                      (said_lem (at_most_zero p.num_cores) about_cores about_cores _).1
                        (inr (e, refl))))))))

  -- An integer that is not positive
  abbrev NotPositive : ℤ → Type 0
  NotPositive z = (z ≡ pos 0) ⊎ ((n : ℕ) × (z ≡ negsuc n))

  -- The options that are not allowed: a count or a size that is not positive, and a ratio that is
  -- less than 0, equal to it, or greater than 1.
  abbrev pub IsWrong : Options → Complaint → Type 0
  IsWrong o about_cores = NotPositive o.num_cores
  IsWrong o about_young = NotPositive o.young_gen
  IsWrong o about_old = NotPositive o.old_gen
  IsWrong o about_ratio =
      (cpp.is_lt o.old_gen_ratio cpp.zero_double ≡ true)
      ⊎ (cpp.is_eq o.old_gen_ratio cpp.zero_double ≡ true)
      ⊎ (cpp.is_lt (cpp.from_int (pos 1)) o.old_gen_ratio ≡ true)

  at_most_zero_iff : (z : ℤ) → (at_most_zero z ≡ true) ↔ NotPositive z
  unfolding at_most_zero
  at_most_zero_iff (pos zero) = (λ e. inl refl, λ e. refl)
  at_most_zero_iff (pos (suc n)) =
      (λ e. cc e, λ h. elim h [ inl e ↦ absurd (suc-pos e) | inr (m, e) ↦ absurd (cc e) ])
    where
      suc-pos : pos (suc n) ≡ pos 0 → ⊥
      suc-pos e = ground arith
  at_most_zero_iff (negsuc n) = (λ e. inr (n, refl), λ h. refl)

  or_iff : (a b c : Bool) → (((a || b) || c) ≡ true) ↔ ((a ≡ true) ⊎ (b ≡ true) ⊎ (c ≡ true))
  or_iff true b c = (λ e. inl refl, λ h. refl)
  or_iff false true c = (λ e. inr (inl refl), λ h. refl)
  or_iff false false true = (λ e. inr (inr refl), λ h. refl)
  or_iff false false false = ground arith

  fails_iff : (o : Options) (c : Complaint) → (fails o c ≡ true) ↔ IsWrong o c
  unfolding bad_ratio
  fails_iff o about_cores = at_most_zero_iff o.num_cores
  fails_iff o about_young = at_most_zero_iff o.young_gen
  fails_iff o about_old = at_most_zero_iff o.old_gen
  fails_iff o about_ratio = or_iff _ _ _

  -- The options pass exactly when none is wrong: the numbers are positive, and the ratio is neither
  -- less than 0, nor equal to it, nor greater than 1. Each that is wrong, and no other, is complained
  -- about, also when several are.
  pub options_verification_lem :
      (o : Options)
      → (((options_verification cpp o).0 ≡ true) ↔ ((c : Complaint) → ¬ IsWrong o c))
        × ((c : Complaint) → Memᴰ c (options_verification cpp o).1 ↔ IsWrong o c)
  options_verification_lem o =
      let ((passes, back), said) = options_verification-fails o in
      (
        (
          λ e c wrong. cc (passes e c, (fails_iff o c).1 wrong),
          λ h. back (λ c. elim (Bool-cases (fails o c)) [
            | inl e ↦ absurd (h c ((fails_iff o c).0 e))
            | inr e ↦ e
          ]),
        ),
        λ c. (λ m. (fails_iff o c).0 ((said c).0 m), λ wrong. (said c).1 ((fails_iff o c).1 wrong)),
      )

  -- Options that pass and are below 2 ^ 44 MiB give the collector the sizes of the two generations
  -- that they say, and neither is 0. Where the conversion of the ratio drops its fraction, the threshold for a full collection
  -- is 0 or the whole old generation.
  pub get_gc_config_lem :
      (o : Options) (whole : ℕ → ℕ) (n m : ℕ)
      → (options_verification cpp o).0 ≡ true
      → o.young_gen ≡ pos n
      → o.old_gen ≡ pos m
      → n < 2 ^ 44
      → m < 2 ^ 44
      → whole o.old_gen_ratio ≤ 1
      → ((get_gc_config whole o).young_gen_size ≡ n * 1048576)
        × (0 < (get_gc_config whole o).young_gen_size)
        × ((get_gc_config whole o).old_gen_size ≡ m * 1048576)
        × (0 < (get_gc_config whole o).old_gen_size)
        × (((get_gc_config whole o).old_gen_threshold ≡ 0)
            ⊎ ((get_gc_config whole o).old_gen_threshold ≡ m * 1048576))
  unfolding get_gc_config
  get_gc_config_lem o whole n m passes young old small_young small_old fraction =
      let fits = (options_verification-fails o).0.0 passes in
      let young_size : mebibytes (to_size o.young_gen) ≡ n * 1048576 =
        ap (λ z. mebibytes (to_size z)) young ∙ size_of_pos n small_young in
      let old_size : mebibytes (to_size o.old_gen) ≡ m * 1048576 =
        ap (λ z. mebibytes (to_size z)) old ∙ size_of_pos m small_old in
      let positive : 0 < n = positive_of n (sym (ap at_most_zero young) ∙ fits about_young) in
      let positive_old : 0 < m = positive_of m (sym (ap at_most_zero old) ∙ fits about_old) in
      (
        young_size,
        omega arith,
        old_size,
        omega arith,
        threshold_of (mebibytes (to_size o.old_gen)) m (whole o.old_gen_ratio) old_size small_old
            fraction,
      )

  -- A size for the young generation that is a multiple of 2 ^ 44 MiB passes and wraps around to 0.
  pub wraps_lem :
      (o : Options) (whole : ℕ → ℕ) (k : ℕ)
      → o.young_gen ≡ pos (suc k * 2 ^ 44)
      → suc k * 2 ^ 44 < 2 ^ 63
      → (fails o about_young ≡ false) × ((get_gc_config whole o).young_gen_size ≡ 0)
  unfolding get_gc_config
  wraps_lem o whole k e small = (
    ap at_most_zero e ∙ positive_at (suc k * 2 ^ 44) (omega arith),
    ap (λ z. mebibytes (to_size z)) e
        ∙ ap mebibytes (to_size-pos (suc k * 2 ^ 44) (omega arith))
        ∙ mebibytes-wraps (suc k),
  )
