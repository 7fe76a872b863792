-- ===== src/Adt/Types.antt =====
-- Source/DataTypes/TypeInfo.cpp: the equality of types.
use text.Mathlib.TextEquality.{eq_iff}
use fptl.Prelude.{ℕ, suc, ◌≡◌, ◌↔◌, Bool, true, ◌&&◌, arith}
use fptl.Prelude.{◌==◌ as eq_ℕ}
use fptl.Adt.{TypeInfo, info, TypeInfos, none_left, more, infos_length, equal_types, equal_infos}

and_true : (a b : Bool) → (a && b) ≡ true → (a ≡ true) × (b ≡ true)
and_true a b h = ground arith

true_and : (a b : Bool) → a ≡ true → b ≡ true → (a && b) ≡ true
true_and a b h k = ground arith

same_pred : (m n : ℕ) → eq_ℕ (suc m) (suc n) ≡ true → eq_ℕ m n ≡ true
same_pred m n h = ground arith

same_suc : (m n : ℕ) → eq_ℕ m n ≡ true → eq_ℕ (suc m) (suc n) ≡ true
same_suc m n h = ground arith

mutual
  unfolding equal_types equal_infos

  types_iff : (t u : TypeInfo) → (equal_types t u ≡ true) ↔ (t ≡ u)
  types_iff (info name params) (info name' params') =
      ground (arith, eq_iff name name', infos_iff params params')

  infos_iff :
      (ts us : TypeInfos)
      → ((eq_ℕ (infos_length ts) (infos_length us) && equal_infos ts us) ≡ true) ↔ (ts ≡ us)
  infos_iff none_left none_left = ground arith
  infos_iff none_left (more u us) = ground arith
  infos_iff (more t ts) none_left = ground arith
  infos_iff (more t ts) (more u us) = (
    (λ h.
        let (size, both) = and_true (eq_ℕ (suc (infos_length ts)) (suc (infos_length us))) _ h in
        let (one, others) = and_true (equal_types t u) (equal_infos ts us) both in
        let p = (types_iff t u).0 one in
        let q =
          (infos_iff ts us).0
            (true_and _ _ (same_pred (infos_length ts) (infos_length us) size) others) in
        λ i. more (p i) (q i)),
    (λ e.
        let p : t ≡ u = cc in
        let q : ts ≡ us = cc in
        let (size, others) =
          and_true (eq_ℕ (infos_length ts) (infos_length us)) (equal_infos ts us)
            ((infos_iff ts us).1 q) in
        true_and (eq_ℕ (suc (infos_length ts)) (suc (infos_length us))) _
          (same_suc (infos_length ts) (infos_length us) size)
          (true_and _ _ ((types_iff t u).1 p) others)),
  )

-- `operator==` finds two types equal exactly when they are the same, with all their parameters.
pub equal_types_iff : (t u : TypeInfo) → (equal_types t u ≡ true) ↔ (t ≡ u)
equal_types_iff t u = types_iff t u
