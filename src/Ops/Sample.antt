-- ===== src/Ops/Sample.antt =====
-- A C++ library in which a double is a whole number, for the tests.
use fptl.Prelude.{◌+◌, ◌-◌, ◌*◌, ◌/◌, ltb, ◌==◌, ok, err, fault, none, some, [], ◌∷◌, length}
use fptl.Prelude.Int.{pos, magnitude}
use fptl.Ops.{Foreign}

abbrev pub whole_numbers : Foreign
whole_numbers = record {
  zero_double = 0;
  pi = 3;
  euler = 2;
  from_int = magnitude;
  to_int64 = λ x. ok (pos x);
  plus = ◌+◌;
  minus = ◌-◌;
  times = ◌*◌;
  over = ◌/◌;
  is_eq = ◌==◌;
  is_lt = ltb;
  fabs = λ x. x;
  half_up = λ x. x;
  sqrt = λ x. x;
  exp = λ x. x;
  log = λ x. x;
  sin = λ x. x;
  cos = λ x. x;
  tan = λ x. x;
  asin = λ x. x;
  atan = λ x. x;
  cast_int = λ s. ok (pos (length s));
  cast_double = λ s. err fault;
  regex_search = λ text pattern. ok (some ((0, 2) ∷ (1, 2) ∷ []));
  regex_match = λ text pattern. ok none;
  regex_replace = λ text pattern format. ok format;
}
