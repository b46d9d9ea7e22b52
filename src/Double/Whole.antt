-- ===== src/Double/Whole.antt =====
-- Natural numbers in place of the doubles, for tests on concrete inputs.
use ccmetrics.Base.{arith, ◌+◌, ◌-◌, ◌*◌, ℕ, ltb}
use ccmetrics.Double.{Double, IsOrdered}

abbrev pub whole : Double
whole = record {
  F = ℕ;
  zero_f = 0;
  one_f = 1;
  lt = ltb;
  add = λ a b. a + b;
  sub = λ a b. a - b;
  mul = λ a b. a * b;
  div = λ a b. a;
  neg = λ a. a;
  exp = λ a. a + 1;
  of_int = λ n. n;
  to_int = λ n. n;
  floor = λ n. n;
  sqrt = λ n. n;
  seconds = λ n. n;
}

pub whole-IsOrdered : IsOrdered whole
whole-IsOrdered = record {
  irreflexive = λ a. ground arith;
  transitive = λ a b c. ground arith;
  connected = λ a b. ground arith;
}
