-- ===== src/Snapshot/Tests.antt =====
-- The theorems about snapshots at concrete inputs: the natural numbers stand for the doubles.
use ccmetrics.Base.{ℕ, ◌-◌, ◌^◌, ◌≡◌, List, [], ◌∷◌, arith}
use ccmetrics.Double.{IsIndexing}
use ccmetrics.Double.Whole.{whole}
use ccmetrics.Snapshot.{quantile, value_at}
use ccmetrics.Snapshot.Quantiles.{value_at-quantile}

-- 7, -1 and 3.
abbrev three_values : List ℕ
three_values = 7 ∷ (2 ^ 64 - 1) ∷ 3 ∷ []

whole-IsIndexing : IsIndexing whole
whole-IsIndexing = record {
  to_int_below = λ x n short positive below. ground (arith, below);
  sub_one = λ x n short positive below. (ground arith, ground (arith, below));
  one_above = λ x h. ground arith;
}

value_at-quantile_example : (v : ℕ) × (value_at whole 1 (3 ∷ 7 ∷ []) ≡ quantile v)
value_at-quantile_example =
    value_at-quantile whole whole-IsIndexing 1 (3 ∷ 7 ∷ []) (omega arith) (ground arith)
      (ground arith)
