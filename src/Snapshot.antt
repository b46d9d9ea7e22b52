-- ===== src/Snapshot.antt =====
-- src/snapshot.cc and src/ccmetrics/snapshot.h: the statistics of a list of numbers. An int64_t is
-- its 64-bit pattern.
pub mod Order
pub mod Sums
pub mod Quantiles
mod Tests
use ccmetrics.Base.{
  ℕ, zero, suc, ◌+◌, ◌-◌, ◌%◌, ◌^◌, Bool, true, false, not, ◌||◌, List, [], ◌∷◌, Option, none, some,
  ltb, if◌then◌else◌, length, get_elem?,
}
use ccmetrics.Double.{Double}
use ccmetrics.Striped.{add64}

-- The place of a pattern in the order of the signed numbers.
abbrev pub rank : ℕ → ℕ
rank a = (a + 2 ^ 63) % 2 ^ 64

-- `std::sort`.
pub insert_value : ℕ → List ℕ → List ℕ
insert_value v [] = v ∷ []
insert_value v (x ∷ values) =
    if ltb (rank x) (rank v) then x ∷ insert_value v values else v ∷ x ∷ values

pub sort : List ℕ → List ℕ
unfolding insert_value
sort [] = []
sort (v ∷ values) = insert_value v (sort values)

-- The constructor: what `values_` holds.
pub new_snapshot : List ℕ → (sorted : Bool) → List ℕ
unfolding sort
new_snapshot values sorted = if sorted then values else sort values

-- `values_->back()`, of a list with the head `x`.
pub back : ℕ → List ℕ → ℕ
back x [] = x
back x (y ∷ values) = back y values

-- `min` and `max`.
pub min : List ℕ → ℕ
min [] = 0
min (x ∷ values) = x

pub max : List ℕ → ℕ
unfolding back
max [] = 0
max (x ∷ values) = back x values

-- The loop of `mean`.
pub sum_values : ℕ → List ℕ → ℕ
sum_values sum [] = sum
sum_values sum (v ∷ values) = sum_values (add64 sum v) values

-- The result of `valueAt`: a value, the exception, or an element that is not there was read.
pub data Quantile (F : Type 0) : Type 0 where
  quantile : F → Quantile F
  invalid_argument : Quantile F
  no_element : Quantile F

module _ (d : Double) where
  open d use {F, zero_f, one_f, lt, add, sub, mul, div, of_int, to_int, floor, sqrt}

  -- `mean`.
  pub mean : List ℕ → F
  unfolding sum_values
  mean [] = zero_f
  mean (x ∷ values) = div (of_int (sum_values 0 (x ∷ values))) (of_int (length (x ∷ values)))

  -- The loop of `stdev`: `n`, `varsum` and `mean`. `varsum` is an int64_t, so that each addition
  -- truncates.
  pub welford : (n varsum : ℕ) → (mean : F) → List ℕ → ℕ × ℕ
  welford n varsum mean [] = (n, varsum)
  welford n varsum mean (value ∷ values) =
      let delta = sub (of_int value) mean in
      let mean' = add mean (div delta (of_int (n + 1))) in
      welford (n + 1) (to_int (add (of_int varsum) (mul delta (sub (of_int value) mean')))) mean'
        values

  -- `stdev`.
  pub stdev : List ℕ → F
  unfolding welford
  stdev values =
      let (n, varsum) = welford 0 0 zero_f values in
      if ltb n 2 then zero_f else sqrt (div (of_int varsum) (of_int (n - 1)))

  -- The interpolation between two elements, if they are there.
  pub interpolate : (idx : F) → Option ℕ → Option ℕ → Quantile F
  interpolate idx (some low) (some high) =
      let x_h = of_int low in
      let x_hnext = of_int high in quantile (add x_h (mul (sub idx (floor idx)) (sub x_hnext x_h)))
  interpolate idx _ _ = no_element

  -- `valueAt` behind its guards, by the head and the tail of the values.
  pub value_between : (idx : F) → ℕ → List ℕ → Quantile F
  unfolding interpolate back
  value_between idx x values =
      if lt idx one_f
      then quantile (of_int x)
      else if lt idx (of_int (length (x ∷ values)))
      then interpolate idx (get_elem? (x ∷ values) (to_int (sub idx one_f)))
          (get_elem? (x ∷ values) (to_int idx))
      else quantile (of_int (back x values))

  -- `if (values_->empty()) return 0`, and the index of the quantile.
  pub value_of : (q : F) → List ℕ → Quantile F
  unfolding value_between
  value_of q [] = quantile zero_f
  value_of q (x ∷ values) = value_between (mul q (of_int (length (x ∷ values) + 1))) x values

  -- `valueAt`.
  pub value_at : (q : F) → List ℕ → Quantile F
  unfolding value_of
  value_at q values = if lt q zero_f || lt one_f q then invalid_argument else value_of q values

  -- A quantile that the header writes as a decimal fraction, `n` over `m`.
  abbrev pub fraction : (n m : ℕ) → F
  fraction n m = div (of_int n) (of_int m)

  -- `median` and the percentiles.
  abbrev pub median : List ℕ → Quantile F
  median values = value_at (fraction 1 2) values

  abbrev pub percentile_75 : List ℕ → Quantile F
  percentile_75 values = value_at (fraction 75 100) values

  abbrev pub percentile_95 : List ℕ → Quantile F
  percentile_95 values = value_at (fraction 95 100) values

  abbrev pub percentile_99 : List ℕ → Quantile F
  percentile_99 values = value_at (fraction 99 100) values

  abbrev pub percentile_999 : List ℕ → Quantile F
  percentile_999 values = value_at (fraction 999 1000) values
