-- ===== src/Snapshot/Sums.antt =====
-- `mean`, and the sum of the sorted values.
use ccmetrics.Base.{
  ℕ, ◌+◌, ◌≤◌, ◌≡◌, refl, sym, ap, ◌∙◌, false, List, [], ◌∷◌, ltb, length, arith, Bool-cases, inl,
  inr,
}
use ccmetrics.Double.{Double}
use ccmetrics.Striped.{add64}
use ccmetrics.Snapshot.{rank, insert_value, sort, new_snapshot, sum_values, mean}

sum_values-insert_value :
    (sum v : ℕ) (values : List ℕ)
    → sum_values sum (insert_value v values) ≡ sum_values (add64 sum v) values
unfolding sum_values insert_value
sum_values-insert_value sum v [] = refl
sum_values-insert_value sum v (x ∷ values) = elim (Bool-cases (ltb (rank x) (rank v))) [
  | inl below ↦
      rw below (
        sum_values-insert_value (add64 sum x) v values
        ∙ ap (λ s. sum_values s values) (omega arith))
  | inr above ↦ rw above refl
]

sum_values-sort : (sum : ℕ) (values : List ℕ) → sum_values sum (sort values) ≡ sum_values sum values
unfolding sum_values sort
sum_values-sort sum [] = refl
sum_values-sort sum (v ∷ values) =
    sum_values-insert_value sum v (sort values) ∙ sum_values-sort (add64 sum v) values

length-insert_value : (v : ℕ) (values : List ℕ) → length (insert_value v values) ≡ length values + 1
unfolding insert_value
length-insert_value v [] = omega arith
length-insert_value v (x ∷ values) = ground (arith, length-insert_value v values)

pub length-sort : (values : List ℕ) → length (sort values) ≡ length values
unfolding sort
length-sort [] = refl
length-sort (v ∷ values) = omega (arith, length-insert_value v (sort values), length-sort values)

pub length-new_snapshot : (values : List ℕ) → length (new_snapshot values false) ≡ length values
unfolding new_snapshot
length-new_snapshot values = length-sort values

mean-cons :
    (d : Double) (values : List ℕ)
    → 1 ≤ length values
    → mean d values ≡ d.div (d.of_int (sum_values 0 values)) (d.of_int (length values))
unfolding mean
mean-cons d [] h = absurd (omega (arith, h))
mean-cons d (v ∷ values) h = refl

-- `mean` of a snapshot that sorts its values is that of the values as they were given: sorting
-- changes neither their sum, which wraps around, nor their number.
pub mean-sort : (d : Double) (values : List ℕ) → mean d (new_snapshot values false) ≡ mean d values
unfolding new_snapshot
mean-sort d [] = unfold sort in refl
mean-sort d (v ∷ values) =
    mean-cons d (sort (v ∷ values)) (omega (arith, length-sort (v ∷ values)))
    ∙ ap (λ sum. d.div (d.of_int sum) (d.of_int (length (sort (v ∷ values)))))
        (sum_values-sort 0 (v ∷ values))
    ∙ ap (λ n. d.div (d.of_int (sum_values 0 (v ∷ values))) (d.of_int n)) (length-sort (v ∷ values))
    ∙ sym (mean-cons d (v ∷ values) (omega arith))
