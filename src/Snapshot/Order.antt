-- ===== src/Snapshot/Order.antt =====
-- Sorting, and the extremes of a snapshot.
use ccmetrics.Base.{
  occurrences, ℕ, ◌+◌, ◌≤◌, ◌≡◌, refl, false, List, [], ◌∷◌, ◌==◌, ltb, if◌then◌else◌, arith,
  Bool-cases, inl, inr, ==_iff,
}
use mathlib.Core.Path.{subst}
use ccmetrics.Snapshot.{rank, insert_value, sort, new_snapshot, back, min, max}

-- In ascending order, from `low` on.
abbrev pub IsSorted : ℕ → List ℕ → Type 0
IsSorted low [] = Unit {0}
IsSorted low (x ∷ values) = (low ≤ rank x) × IsSorted (rank x) values

insert_value-IsSorted :
    (low v : ℕ) (values : List ℕ)
    → low ≤ rank v
    → IsSorted low values
    → IsSorted low (insert_value v values)
unfolding insert_value
insert_value-IsSorted low v [] h sorted = (h, tt)
insert_value-IsSorted low v (x ∷ values) h (above, sorted) =
    elim (Bool-cases (ltb (rank x) (rank v))) [
      | inl below ↦
          rw below (above, insert_value-IsSorted (rank x) v values (ground (arith, below)) sorted)
      | inr not_below ↦ rw not_below (h, (ground (arith, not_below), sorted))
    ]

sort-IsSorted : (values : List ℕ) → IsSorted 0 (sort values)
unfolding sort
sort-IsSorted [] = tt
sort-IsSorted (v ∷ values) =
    insert_value-IsSorted 0 v (sort values) (omega arith) (sort-IsSorted values)

occurrences-insert_value :
    (w v : ℕ) (values : List ℕ)
    → occurrences w (insert_value v values) ≡ (if v == w then 1 else 0) + occurrences w values
unfolding insert_value
occurrences-insert_value w v [] = ground arith
occurrences-insert_value w v (x ∷ values) = ground (arith, occurrences-insert_value w v values)

occurrences-sort : (w : ℕ) (values : List ℕ) → occurrences w (sort values) ≡ occurrences w values
unfolding sort
occurrences-sort w [] = refl
occurrences-sort w (v ∷ values) =
    omega (arith, occurrences-insert_value w v (sort values), occurrences-sort w values)

above-low :
    (low w : ℕ) (values : List ℕ) → IsSorted low values → 1 ≤ occurrences w values → low ≤ rank w
above-low low w [] sorted h = absurd (omega arith)
above-low low w (x ∷ values) (above, sorted) h = elim (Bool-cases (x == w)) [
  | inl same ↦ subst (λ y. low ≤ rank y) ((==_iff x w).0 same) above
  | inr differ ↦
      let further : 1 ≤ occurrences w values = grind (arith, h, differ) in
      let rest : rank x ≤ rank w = above-low (rank x) w values sorted further in
      omega (arith, above, rest)
]

low-back : (x : ℕ) (values : List ℕ) → IsSorted (rank x) values → rank x ≤ rank (back x values)
unfolding back
low-back x [] sorted = omega arith
low-back x (y ∷ values) (above, sorted) = omega (arith, above, low-back y values sorted)

below-back :
    (x w : ℕ) (values : List ℕ)
    → IsSorted (rank x) values
    → 1 ≤ occurrences w (x ∷ values)
    → rank w ≤ rank (back x values)
unfolding back
below-back x w [] sorted h = elim (Bool-cases (x == w)) [
  | inl same ↦ subst (λ y. rank y ≤ rank x) ((==_iff x w).0 same) (omega arith)
  | inr differ ↦ absurd (grind (arith, h, differ))
]
below-back x w (y ∷ values) (above, sorted) h = elim (Bool-cases (x == w)) [
  | inl same ↦
      subst (λ z. rank z ≤ rank (back y values)) ((==_iff x w).0 same)
        (omega (arith, above, low-back y values sorted))
  | inr differ ↦ below-back y w values sorted (grind (arith, h, differ))
]

bounds :
    (values : List ℕ)
    → IsSorted 0 values
    → (w : ℕ) → 1 ≤ occurrences w values
    → (rank (min values) ≤ rank w) × (rank w ≤ rank (max values))
unfolding min max
bounds [] sorted w h = absurd (omega (arith, h))
bounds (x ∷ values) (above, sorted) w h =
    (above-low (rank x) w (x ∷ values) (omega arith, sorted) h, below-back x w values sorted h)

-- `min` and `max` of a snapshot that sorts its values are a lower and an upper bound, as signed
-- numbers, of every value that it was given.
pub min-max-bound :
    (values : List ℕ) (w : ℕ)
    → 1 ≤ occurrences w values
    → (rank (min (new_snapshot values false)) ≤ rank w)
      × (rank w ≤ rank (max (new_snapshot values false)))
unfolding new_snapshot
min-max-bound values w h =
    bounds (sort values) (sort-IsSorted values) w (omega (arith, h, occurrences-sort w values))
