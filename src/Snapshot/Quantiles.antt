-- ===== src/Snapshot/Quantiles.antt =====
-- The elements that `valueAt` reads.
use ccmetrics.Base.{
  ℕ, zero, suc, ◌+◌, ◌^◌, ◌≤◌, ◌<◌, ◌≡◌, refl, false, List, [], ◌∷◌, some, length, get_elem?, arith,
  Bool-cases, inl, inr,
}
use ccmetrics.Double.{Double, IsIndexing}
use ccmetrics.Snapshot.{quantile, interpolate, back, value_between, value_of, value_at}

get_elem?-below :
    (values : List ℕ) (i : ℕ) → i < length values → (a : ℕ) × (get_elem? values i ≡ some a)
get_elem?-below [] i h = absurd (omega (arith, h))
get_elem?-below (x ∷ values) zero h = (x, refl)
get_elem?-below (x ∷ values) (suc i) h = get_elem?-below values i (omega (arith, h))

module _ (d : Double) (o : IsIndexing d) where
  value_between-quantile :
      (idx : d.F) (x : ℕ) (values : List ℕ)
      → length (x ∷ values) ≤ 2 ^ 31
      → (v : d.F) × (value_between d idx x values ≡ quantile v)
  unfolding value_between interpolate
  value_between-quantile idx x values short = elim (Bool-cases (d.lt idx d.one_f)) [
    | inl first ↦ (d.of_int x, rw first refl)
    | inr later ↦ elim (Bool-cases (d.lt idx (d.of_int (length (x ∷ values))))) [
      | inr last ↦ (d.of_int (back x values), rw (later, last) refl)
      | inl inner ↦
          let n = length (x ∷ values) in
          let (low_positive, low_inner) = o.sub_one idx n short later inner in
          let (low, at_low) =
            get_elem?-below (x ∷ values) (d.to_int (d.sub idx d.one_f))
              (o.to_int_below (d.sub idx d.one_f) n short low_positive low_inner) in
          let (high, at_high) =
            get_elem?-below (x ∷ values) (d.to_int idx)
              (o.to_int_below idx n short (o.one_above idx later) inner) in
          (
            d.add (d.of_int low)
                (d.mul (d.sub idx (d.floor idx)) (d.sub (d.of_int high) (d.of_int low))),
            rw (later, inner, at_low, at_high) refl,
          )
    ]
  ]

  -- For a quantile from 0 to 1 and at most 2 ^ 31 values, `valueAt` neither throws nor reads beyond
  -- its values, on the standing assumptions about the conversion of doubles to indices.
  pub value_at-quantile :
      (q : d.F) (values : List ℕ)
      → length values ≤ 2 ^ 31
      → d.lt q d.zero_f ≡ false
      → d.lt d.one_f q ≡ false
      → (v : d.F) × (value_at d q values ≡ quantile v)
  unfolding value_at value_of
  value_at-quantile q [] short above below = (d.zero_f, rw (above, below) refl)
  value_at-quantile q (x ∷ values) short above below =
      let (v, e) =
        value_between-quantile (d.mul q (d.of_int (length (x ∷ values) + 1))) x values short in
      (v, rw (above, below) e)
