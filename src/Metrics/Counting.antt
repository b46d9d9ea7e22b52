-- ===== src/Metrics/Counting.antt =====
-- What a counter and a timer count.
use ccmetrics.Base.{
  ℕ, ◌+◌, ◌%◌, ◌^◌, ◌≤◌, ◌<◌, ◌≡◌, refl, ap, ◌∙◌, List, [], ◌∷◌, Option, none, some, length, arith,
}
use ccmetrics.Double.{Double, IsOrdered}
use ccmetrics.Striped.{add64}
use ccmetrics.Reservoir.{size_limit, snapshot}
use ccmetrics.Reservoir.Bounded.{IsBounded, update-IsBounded, length-snapshot}
use ccmetrics.Snapshot.Sums.{length-new_snapshot}
use ccmetrics.Metrics.{
  CounterImpl, update_counter, inc, dec, Event, observed_in, update_histogram, snapshot_histogram,
  TimerImpl, marked_in, update_timer, count_timer, snapshot_timer,
}

-- `dec` takes back an `inc`, also where the count wraps around.
pub dec-inc : (c : CounterImpl) → c.total < 2 ^ 64 → dec (inc c) ≡ c
unfolding dec inc update_counter
dec-inc c h = ap (λ n. record { total = n }) (omega (arith, h))

module _ (d : Double) (alpha : d.F) (o : IsOrdered d) where
  -- A sequence of updates.
  pub update_all : List (Event d.F) → TimerImpl d alpha → Option (TimerImpl d alpha)
  update_all [] t = some t
  update_all (e ∷ events) t = elim (update_timer d alpha e t) [
    | none ↦ none
    | some t' ↦ update_all events t'
  ]

  -- The rest of the sequence, once the first update is done.
  abbrev then_all : List (Event d.F) → Option (TimerImpl d alpha) → Option (TimerImpl d alpha)
  then_all events none = none
  then_all events (some t) = update_all events t

  -- All the updates come before the next rescaling of the reservoir.
  abbrev pub AreBefore : ℕ → List (Event d.F) → Type 0
  AreBefore next_scale [] = Unit {0}
  AreBefore next_scale (e ∷ events) = (e.now ≤ next_scale) × AreBefore next_scale events

  abbrev next_rescaling : TimerImpl d alpha → ℕ
  next_rescaling t = t.histogram.reservoir.next_scale

  snapshot_short :
      (t : TimerImpl d alpha)
      → IsBounded d alpha o t.histogram.reservoir
      → length (snapshot_timer d alpha t) ≤ size_limit
  unfolding snapshot_timer snapshot_histogram
  snapshot_short t b =
      let r = t.histogram.reservoir in
      omega (arith, b.full, length-new_snapshot (snapshot d alpha r), length-snapshot d alpha o r)

  update_timer-counted :
      (e : Event d.F) (t : TimerImpl d alpha)
      → e.now ≤ next_rescaling t
      → IsBounded d alpha o t.histogram.reservoir
      → (t' : TimerImpl d alpha) × (update_timer d alpha e t ≡ some t')
        × IsBounded d alpha o t'.histogram.reservoir
        × (next_rescaling t' ≡ next_rescaling t)
        × (t'.histogram.observed ≡ add64 t.histogram.observed 1)
  unfolding update_timer update_histogram observed_in marked_in
  update_timer-counted e t early b =
      let (r', got, bounded, _, same) =
        update-IsBounded d alpha o e.now e.random e.duration t.histogram.reservoir early b in
      (
        _,
        ap (λ r. marked_in d alpha e.marked t (observed_in d alpha t.histogram r)) got,
        bounded,
        same,
        refl,
      )

  -- Any number of updates of a timer before the next rescaling of its reservoir all succeed; then
  -- `count` has grown by their number, modulo 2 ^ 64, and the snapshot has at most `kSize` values.
  pub update_all-counted :
      (events : List (Event d.F)) (t : TimerImpl d alpha)
      → AreBefore (next_rescaling t) events
      → IsBounded d alpha o t.histogram.reservoir
      → count_timer d alpha t < 2 ^ 64
      → (t' : TimerImpl d alpha) × (update_all events t ≡ some t')
        × (count_timer d alpha t' ≡ (count_timer d alpha t + length events) % 2 ^ 64)
        × (length (snapshot_timer d alpha t') ≤ size_limit)
  unfolding update_all count_timer
  update_all-counted [] t before b h = (t, refl, omega (arith, h), snapshot_short t b)
  update_all-counted (e ∷ events) t (early, before) b h =
      let (t1, got, bounded, same, one) = update_timer-counted e t early b in
      let (t', all, counted, short) =
        update_all-counted events t1 (rw same before) bounded (omega (arith, one)) in
      (t', ap (then_all events) got ∙ all, omega (arith, counted, one), short)
