-- ===== src/Metrics.antt =====
-- src/metrics/counter_impl.h, src/metrics/histogram.{h,cc} and src/metrics/timer.cc, with the
-- classes of src/ccmetrics/counter.h and src/ccmetrics/timer.h that forward to them: the metrics that
-- are put together from the other components. A striped counter stands as the sum that it holds.
pub mod Counting
mod Tests
use ccmetrics.Base.{ℕ, false, ◌-◌, ◌/◌, ◌^◌, List, Option, none, some}
use ccmetrics.Double.{Double}
use ccmetrics.Striped.{add64}
use ccmetrics.Reservoir.{Reservoir, new_reservoir, update, snapshot}
use ccmetrics.Meter.{MeterImpl, Clock, rate, mark_one}
use ccmetrics.Snapshot.{new_snapshot}

-- `CounterImpl`.
pub record CounterImpl : Type 0 where
  pub total : ℕ

-- `Counter`: the public class, which holds a `CounterImpl` and forwards to it.
abbrev pub Counter : Type 0
Counter = CounterImpl

-- `CounterImpl::update`, `inc` and `dec`; `delta` is a 64-bit pattern.
pub update_counter : ℕ → CounterImpl → CounterImpl
update_counter delta c = record { total = add64 c.total delta }

pub inc : CounterImpl → CounterImpl
unfolding update_counter
inc c = update_counter 1 c

pub dec : CounterImpl → CounterImpl
unfolding update_counter
dec c = update_counter (2 ^ 64 - 1) c

-- What one update of a timer reads from outside: the clock and the random number that the reservoir
-- sees, and the clock that the rates see.
pub record Event (F : Type 0) : Type 0 where
  pub now : ℕ
  pub random : F
  pub marked : Clock
  pub duration : ℕ

module _ (d : Double) (alpha : d.F) where
  -- `Histogram`.
  pub record Histogram : Type 0 where
    pub observed : ℕ
    pub reservoir : Reservoir d alpha

  -- The constructor, at time `now`.
  abbrev pub new_histogram : ℕ → Histogram
  new_histogram now = record { observed = 0; reservoir = new_reservoir d alpha now }

  -- `Histogram::update`, behind `count_.add(1)`: the result of `reservoir_.update`.
  pub observed_in : Histogram → Option (Reservoir d alpha) → Option Histogram
  observed_in h none = none
  observed_in h (some r) = some (record { observed = add64 h.observed 1; reservoir = r })

  -- `Histogram::update`.
  pub update_histogram : (now : ℕ) (random : d.F) (value : ℕ) → Histogram → Option Histogram
  unfolding observed_in
  update_histogram now random value h = observed_in h (update d alpha now random value h.reservoir)

  -- `Histogram::snapshot`: the values of the snapshot.
  pub snapshot_histogram : Histogram → List ℕ
  snapshot_histogram h = new_snapshot (snapshot d alpha h.reservoir) false

  -- `TimerImpl`.
  pub record TimerImpl : Type 0 where
    pub histogram : Histogram
    pub meter : MeterImpl d

  -- `Timer`: the public class, which holds a `TimerImpl` and forwards to it.
  abbrev pub Timer : Type 0
  Timer = TimerImpl

  -- `meter_.mark()`, once the histogram is updated.
  pub marked_in : Clock → TimerImpl → Option Histogram → Option TimerImpl
  marked_in now t none = none
  marked_in now t (some h) = some (record { histogram = h; meter = mark_one d now t.meter })

  -- `TimerImpl::update`.
  pub update_timer : Event d.F → TimerImpl → Option TimerImpl
  unfolding update_histogram marked_in
  update_timer e t = marked_in e.marked t (update_histogram e.now e.random e.duration t.histogram)

  -- `ScopedTimer`, from its constructor at `started` to its destructor at `stopped`, in nanoseconds.
  pub scoped_timer : (started stopped : ℕ) → Event d.F → TimerImpl → Option TimerImpl
  unfolding update_timer
  scoped_timer started stopped e t =
      update_timer (record e { duration = (stopped - started) / 1000 }) t

  -- `TimerImpl::count`, `snapshot` and the rates.
  pub count_timer : TimerImpl → ℕ
  count_timer t = t.histogram.observed

  pub snapshot_timer : TimerImpl → List ℕ
  unfolding snapshot_histogram
  snapshot_timer t = snapshot_histogram t.histogram

  pub one_minute_rate : ℕ → TimerImpl → d.F
  one_minute_rate now t = (rate d now t.meter.one_minute).0

  pub five_minute_rate : ℕ → TimerImpl → d.F
  five_minute_rate now t = (rate d now t.meter.five_minute).0

  pub fifteen_minute_rate : ℕ → TimerImpl → d.F
  fifteen_minute_rate now t = (rate d now t.meter.fifteen_minute).0
