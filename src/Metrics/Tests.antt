-- ===== src/Metrics/Tests.antt =====
-- The theorems about the metrics at concrete inputs: the natural numbers stand for the doubles.
use ccmetrics.Base.{ℕ, ◌+◌, ◌-◌, ◌%◌, ◌^◌, ◌≤◌, ◌≡◌, List, [], ◌∷◌, some, length, arith}
use ccmetrics.Double.Whole.{whole, whole-IsOrdered}
use ccmetrics.Reservoir.{size_limit, new_reservoir}
use ccmetrics.Reservoir.Bounded.{IsBounded}
use ccmetrics.Meter.{new_rate}
use ccmetrics.Metrics.{CounterImpl, Event, TimerImpl, new_histogram, count_timer, snapshot_timer}
use ccmetrics.Metrics.Counting.{update_all, update_all-counted}

abbrev full_counter : CounterImpl
full_counter = record { total = 2 ^ 64 - 1 }

abbrev new_timer : TimerImpl whole 1
new_timer = record {
  histogram = new_histogram whole 1 0;
  meter = record {
    one_minute = new_rate whole 3 0;
    five_minute = new_rate whole 2 0;
    fifteen_minute = new_rate whole 1 0;
  };
}

abbrev event_at : ℕ → ℕ → Event ℕ
event_at now duration = record {
  now = now;
  random = 0;
  marked = record { first = now; second = now; third = now };
  duration = duration;
}

abbrev two_events : List (Event ℕ)
two_events = event_at 10 300 ∷ event_at 20 500 ∷ []

new_timer-IsBounded : IsBounded whole 1 whole-IsOrdered (new_reservoir whole 1 0)
new_timer-IsBounded = record { full = omega arith; counted = omega arith }

update_all-counted_example :
    (t : TimerImpl whole 1) × (update_all whole 1 whole-IsOrdered two_events new_timer ≡ some t)
    × (count_timer whole 1 t ≡ (0 + 2) % 2 ^ 64)
    × (length (snapshot_timer whole 1 t) ≤ size_limit)
unfolding count_timer
update_all-counted_example =
    update_all-counted whole 1 whole-IsOrdered two_events new_timer (omega arith, (omega arith, tt))
      new_timer-IsBounded (omega arith)
