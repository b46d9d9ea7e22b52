-- ===== src/Meter/Tests.antt =====
-- The theorems about the meter at concrete inputs: the natural numbers stand for the doubles.
use ccmetrics.Base.{ℕ, ◌+◌, ◌≡◌, refl, true, List, [], ◌∷◌, arith}
use ccmetrics.Double.Whole.{whole}
use ccmetrics.Meter.{RateEwma, MeterImpl, Clock, new_rate, tick_if_necessary}
use ccmetrics.Meter.Ticks.{idle_intervals, accounted, tick_if_necessary_lem}
use ccmetrics.Meter.Buffered.{marks, sum_marks, marks-buffered}

abbrev busy : RateEwma whole
busy = record { alpha = 2; buffer = 30; current = 4; init = true; last_tick = 1000 }

-- Eleven seconds later, two intervals have passed.
tick_if_necessary_lem_example : tick_if_necessary whole 11000001000 busy ≡ record busy {
  buffer = 0;
  current = idle_intervals whole 1 2 (accounted whole busy);
  init = true;
  last_tick = 11000001000;
}
tick_if_necessary_lem_example = tick_if_necessary_lem whole 11000001000 1 busy refl

abbrev at : ℕ → Clock
at t = record { first = t; second = t; third = t + 1 }

abbrev quiet : MeterImpl whole
quiet = record {
  one_minute = new_rate whole 3 0;
  five_minute = new_rate whole 2 0;
  fifteen_minute = new_rate whole 1 0;
}

abbrev two_marks : List (Clock × ℕ)
two_marks = (at 10, 5) ∷ (at 20, 7) ∷ []

marks-buffered_example : marks whole two_marks quiet ≡ record {
  one_minute = record quiet.one_minute { buffer = sum_marks 0 two_marks };
  five_minute = record quiet.five_minute { buffer = sum_marks 0 two_marks };
  fifteen_minute = record quiet.fifteen_minute { buffer = sum_marks 0 two_marks };
}
marks-buffered_example =
    marks-buffered whole two_marks quiet
      ((omega arith, omega arith, omega arith), ((omega arith, omega arith, omega arith), tt))
