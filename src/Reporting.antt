-- ===== src/Reporting.antt =====
-- src/reporting/periodic_reporter.cc and src/ccmetrics/reporting/periodic_reporter.h: the timer that
-- drives a reporter. The event loop of libwte is what it holds registered: a timeout that expires is
-- handed to `expired`, on a thread of its own.
pub mod Graphite
pub mod Console
pub mod Periods
pub mod Connection
mod Tests
use ccmetrics.Base.{
  ℕ, ◌+◌, ◌*◌, ◌/◌, ◌%◌, Bool, true, false, List, [], ◌∷◌, Option, none, some, if◌then◌else◌,
}

-- `struct timeval`.
pub record TimeVal : Type 0 where
  pub tv_sec : ℕ
  pub tv_usec : ℕ

-- The conversion of `setTimeoutAndSchedule`, from milliseconds.
abbrev pub time_val : ℕ → TimeVal
time_val ms = record { tv_sec = ms / 1000; tv_usec = ms % 1000 * 1000 }

-- `PeriodicReporterImpl`: `tv_` of its timeout, the timeout that the loop holds, whether the thread is
-- joinable, and the number of calls of `report`.
pub record PeriodicReporterImpl : Type 0 where
  pub running : Bool
  pub tv : TimeVal
  pub registered : Option TimeVal
  pub joinable : Bool
  pub reports : ℕ

-- The constructor.
abbrev pub new_reporter : PeriodicReporterImpl
new_reporter = record {
  running = false;
  tv = time_val 0;
  registered = none;
  joinable = false;
  reports = 0;
}

-- `start`, with a period in milliseconds; none where its assertion fails.
unfoldable pub start : ℕ → PeriodicReporterImpl → Option PeriodicReporterImpl
start period p =
    if p.running
    then none
    else some (record p {
      running = true;
      tv = time_val period;
      registered = some (time_val period);
      joinable = true;
    })

-- `stop`.
unfoldable pub stop : PeriodicReporterImpl → PeriodicReporterImpl
stop p = record p { registered = none; running = false; joinable = false }

-- `ReporterTimeout::expired`, which the loop calls for a timeout that it holds, while there is a
-- reporter: the timeout is registered again and `report` is called.
unfoldable pub expired : PeriodicReporterImpl → Option PeriodicReporterImpl
expired p = some (record p { registered = some p.tv; reports = p.reports + 1 })

-- What can happen: calls, and the loop's expiry of a timeout that it holds.
pub data Event : Type 0 where
  start_event : ℕ → Event
  stop_event : Event
  expired_event : Event

abbrev pub expire_held : Option TimeVal → PeriodicReporterImpl → Option PeriodicReporterImpl
expire_held none p = some p
expire_held (some tv) p = expired p

unfoldable pub step : Event → PeriodicReporterImpl → Option PeriodicReporterImpl
unfolding start stop
step (start_event period) p = start period p
step stop_event p = some (stop p)
step expired_event p = expire_held p.registered p

abbrev pub and_then :
    Option PeriodicReporterImpl
    → (PeriodicReporterImpl → Option PeriodicReporterImpl)
    → Option PeriodicReporterImpl
and_then none f = none
and_then (some p) f = f p

abbrev pub run : List Event → PeriodicReporterImpl → Option PeriodicReporterImpl
run [] p = some p
run (e ∷ events) p = and_then (step e p) (run events)
