-- ===== src/Reporting/Periods.antt =====
-- Periods, and what a reporter does when it is stopped.
use ccmetrics.Base.{ℕ, ◌+◌, ◌*◌, ◌<◌, ◌≡◌, refl, ap, ◌∙◌, true, List, [], ◌∷◌, none, some, arith}
use ccmetrics.Reporting.{
  time_val, PeriodicReporterImpl, start, stop, Event, start_event, stop_event, expired_event,
  expire_held, step, and_then, run,
}

-- The microseconds of the timeout are a valid `tv_usec`, and the timeout is as long as the period.
pub time_val_lem :
    (ms : ℕ)
    → ((time_val ms).tv_usec < 1000000)
      × ((time_val ms).tv_sec * 1000000 + (time_val ms).tv_usec ≡ ms * 1000)
time_val_lem ms = (omega arith, omega arith)

-- The sequence starts no reporter.
abbrev pub NoStart : List Event → Type 0
NoStart [] = Unit {0}
NoStart (start_event p ∷ events) = ⊥
NoStart (stop_event ∷ events) = NoStart events
NoStart (expired_event ∷ events) = NoStart events

run-quiet :
    (events : List Event) (p : PeriodicReporterImpl)
    → NoStart events
    → p.registered ≡ none
    → (p' : PeriodicReporterImpl) × (run events p ≡ some p') × (p'.reports ≡ p.reports)
unfolding step stop
run-quiet [] p quiet idle = (p, refl, refl)
run-quiet (start_event ms ∷ events) p quiet idle = absurd quiet
run-quiet (stop_event ∷ events) p quiet idle = run-quiet events (stop p) quiet refl
run-quiet (expired_event ∷ events) p quiet idle =
    let (p', e, same) = run-quiet events p quiet idle in
    (p', ap (λ r. and_then (expire_held r p) (run events)) idle ∙ e, same)

-- Behind `stop`, until the next `start`, nothing is reported, whatever the loop expires and however
-- often `stop` is called again, and no assertion fails; and the reporter can be started again.
pub run-stop :
    (events : List Event) (p : PeriodicReporterImpl) (period : ℕ)
    → NoStart events
    → (p' : PeriodicReporterImpl) × (run (stop_event ∷ events) p ≡ some p')
      × (p'.reports ≡ p.reports)
      × (start period (stop p)
          ≡ some (record p {
            running = true;
            tv = time_val period;
            registered = some (time_val period);
            joinable = true;
          }))
unfolding step stop start
run-stop events p period quiet =
    let (p', e, same) = run-quiet events (stop p) quiet refl in (p', e, same, refl)
