-- ===== src/Reporting/Tests.antt =====
-- The theorems about the reporters at concrete inputs: the natural numbers stand for the doubles.
use ccmetrics.Base.{ℕ, ◌≡◌, refl, true, [], ◌∷◌, ◌++◌, some}
use ccmetrics.Reporting.{
  PeriodicReporterImpl, time_val, new_reporter, start, stop, run, expired_event, stop_event,
}
use ccmetrics.Reporting.Periods.{run-stop}
use ccmetrics.Reporting.Graphite.{
  Report, new_graphite, connected, create_stream, connect_stream, write_stream, report_lines,
}
use ccmetrics.Reporting.Connection.{
  idle, open_stream, report_due, accepted, dues, run_network, run_network-once,
}

run-stop_example :
    (p : PeriodicReporterImpl) × (run (stop_event ∷ expired_event ∷ stop_event ∷ []) new_reporter
      ≡ some p)
    × (p.reports ≡ 0)
    × (start 1000 (stop new_reporter)
        ≡ some (record new_reporter {
          running = true;
          tv = time_val 1000;
          registered = some (time_val 1000);
          joinable = true;
        }))
run-stop_example = run-stop (expired_event ∷ stop_event ∷ []) new_reporter 1000 tt

abbrev requests : ℕ → Report ℕ
requests n = record { counters = ("requests", n) ∷ []; timers = []; meters = []; timestamp = n }

run_network-once_example :
    run_network
      (report_due (requests 1) ∷ (dues (requests 2 ∷ []) ++ accepted (requests 3) ∷ []))
      (new_graphite, idle)
    ≡ some (
      record {
        state = connected;
        streaming = true;
        calls = write_stream (report_lines (requests 3)) ∷ connect_stream ∷ create_stream ∷ [];
      },
      open_stream,
    )
run_network-once_example =
    run_network-once (requests 1) (requests 2 ∷ []) (requests 3) new_graphite refl
