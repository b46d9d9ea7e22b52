-- ===== src/Reporting/Connection.antt =====
-- The connection of src/reporting/graphite_reporter.cc beside the stream that it talks to.
use ccmetrics.Base.{Bool, true, ◌≡◌, refl, ap, ◌∙◌, List, [], ◌∷◌, ◌++◌, Option, none, some}
use ccmetrics.Reporting.Graphite.{
  Call, Report, GraphiteReporter, State, disconnected, connecting, connected, create_stream,
  connect_stream, write_stream, report_lines, connect, report, connect_complete, connect_error,
  write_error,
}

-- The stream, under an assumption on libwte: it answers a connect once, and an open stream reports one
-- failure. Several writes that are pending at once and all fail are not among the events.
pub data Peer : Type 0 where
  idle pending open_stream : Peer

-- What happens: the timer asks for a report, and the stream answers. The report of an answer is what
-- its own call of `report` reads.
pub data NetEvent (F : Type 0) : Type 0 where
  report_due : Report F → NetEvent F
  accepted : Report F → NetEvent F
  refused : NetEvent F
  broken : NetEvent F

abbrev pub Network : Type 0 → Type 0
Network F = GraphiteReporter F × Peer

-- The stream behind a call of `report`: it connects where `report` called `connect`.
abbrev peer_after : State → Peer → Peer
peer_after disconnected peer = pending
peer_after connecting peer = peer
peer_after connected peer = peer

module _ {F : Type 0} where
  abbrev with_peer : Peer → Option (GraphiteReporter F) → Option (Network F)
  with_peer peer none = none
  with_peer peer (some g) = some (g, peer)

  -- An answer that the stream is assumed not to give in its state is skipped.
  unfoldable pub step_network : NetEvent F → Network F → Option (Network F)
  unfolding report connect_complete connect_error write_error
  step_network (report_due r) (g, peer) = with_peer (peer_after g.state peer) (report r g)
  step_network (accepted r) (g, pending) = with_peer open_stream (connect_complete r g)
  step_network refused (g, pending) = with_peer idle (connect_error g)
  step_network broken (g, open_stream) = with_peer idle (write_error g)
  step_network _ n = some n

  abbrev then_network : Option (Network F) → (Network F → Option (Network F)) → Option (Network F)
  then_network none f = none
  then_network (some n) f = f n

  -- Reports that fall due one after the other.
  abbrev pub dues : List (Report F) → List (NetEvent F)
  dues [] = []
  dues (r ∷ reports) = report_due r ∷ dues reports

  abbrev pub run_network : List (NetEvent F) → Network F → Option (Network F)
  run_network [] n = some n
  run_network (e ∷ events) n = then_network (step_network e n) (run_network events)

  abbrev reporter_in : State → Bool → List (Call F) → GraphiteReporter F
  reporter_in state streaming calls = record { state = state; streaming = streaming; calls = calls }

  run_network-connecting :
      (reports : List (Report F)) (events : List (NetEvent F)) (calls : List (Call F))
      → run_network (dues reports ++ events) (reporter_in connecting true calls, pending)
        ≡ run_network events (reporter_in connecting true calls, pending)
  unfolding step_network report
  run_network-connecting [] events calls = refl
  run_network-connecting (q ∷ reports) events calls = run_network-connecting reports events calls

  -- A disconnected reporter connects once, however many reports fall due before the stream accepts,
  -- and then writes one report: the lines of what its connect callback reads.
  pub run_network-once :
      (first : Report F) (reports : List (Report F)) (r : Report F) (g : GraphiteReporter F)
      → g.state ≡ disconnected
      → run_network (report_due first ∷ (dues reports ++ accepted r ∷ [])) (g, idle)
        ≡ some (
          reporter_in connected true
              (write_stream (report_lines r) ∷ connect_stream ∷ create_stream ∷ g.calls),
          open_stream,
        )
  unfolding step_network connect report connect_complete
  run_network-once first reports r g at =
      let events = report_due first ∷ (dues reports ++ accepted r ∷ []) in
      ap (λ state. run_network events (reporter_in state g.streaming g.calls, idle)) at
      ∙ run_network-connecting reports (accepted r ∷ []) (connect_stream ∷ create_stream ∷ g.calls)
