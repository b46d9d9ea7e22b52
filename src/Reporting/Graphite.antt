-- ===== src/Reporting/Graphite.antt =====
-- src/reporting/graphite_reporter.cc. Of the stream of libwte the model keeps the calls that it gets,
-- the latest first; what the stream answers are the events. A line is a call of `fmt::format`.
use ccmetrics.Base.{ℕ, Bool, true, false, String, List, [], ◌∷◌, ◌++◌, Option, none, some}
use ccmetrics.Serializer.{Reading}
use Prim.Native.String.{◌++◌ as ◌<>◌}

-- `format(layout, path, value, timestamp)`, of an integer and of a double.
pub data Line (F : Type 0) : Type 0 where
  int_line : (layout path : String) → ℕ → (timestamp : ℕ) → Line F
  double_line : (layout path : String) → F → (timestamp : ℕ) → Line F

abbrev pub integer_layout : String
integer_layout = "{} {} {}\n"

abbrev pub double_layout : String
double_layout = "{} {:2.2f} {}\n"

-- The layout of the 15-minute rates, which has a space before the end of the line.
abbrev pub spaced_layout : String
spaced_layout = "{} {:2.2f} {} \n"

-- What `report` reads of a meter, and of the registry.
pub record Rates (F : Type 0) : Type 0 where
  pub m1 : F
  pub m5 : F
  pub m15 : F

pub record Report (F : Type 0) : Type 0 where
  pub counters : List (String × ℕ)
  pub timers : List (String × Reading F)
  pub meters : List (String × Rates F)
  pub timestamp : ℕ

-- `prefix`.
abbrev pub prefix : String → String → String
prefix name val = name <> "." <> val

module _ {F : Type 0} where
  -- `writeCounter`, `writeTimer` and `writeMeter`: the lines that they append to the buffer.
  unfoldable pub write_counter : String → ℕ → (timestamp : ℕ) → List (Line F)
  write_counter name value ts = int_line integer_layout (prefix name "count") value ts ∷ []

  unfoldable pub write_timer : String → Reading F → (timestamp : ℕ) → List (Line F)
  write_timer name t ts =
      int_line integer_layout (prefix name "count") t.count ts
      ∷ double_line double_layout (prefix name "m1_rate") t.m1_rate ts
      ∷ double_line double_layout (prefix name "m5_rate") t.m5_rate ts
      ∷ double_line spaced_layout (prefix name "m15_rate") t.m15_rate ts
      ∷ int_line integer_layout (prefix name "min") t.least ts
      ∷ int_line integer_layout (prefix name "max") t.largest ts
      ∷ double_line double_layout (prefix name "mean") t.average ts
      ∷ double_line double_layout (prefix name "stdev") t.deviation ts
      ∷ double_line double_layout (prefix name "median") t.p50 ts
      ∷ double_line double_layout (prefix name "p75") t.p75 ts
      ∷ double_line double_layout (prefix name "p95") t.p95 ts
      ∷ double_line double_layout (prefix name "p99") t.p99 ts
      ∷ double_line double_layout (prefix name "p999") t.p999 ts
      ∷ []

  unfoldable pub write_meter : String → Rates F → (timestamp : ℕ) → List (Line F)
  write_meter name m ts =
      double_line double_layout (prefix name "m1_rate") m.m1 ts
      ∷ double_line double_layout (prefix name "m5_rate") m.m5 ts
      ∷ double_line spaced_layout (prefix name "m15_rate") m.m15 ts
      ∷ []

  -- A loop over the entries of a map.
  abbrev pub write_all :
      {A : Type 0} → (String → A → ℕ → List (Line F)) → List (String × A) → ℕ → List (Line F)
  write_all write [] ts = []
  write_all write ((name, metric) ∷ entries) ts = write name metric ts ++ write_all write entries ts

  -- The buffer that `report` fills.
  unfoldable pub report_lines : Report F → List (Line F)
  unfolding write_counter write_timer write_meter
  report_lines r =
      write_all write_counter r.counters r.timestamp
      ++ write_all write_timer r.timers r.timestamp
      ++ write_all write_meter r.meters r.timestamp

-- `State`.
pub data State : Type 0 where
  disconnected connecting connected : State

-- The calls of the stream.
pub data Call (F : Type 0) : Type 0 where
  create_stream : Call F
  connect_stream : Call F
  write_stream : List (Line F) → Call F
  close_stream : Call F

-- `GraphiteReporter`: `state_`, whether `stream_` is set, and the calls so far.
pub record GraphiteReporter (F : Type 0) : Type 0 where
  pub state : State
  pub streaming : Bool
  pub calls : List (Call F)

abbrev pub new_graphite : {F : Type 0} → GraphiteReporter F
new_graphite = record { state = disconnected; streaming = false; calls = [] }

module _ {F : Type 0} where
  -- `connect`; none where its assertion fails. (A stream that was set is deleted.)
  unfoldable pub connect : GraphiteReporter F → Option (GraphiteReporter F)
  connect g = elim (g.state) [
    | disconnected ↦ some (record {
      state = connecting;
      streaming = true;
      calls = connect_stream ∷ create_stream ∷ g.calls;
    })
    | _ ↦ none
  ]

  -- `report`.
  unfoldable pub report : Report F → GraphiteReporter F → Option (GraphiteReporter F)
  unfolding connect report_lines
  report r g = elim (g.state) [
    | disconnected ↦ connect g
    | connecting ↦ some g
    | connected ↦ some (record g { calls = write_stream (report_lines r) ∷ g.calls })
  ]

  -- `ConnectCallback::complete`, with what its call of `report` reads, and `ConnectCallback::error`.
  unfoldable pub connect_complete : Report F → GraphiteReporter F → Option (GraphiteReporter F)
  unfolding report
  connect_complete r g = elim (g.state) [
    | connecting ↦ report r (record g { state = connected })
    | _ ↦ none
  ]

  unfoldable pub connect_error : GraphiteReporter F → Option (GraphiteReporter F)
  connect_error g = elim (g.state) [
    | connecting ↦ some (record g { state = disconnected })
    | _ ↦ none
  ]

  -- `WriteCallback::error`. (`WriteCallback::complete` does nothing.)
  unfoldable pub write_error : GraphiteReporter F → Option (GraphiteReporter F)
  write_error g = elim (g.state) [
    | connected ↦ some (record g { state = disconnected; calls = close_stream ∷ g.calls })
    | _ ↦ none
  ]

  -- `~GraphiteReporter`.
  unfoldable pub destroy_graphite : GraphiteReporter F → GraphiteReporter F
  destroy_graphite g = elim (g.streaming) [
    | true ↦ record g { calls = close_stream ∷ g.calls }
    | false ↦ g
  ]
