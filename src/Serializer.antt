-- ===== src/Serializer.antt =====
-- src/serializing/json_serializer.cc: the calls of the JSON writer, in their order. The text that
-- rapidjson makes of the calls is not modelled.
pub mod Document
mod Tests
use ccmetrics.Base.{ℕ, String, List, [], ◌∷◌, ◌++◌}
use ccmetrics.Double.{Double}

-- The calls of the writer; a number of 64 bits is its bit pattern.
pub data Token (F : Type 0) : Type 0 where
  start_object : Token F
  end_object : Token F
  string : String → Token F
  int64 : ℕ → Token F
  double : F → Token F

-- What the serializer reads of a timer: its count and its rates, and the statistics of its snapshot.
pub record Reading (F : Type 0) : Type 0 where
  pub count : ℕ
  pub largest : ℕ
  pub least : ℕ
  pub average : F
  pub p50 : F
  pub p75 : F
  pub p95 : F
  pub p99 : F
  pub p999 : F
  pub deviation : F
  pub m1_rate : F
  pub m5_rate : F
  pub m15_rate : F

-- What it reads of a registry: the values of the counters and the readings of the timers, by name.
pub record Readings (F : Type 0) : Type 0 where
  pub counter_values : List (String × ℕ)
  pub timer_readings : List (String × Reading F)

-- `writeNumeric`, of an integer and of a double.
abbrev pub write_int : {F : Type 0} → String → ℕ → List (Token F)
write_int key value = string key ∷ int64 value ∷ []

abbrev pub write_double : {F : Type 0} → String → F → List (Token F)
write_double key value = string key ∷ double value ∷ []

-- `serialize_helper` of a counter.
unfoldable pub serialize_counter : {F : Type 0} → ℕ → List (Token F)
serialize_counter value = start_object ∷ write_int "count" value ++ end_object ∷ []

module _ (d : Double) where
  -- `kFactor`, from microseconds to seconds.
  abbrev pub factor : d.F
  factor = d.div d.one_f (d.of_int 1000000)

  -- `serialize_helper` of a timer.
  unfoldable pub serialize_timer : Reading d.F → List (Token d.F)
  serialize_timer t =
      start_object ∷ write_int "count" t.count
      ++ write_double "max" (d.mul (d.of_int t.largest) factor)
      ++ write_double "mean" (d.mul t.average factor)
      ++ write_double "min" (d.mul (d.of_int t.least) factor)
      ++ write_double "p50" (d.mul t.p50 factor)
      ++ write_double "p75" (d.mul t.p75 factor)
      ++ write_double "p95" (d.mul t.p95 factor)
      ++ write_double "p99" (d.mul t.p99 factor)
      ++ write_double "p999" (d.mul t.p999 factor)
      ++ write_double "stdev" (d.mul t.deviation factor)
      ++ write_double "m15_rate" t.m15_rate
      ++ write_double "m5_rate" t.m5_rate
      ++ write_double "m1_rate" t.m1_rate
      ++ end_object ∷ []

  -- The loops over the counters and over the timers.
  unfoldable pub serialize_counters : List (String × ℕ) → List (Token d.F)
  unfolding serialize_counter
  serialize_counters [] = []
  serialize_counters ((name, value) ∷ entries) =
      string name ∷ serialize_counter value ++ serialize_counters entries

  unfoldable pub serialize_timers : List (String × Reading d.F) → List (Token d.F)
  unfolding serialize_timer
  serialize_timers [] = []
  serialize_timers ((name, t) ∷ entries) =
      string name ∷ serialize_timer t ++ serialize_timers entries

  -- `do_serialize` of a registry.
  unfoldable pub serialize_registry : Readings d.F → List (Token d.F)
  unfolding serialize_counters serialize_timers
  serialize_registry r =
      let end = end_object ∷ end_object ∷ [] in
      let timers = string "timers" ∷ start_object ∷ (serialize_timers r.timer_readings ++ end) in
      let counters = serialize_counters r.counter_values ++ (end_object ∷ timers) in
      start_object ∷ string "counters" ∷ start_object ∷ counters
