-- ===== src/Serializer/Tests.antt =====
-- The theorem about the serializer at a concrete registry: the natural numbers stand for the doubles.
use ccmetrics.Base.{ℕ, ◌≡◌, [], ◌∷◌, some}
use ccmetrics.Double.Whole.{whole}
use ccmetrics.Serializer.{Readings, serialize_registry}
use ccmetrics.Serializer.Document.{read_json, size_json, document, read-serialize_registry}

abbrev one_timer : Readings ℕ
one_timer = record {
  counter_values = ("requests", 7) ∷ ("errors", 0) ∷ [];
  timer_readings =
      (
        "latency",
        record {
          count = 2;
          largest = 500;
          least = 300;
          average = 400;
          p50 = 400;
          p75 = 500;
          p95 = 500;
          p99 = 500;
          p999 = 500;
          deviation = 100;
          m1_rate = 3;
          m5_rate = 2;
          m15_rate = 1;
        },
      )
      ∷ [];
}

read-serialize_registry_example :
    read_json (size_json (document whole one_timer)) (serialize_registry whole one_timer)
    ≡ some (document whole one_timer, [])
read-serialize_registry_example = read-serialize_registry whole one_timer
