-- ===== src/Meter/Buffered.antt =====
-- Marks before the next tick.
use ccmetrics.Base.{ℕ, ◌+◌, ◌*◌, ◌<◌, ◌≡◌, refl, ap, ◌∙◌, List, [], ◌∷◌, arith}
use ccmetrics.Double.{Double}
use ccmetrics.Striped.{add64}
use ccmetrics.Meter.{interval, RateEwma, tick_if_necessary, update_rate, MeterImpl, Clock, mark}

-- The sum of the marks, on top of what is buffered.
pub sum_marks {ℓ} : {A : Type ℓ} → ℕ → List (A × ℕ) → ℕ
sum_marks buffered [] = buffered
sum_marks buffered ((now, n) ∷ marks) = sum_marks (add64 buffered n) marks

module _ (d : Double) where
  -- A sequence of marks.
  pub marks : List (Clock × ℕ) → MeterImpl d → MeterImpl d
  marks [] m = m
  marks ((now, n) ∷ rest) m = marks rest (mark d now n m)

  -- Less than five seconds since a tick.
  abbrev pub IsEarly : (now last_tick : ℕ) → Type 0
  IsEarly now last_tick = now < last_tick + interval * 1000000000

  -- All the marks come less than five seconds after the last ticks of the three rates.
  abbrev pub AreEarly : List (Clock × ℕ) → Clock → Type 0
  AreEarly [] last = Unit {0}
  AreEarly ((now, n) ∷ rest) last =
      (IsEarly now.first last.first × IsEarly now.second last.second × IsEarly now.third last.third)
      × AreEarly rest last

  abbrev pub last_ticks : MeterImpl d → Clock
  last_ticks m = record {
    first = m.one_minute.last_tick;
    second = m.five_minute.last_tick;
    third = m.fifteen_minute.last_tick;
  }

  update_rate-early :
      (now val : ℕ) (r : RateEwma d)
      → IsEarly now r.last_tick
      → update_rate d now val r ≡ record r { buffer = add64 r.buffer val }
  unfolding update_rate tick_if_necessary
  update_rate-early now val r early = ground (arith, early)

  mark-early :
      (now : Clock) (n : ℕ) (m : MeterImpl d)
      → IsEarly now.first m.one_minute.last_tick
      → IsEarly now.second m.five_minute.last_tick
      → IsEarly now.third m.fifteen_minute.last_tick
      → mark d now n m ≡ record {
        one_minute = record m.one_minute { buffer = add64 m.one_minute.buffer n };
        five_minute = record m.five_minute { buffer = add64 m.five_minute.buffer n };
        fifteen_minute = record m.fifteen_minute { buffer = add64 m.fifteen_minute.buffer n };
      }
  unfolding mark
  mark-early now n m a b c =
      rw
        (
          update_rate-early now.first n m.one_minute a,
          update_rate-early now.second n m.five_minute b,
          update_rate-early now.third n m.fifteen_minute c,
        )
        refl

  -- Marks less than five seconds after the last tick only buffer: each of the three rates holds the
  -- sum of the marks for its next tick, and no rate changes.
  pub marks-buffered :
      (list : List (Clock × ℕ)) (m : MeterImpl d)
      → AreEarly list (last_ticks m)
      → marks list m ≡ record {
        one_minute = record m.one_minute { buffer = sum_marks m.one_minute.buffer list };
        five_minute = record m.five_minute { buffer = sum_marks m.five_minute.buffer list };
        fifteen_minute = record m.fifteen_minute {
          buffer = sum_marks m.fifteen_minute.buffer list;
        };
      }
  unfolding marks sum_marks
  marks-buffered [] m early = refl
  marks-buffered ((now, n) ∷ rest) m ((a, b, c), early) =
      ap (marks rest) (mark-early now n m a b c) ∙ marks-buffered rest _ early
