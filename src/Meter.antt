-- ===== src/Meter.antt =====
-- src/metrics/meter_impl.{h,cc}: exponentially weighted moving rates, one operation at a time. Times
-- are nanoseconds of the steady clock.
pub mod Ticks
pub mod Buffered
mod Tests
use ccmetrics.Base.{ℕ, zero, suc, ◌+◌, ◌-◌, ◌*◌, ◌/◌, Bool, true, false, ltb, if◌then◌else◌}
use ccmetrics.Double.{Double}
use ccmetrics.Striped.{add64}

-- `RateEWMA::kInterval`, in seconds and in microseconds.
abbrev pub interval : ℕ
interval = 5

abbrev pub interval_us : ℕ
interval_us = interval * 1000000

-- What the clock shows to the three rates, one after the other.
pub record Clock : Type 0 where
  pub first : ℕ
  pub second : ℕ
  pub third : ℕ

module _ (d : Double) where
  open d use {F, zero_f, add, sub, mul, div, of_int}

  -- `RateEWMA`. `buffer` is what the striped counter of that name holds.
  pub record RateEwma : Type 0 where
    pub alpha : F
    pub buffer : ℕ
    pub current : F
    pub init : Bool
    pub last_tick : ℕ

  -- The constructor, at time `now`.
  abbrev pub new_rate : F → ℕ → RateEwma
  new_rate alpha now = record {
    alpha = alpha;
    buffer = 0;
    current = zero_f;
    init = false;
    last_tick = now;
  }

  -- `rate + alpha_ * (instant - rate)`.
  pub blend : (alpha instant rate : F) → F
  blend alpha instant rate = add rate (mul alpha (sub instant rate))

  -- Events per second, of the events of one interval.
  pub per_second : ℕ → F
  per_second uncounted = div (of_int uncounted) (of_int interval)

  -- `tick`.
  pub tick : RateEwma → RateEwma
  unfolding blend per_second
  tick r =
      let instant = per_second r.buffer in
      record r {
        buffer = 0;
        current = if r.init then blend r.alpha instant r.current else instant;
        init = true;
      }

  -- The loop of `tickIfNecessary`.
  pub ticks : ℕ → RateEwma → RateEwma
  unfolding tick
  ticks zero r = r
  ticks (suc n) r = ticks n (tick r)

  -- `tickIfNecessary` at time `now`.
  pub tick_if_necessary : ℕ → RateEwma → RateEwma
  unfolding ticks
  tick_if_necessary now r =
      let delta_us = (now - r.last_tick) / 1000 in
      if ltb delta_us interval_us
      then r
      else ticks (delta_us / interval_us) (record r { last_tick = now })

  -- `RateEWMA::update`.
  pub update_rate : (now val : ℕ) → RateEwma → RateEwma
  unfolding tick_if_necessary
  update_rate now val r = tick_if_necessary now (record r { buffer = add64 r.buffer val })

  -- `RateEWMA::rate`.
  pub rate : ℕ → RateEwma → F × RateEwma
  unfolding tick_if_necessary
  rate now r = let r' = tick_if_necessary now r in (r'.current, r')

  -- `MeterImpl`.
  pub record MeterImpl : Type 0 where
    pub one_minute : RateEwma
    pub five_minute : RateEwma
    pub fifteen_minute : RateEwma

  -- `Meter`: the public class, which holds a `MeterImpl` and forwards to it.
  abbrev pub Meter : Type 0
  Meter = MeterImpl

  -- `mark(n)`; `n` is its 64-bit pattern.
  pub mark : Clock → ℕ → MeterImpl → MeterImpl
  unfolding update_rate
  mark now n m = record {
    one_minute = update_rate now.first n m.one_minute;
    five_minute = update_rate now.second n m.five_minute;
    fifteen_minute = update_rate now.third n m.fifteen_minute;
  }

  -- `mark()`.
  pub mark_one : Clock → MeterImpl → MeterImpl
  unfolding mark
  mark_one now m = mark now 1 m
