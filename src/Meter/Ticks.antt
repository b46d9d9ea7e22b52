-- ===== src/Meter/Ticks.antt =====
-- What the ticks of a rate amount to when some intervals have passed.
use ccmetrics.Base.{
  ℕ, zero, suc, ◌+◌, ◌-◌, ◌/◌, ◌≡◌, refl, ap, ◌∙◌, true, false, ltb, if◌then◌else◌, arith,
}
use ccmetrics.Double.{Double}
use ccmetrics.Meter.{interval_us, RateEwma, blend, per_second, tick, ticks, tick_if_necessary}

module _ (d : Double) where
  -- `n` intervals without events.
  pub idle_intervals : ℕ → (alpha rate : d.F) → d.F
  idle_intervals zero alpha rate = rate
  idle_intervals (suc n) alpha rate = idle_intervals n alpha (blend d alpha (per_second d 0) rate)

  -- The rate once the events of the buffer are accounted to one interval.
  pub accounted : RateEwma d → d.F
  accounted r =
      let instant = per_second d r.buffer in
      if r.init then blend d r.alpha instant r.current else instant

  tick-idle :
      (r : RateEwma d)
      → r.init ≡ true
      → r.buffer ≡ 0
      → tick d r ≡ record r { current = blend d r.alpha (per_second d 0) r.current }
  unfolding tick
  tick-idle r warm empty = rw (warm, empty) refl

  ticks-idle :
      (n : ℕ) (r : RateEwma d)
      → r.init ≡ true
      → r.buffer ≡ 0
      → ticks d n r ≡ record r { current = idle_intervals n r.alpha r.current }
  unfolding ticks idle_intervals
  ticks-idle zero r warm empty = refl
  ticks-idle (suc n) r warm empty =
      ap (ticks d n) (tick-idle r warm empty) ∙ ticks-idle n _ warm empty

  ticks_lem :
      (n : ℕ) (r : RateEwma d)
      → ticks d (suc n) r
        ≡ record r { buffer = 0; current = idle_intervals n r.alpha (accounted r); init = true }
  unfolding ticks tick accounted
  ticks_lem n r = ticks-idle n _ refl refl

  -- When five seconds or more have passed since the last tick, all the events buffered since then
  -- count for the first of the intervals that have passed, and the other intervals count as idle;
  -- the buffer is empty and the next interval begins at the present time.
  pub tick_if_necessary_lem :
      (now n : ℕ) (r : RateEwma d)
      → (now - r.last_tick) / 1000 / interval_us ≡ n + 1
      → tick_if_necessary d now r ≡ record r {
        buffer = 0;
        current = idle_intervals n r.alpha (accounted r);
        init = true;
        last_tick = now;
      }
  unfolding tick_if_necessary accounted
  tick_if_necessary_lem now n r due =
      let delta_us = (now - r.last_tick) / 1000 in
      let r' : RateEwma d = record r { last_tick = now } in
      let late : ltb delta_us interval_us ≡ false = ground (arith, due) in
      let count : delta_us / interval_us ≡ suc n = omega (arith, due) in
      ap (λ b. if b then r else ticks d (delta_us / interval_us) r') late
      ∙ ap (λ k. ticks d k r') count
      ∙ ticks_lem n r'
