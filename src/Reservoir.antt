-- ===== src/Reservoir.antt =====
-- src/metrics/exponential_reservoir.{h,cc}: the sampling reservoir, one operation at a time. Times
-- are nanoseconds of the steady clock; `u` is what `nextDouble` returns.
pub mod Bounded
pub mod Rescale
pub mod Concrete
pub mod Filled
mod Tests
use ccmetrics.Base.{
  ℕ, zero, suc, ◌+◌, ◌-◌, ◌*◌, Bool, true, false, List, [], ◌∷◌, map, Option, none, some, ltb,
  if◌then◌else◌,
}
use mathlib.Core.List.{reverse}
use ccmetrics.Double.{Double}
use ccmetrics.SkipMap.{insert, erase, first_key}

-- `kSize`.
abbrev pub size_limit : ℕ
size_limit = 1028

abbrev pub hour : ℕ
hour = 3600 * 1000000000

module _ (d : Double) (alpha : d.F) where
  open d use {F, zero_f, one_f, lt, sub, mul, div, neg, exp, seconds}

  abbrev pub Entries : Type 0
  Entries = List (F × ℕ)

  pub record Data : Type 0 where
    pub entries : Entries
    pub count : ℕ
    pub landmark : ℕ

  pub record Reservoir : Type 0 where
    pub content : Data
    pub next_scale : ℕ

  -- The constructor, at time `now`.
  abbrev pub new_reservoir : ℕ → Reservoir
  new_reservoir now = record {
    content = record { entries = []; count = 0; landmark = now };
    next_scale = now + hour;
  }

  -- `while (!values.erase(first)) first = values.firstKey();`, with fuel.
  pub evict : ℕ → F → Entries → Option Entries
  evict zero first m = none
  evict (suc fuel) first m =
      let (m', done) = erase lt first m in
      let again = evict fuel (first_key zero_f m) m in if done then some m' else again

  -- The eviction loop needs two rounds: the first key is there, unless the map was empty before.
  abbrev pub rounds : ℕ
  rounds = 2

  -- The entry of a full reservoir: it goes in above the first key, which then goes out.
  pub replace_first : F → ℕ → Entries → Option Entries
  unfolding evict
  replace_first priority value m =
      let first = first_key zero_f m in
      let (m', done) = insert lt priority value m in
      let out = evict rounds first m' in
      if lt first priority then (if done then out else some m') else some m

  -- One entry, by the number of entries counted before it.
  pub put : (count : ℕ) → F → ℕ → Entries → Option Entries
  unfolding replace_first
  put count priority value m =
      if ltb count size_limit
      then some (insert lt priority value m).0
      else replace_first priority value m

  -- The reinsertion loop of `rescale`, over the snapshot from its end; `count` is the counter that
  -- it increments, the one of the old data.
  pub reinsert : Entries → (count : ℕ) → Entries → Option Entries
  unfolding put
  reinsert [] count m = some m
  reinsert ((p, v) ∷ snap) count m = elim (put count p v m) [
    | none ↦ none
    | some m' ↦ reinsert snap (count + 1) m'
  ]

  -- The priorities in the snapshot, times exp(-kAlpha * delta).
  pub scaled : F → Entries → Entries
  scaled factor [] = []
  scaled factor ((p, v) ∷ m) = (mul p factor, v) ∷ scaled factor m

  -- `rescale`, by the thread that wins the race for `next_scale_`.
  pub rescale : ℕ → Reservoir → Option Reservoir
  unfolding reinsert scaled
  rescale now r =
      let old = r.content in
      let delta = seconds (now - old.landmark) in
      let snap = scaled (exp (mul (neg alpha) delta)) old.entries in
      elim (reinsert (reverse snap) old.count []) [
        | none ↦ none
        | some m ↦ some (record {
          content = record { entries = m; count = 0; landmark = now };
          next_scale = r.next_scale + hour;
        })
      ]

  -- `loadAndRescaleIfNeeded`.
  pub rescale_if_needed : ℕ → Reservoir → Option Reservoir
  unfolding rescale
  rescale_if_needed now r = if ltb r.next_scale now then rescale now r else some r

  -- The weight of an entry that arrives at `now`, over a number drawn from (0, 1].
  pub priority_of : (now landmark : ℕ) (u : F) → F
  priority_of now landmark u = div (exp (mul alpha (seconds (now - landmark)))) (sub one_f u)

  -- `update` behind the rescaling.
  pub record_value : (now : ℕ) (u : F) (value : ℕ) → Reservoir → Option Reservoir
  unfolding put priority_of
  record_value now u value r =
      let c = r.content in
      elim (put c.count (priority_of now c.landmark u) value c.entries) [
        | none ↦ none
        | some m ↦ some (record r { content = record c { entries = m; count = c.count + 1 } })
      ]

  -- `update`.
  pub update : (now : ℕ) (u : F) (value : ℕ) → Reservoir → Option Reservoir
  unfolding rescale_if_needed record_value
  update now u value r = elim (rescale_if_needed now r) [
    | none ↦ none
    | some r' ↦ record_value now u value r'
  ]

  -- `snapshot`: the values, which `Snapshot` then sorts.
  pub snapshot : Reservoir → List ℕ
  snapshot r = map (λ e. e.1) r.content.entries
