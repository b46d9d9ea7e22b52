-- ===== src/Reservoir/Rescale.antt =====
-- What a rescaling leaves of a reservoir that has counted `kSize` values or more.
use ccmetrics.Base.{
  ℕ, ◌+◌, ◌-◌, ◌≤◌, ◌≡◌, refl, false, [], ◌∷◌, Option, none, some, ltb, arith, ap, ◌∙◌,
}
use mathlib.Core.List.{reverse}
use ccmetrics.Double.{Double, IsOrdered}
use ccmetrics.SkipMap.{insert, erase, first_key}
use ccmetrics.Reservoir.{
  size_limit, hour, Entries, Reservoir, evict, replace_first, put, reinsert, scaled, rescale,
}

module _ (d : Double) (alpha : d.F) (o : IsOrdered d) where
  -- Into the empty map nothing goes: what is inserted is evicted at once.
  replace_first-nil : (p : d.F) (v : ℕ) → replace_first d alpha p v [] ≡ some []
  unfolding replace_first evict first_key insert erase
  replace_first-nil p v = ground (arith, o.irreflexive p)

  put-nil : (count : ℕ) (p : d.F) (v : ℕ) → size_limit ≤ count → put d alpha count p v [] ≡ some []
  unfolding put
  put-nil count p v h =
      let over : ltb count size_limit ≡ false = ground (arith, h) in
      rw (over, replace_first-nil p v)

  -- `reinsert` once the first entry is in.
  abbrev next : Entries d alpha → ℕ → Option (Entries d alpha) → Option (Entries d alpha)
  next snap count none = none
  next snap count (some m) = reinsert d alpha snap (count + 1) m

  reinsert-nil :
      (snap : Entries d alpha) (count : ℕ)
      → size_limit ≤ count
      → reinsert d alpha snap count [] ≡ some []
  unfolding reinsert
  reinsert-nil [] count h = refl
  reinsert-nil ((p, v) ∷ snap) count h =
      ap (next snap count) (put-nil count p v h) ∙ reinsert-nil snap (count + 1) (omega (arith, h))

  -- `rescale` once the loop has ended.
  abbrev finish : ℕ → Reservoir d alpha → Option (Entries d alpha) → Option (Reservoir d alpha)
  finish now r none = none
  finish now r (some m) = some (record {
    content = record { entries = m; count = 0; landmark = now };
    next_scale = r.next_scale + hour;
  })

  -- Once a reservoir has counted `kSize` values, `rescale` loses every entry: the loop tests the old
  -- counter, so each entry that it puts into the new map is evicted before the next one.
  pub rescale_full :
      (now : ℕ) (r : Reservoir d alpha)
      → size_limit ≤ r.content.count
      → rescale d alpha now r
        ≡ some (record {
          content = record { entries = []; count = 0; landmark = now };
          next_scale = r.next_scale + hour;
        })
  unfolding rescale
  rescale_full now r h =
      let delta = d.seconds (now - r.content.landmark) in
      let snap = scaled d alpha (d.exp (d.mul (d.neg alpha) delta)) r.content.entries in
      ap (finish now r) (reinsert-nil (reverse snap) r.content.count h)
