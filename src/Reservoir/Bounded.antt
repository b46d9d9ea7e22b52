-- ===== src/Reservoir/Bounded.antt =====
-- `update` between two rescalings: the size of the reservoir, and what a full one evicts.
use ccmetrics.Base.{
  map, List, suc, ℕ, ◌+◌, ◌≤◌, ◌<◌, ◌≡◌, refl, true, [], ◌∷◌, Option, none, some, ltb, length,
  arith, Bool-cases, inl, inr, ap, ◌∙◌,
}
use ccmetrics.Double.{Double, IsOrdered}
use ccmetrics.SkipMap.{insert, erase, first_key}
use ccmetrics.SkipMap.Laws.{length-insert, length-erase, erase-first, insert-behind}
use ccmetrics.Reservoir.{
  size_limit, Entries, Reservoir, evict, replace_first, put, record_value, update,
  rescale_if_needed, priority_of, snapshot,
}

length-map : {A : Type 0} (f : A → ℕ) (list : List A) → length (map f list) ≡ length list
length-map f [] = refl
length-map f (x ∷ list) = ap suc (length-map f list)

module _ (d : Double) (alpha : d.F) (o : IsOrdered d) where
  -- The eviction loop ends in two rounds on a map that is not empty, and removes one entry.
  pub evict_lem :
      (first : d.F) (e : d.F × ℕ) (m : Entries d alpha)
      → (m' : Entries d alpha) × (evict d alpha 2 first (e ∷ m) ≡ some m') × (length m' ≡ length m)
  unfolding evict first_key
  evict_lem first (j, w) m = elim (Bool-cases (erase d.lt first ((j, w) ∷ m)).1) [
    | inl gone ↦ (
      (erase d.lt first ((j, w) ∷ m)).0,
      rw gone,
      ground (arith, gone, length-erase d.lt first ((j, w) ∷ m)),
    )
    | inr kept ↦ (m, rw (kept, erase-first d.lt j w m (o.irreflexive j)), refl)
  ]

  evict-nonempty :
      (first : d.F) (m : Entries d alpha)
      → 0 < length m
      → (m' : Entries d alpha) × (evict d alpha 2 first m ≡ some m') × (length m ≡ length m' + 1)
  evict-nonempty first [] h = absurd (omega arith)
  evict-nonempty first (e ∷ m) h =
      let (m', got, same) = evict_lem first e m in (m', got, omega (arith, same))

  pub replace_first-total :
      (p : d.F) (v : ℕ) (m : Entries d alpha)
      → (m' : Entries d alpha) × (replace_first d alpha p v m ≡ some m') × (length m' ≡ length m)
  unfolding replace_first
  replace_first-total p v m = elim (Bool-cases (d.lt (first_key d.zero_f m) p)) [
    | inl above ↦ elim (Bool-cases (insert d.lt p v m).1) [
      | inl done ↦
          let grown : length (insert d.lt p v m).0 ≡ length m + 1 =
            ground (arith, done, length-insert d.lt p v m) in
          let (m', got, less) =
            evict-nonempty (first_key d.zero_f m) (insert d.lt p v m).0 (omega (arith, grown)) in
          (m', rw (above, done, got), omega (arith, grown, less))
      | inr old ↦
          ((insert d.lt p v m).0, rw (above, old), ground (arith, old, length-insert d.lt p v m))
    ]
    | inr below ↦ (m, rw below, refl)
  ]

  -- A full reservoir drops the entry of least priority for one of higher priority.
  pub replace_first-drops :
      (p j : d.F) (v w : ℕ) (m : Entries d alpha)
      → d.lt j p ≡ true
      → (insert d.lt p v m).1 ≡ true
      → replace_first d alpha p v ((j, w) ∷ m) ≡ some (insert d.lt p v m).0
  unfolding replace_first evict first_key
  replace_first-drops p j v w m above done = rw (
    above,
    insert-behind d.lt p j v w m above,
    done,
    erase-first d.lt j w (insert d.lt p v m).0 (o.irreflexive j),
  )

  -- The entries are at most `kSize`, and at most as many as were counted.
  pub record IsBounded (r : Reservoir d alpha) : Type 0 where
    pub full : length r.content.entries ≤ size_limit
    pub counted : length r.content.entries ≤ r.content.count

  pub put-total :
      (count : ℕ) (p : d.F) (v : ℕ) (m : Entries d alpha)
      → length m ≤ size_limit
      → length m ≤ count
      → (m' : Entries d alpha) × (put d alpha count p v m ≡ some m')
        × (length m' ≤ size_limit)
        × (length m' ≤ count + 1)
  unfolding put
  put-total count p v m full counted = elim (Bool-cases (ltb count size_limit)) [
    | inl room ↦ (
      (insert d.lt p v m).0,
      rw room,
      ground (arith, room, length-insert d.lt p v m),
      ground (arith, length-insert d.lt p v m),
    )
    | inr over ↦
        let (m', got, same) = replace_first-total p v m in
        (m', rw (over, got), omega (arith, same), omega (arith, same))
  ]

  rescale_if_needed-early :
      (now : ℕ) (r : Reservoir d alpha)
      → now ≤ r.next_scale
      → rescale_if_needed d alpha now r ≡ some r
  unfolding rescale_if_needed
  rescale_if_needed-early now r early = ground (arith, early)

  -- `record_value` once the entries are settled, and `update` once the rescaling is.
  abbrev counted_in : Reservoir d alpha → Option (Entries d alpha) → Option (Reservoir d alpha)
  counted_in r none = none
  counted_in r (some m) =
      some (record r { content = record r.content { entries = m; count = r.content.count + 1 } })

  abbrev recorded : ℕ → d.F → ℕ → Option (Reservoir d alpha) → Option (Reservoir d alpha)
  recorded now u v none = none
  recorded now u v (some r) = record_value d alpha now u v r

  record_value-IsBounded :
      (now : ℕ) (u : d.F) (v : ℕ) (r : Reservoir d alpha)
      → IsBounded r
      → (r' : Reservoir d alpha) × (record_value d alpha now u v r ≡ some r')
        × IsBounded r'
        × (r'.content.count ≡ r.content.count + 1)
        × (r'.next_scale ≡ r.next_scale)
  unfolding record_value
  record_value-IsBounded now u v r b =
      let c = r.content in
      let (m', got, full, counted) =
        put-total c.count (priority_of d alpha now c.landmark u) v c.entries b.full b.counted in
      (
        record r { content = record c { entries = m'; count = c.count + 1 } },
        ap (counted_in r) got,
        record { full = full; counted = counted },
        refl,
        refl,
      )

  -- `update` before the next rescaling terminates and keeps the reservoir within `kSize` entries,
  -- whatever random number and value it is called with; one more value is counted, and the time of
  -- the next rescaling stays.
  pub update-IsBounded :
      (now : ℕ) (u : d.F) (v : ℕ) (r : Reservoir d alpha)
      → now ≤ r.next_scale
      → IsBounded r
      → (r' : Reservoir d alpha) × (update d alpha now u v r ≡ some r')
        × IsBounded r'
        × (r'.content.count ≡ r.content.count + 1)
        × (r'.next_scale ≡ r.next_scale)
  unfolding update
  update-IsBounded now u v r early b =
      let (r', got, bounded, one_more, same) = record_value-IsBounded now u v r b in
      (
        r',
        ap (recorded now u v) (rescale_if_needed-early now r early) ∙ got,
        bounded,
        one_more,
        same,
      )

  pub length-snapshot :
      (r : Reservoir d alpha) → length (snapshot d alpha r) ≡ length r.content.entries
  unfolding snapshot
  length-snapshot r = length-map (λ e. e.1) r.content.entries
