-- ===== src/SkipMap/Laws.antt =====
-- Sizes and eviction in the ordered map.
use ccmetrics.Base.{◌+◌, ◌≡◌, Bool, true, false, List, [], ◌∷◌, if◌then◌else◌, length, arith}
use ccmetrics.SkipMap.{insert, erase}

module _ {K V : Type 0} (lt : K → K → Bool) where
  -- An insertion that reports success adds one entry, and any other leaves the map alone.
  pub length-insert :
      (k : K) (v : V) (m : List (K × V))
      → length (insert lt k v m).0 ≡ length m + (if (insert lt k v m).1 then 1 else 0)
  unfolding insert
  length-insert k v [] = omega arith
  length-insert k v ((j, w) ∷ m) = ground (arith, length-insert k v m)

  -- An erasure that reports success removes one entry.
  pub length-erase :
      (k : K) (m : List (K × V))
      → length m ≡ length (erase lt k m).0 + (if (erase lt k m).1 then 1 else 0)
  unfolding erase
  length-erase k [] = omega arith
  length-erase k ((j, w) ∷ m) = ground (arith, length-erase k m)

  -- The first key is always there to be erased, and its entry is the first.
  pub erase-first :
      (j : K) (w : V) (m : List (K × V)) → lt j j ≡ false → erase lt j ((j, w) ∷ m) ≡ (m, true)
  unfolding erase
  erase-first j w m e = ground (arith, e)

  -- A key above the first one is inserted behind it.
  pub insert-behind :
      (k j : K) (v w : V) (m : List (K × V))
      → lt j k ≡ true
      → insert lt k v ((j, w) ∷ m) ≡ ((j, w) ∷ (insert lt k v m).0, (insert lt k v m).1)
  unfolding insert
  insert-behind k j v w m e = ground (arith, e)
