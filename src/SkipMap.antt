-- ===== src/SkipMap.antt =====
-- What src/concurrent_skip_list_map.h promises its callers, for one operation at a time: a map whose
-- entries stand in the order of their keys. Keys are equal when neither is below the other.
pub mod Laws
use ccmetrics.Base.{Bool, true, false, List, [], ◌∷◌, if◌then◌else◌, Option, none, some}

module _ {K V : Type 0} (lt : K → K → Bool) where
  -- `insert`: the map, and whether the pair was inserted.
  unfoldable pub insert : K → V → List (K × V) → List (K × V) × Bool
  insert k v [] = ((k, v) ∷ [], true)
  insert k v ((j, w) ∷ m) =
      let (m', done) = insert k v m in
      if lt j k
      then ((j, w) ∷ m', done)
      else if lt k j
      then ((k, v) ∷ (j, w) ∷ m, true)
      else ((j, w) ∷ m, false)

  -- `erase`: the map, and whether the key existed.
  unfoldable pub erase : K → List (K × V) → List (K × V) × Bool
  erase k [] = ([], false)
  erase k ((j, w) ∷ m) =
      let (m', done) = erase k m in
      if lt j k then ((j, w) ∷ m', done) else if lt k j then ((j, w) ∷ m, false) else (m, true)

  -- `find`.
  unfoldable pub find : K → List (K × V) → Option V
  find k [] = none
  find k ((j, w) ∷ m) =
      let rest = find k m in if lt j k then rest else if lt k j then none else some w

  -- `exists`.
  unfoldable pub exists : K → List (K × V) → Bool
  unfolding find
  exists k m = elim (find k m) [ none ↦ false | some v ↦ true ]

-- `firstKey`: the least key, or a default-constructed one.
unfoldable pub first_key : {K V : Type 0} → K → List (K × V) → K
first_key default [] = default
first_key default ((j, w) ∷ m) = j
