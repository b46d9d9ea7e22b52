-- ===== src/SkipList/Looked.antt =====
-- What `find(key, value)` and `exists` return in a map that no other operation is at work on.
use ccmetrics.Base.{
  ℕ, suc, ◌≤◌, ◌≡◌, refl, sym, ap, ◌∙◌, Bool, List, [], ◌∷◌, ◌++◌, Option, none, some,
  if◌then◌else◌, update, length, length-append, arith,
}
use ccmetrics.SkipList.{
  Link, SkipList, Cmd, ok, and_then, load_value, clear_hazards, pure, ◌>>=◌, ◌>>◌, null,
}
use ccmetrics.SkipList.Search.{FindResult}
use ccmetrics.SkipList.Update.{find_value, exists}
use ccmetrics.SkipList.Walks.{with_hazard}
use ccmetrics.SkipList.Shape.{AllAlive, AllAlive-back, IsMap, entries_of}
use ccmetrics.SkipList.Found.{AreBelow, Stops, hits, result, find_node-result}
use ccmetrics.SkipList.Cut.{by_cut, find-cut, exists-cut, front_value}
use ccmetrics.SkipMap

module _ {K V : Type 0} (lt : K → K → Bool) (fuel : ℕ) (key : K) (s : SkipList K V) where
  -- `find(key, value)` and `exists` behind their search.
  abbrev then_value : FindResult → Cmd K V (Option V)
  then_value found = do
    v ← (if found.match then (do v ← load_value found.cur.to; pure (some v)) else pure none)
    clear_hazards
    pure v

  abbrev pub then_match : FindResult → Cmd K V Bool
  then_match found = clear_hazards >> pure found.match

  abbrev pub cleared : (ℕ → Link) → ℕ → Link
  cleared h = update (update (update h 0 null) 1 null) 2 null

  then_value-result :
      (xs ys : List ℕ) (nx : Link) (h : ℕ → Link)
      → AllAlive s ys
      → then_value (result lt s key xs ys nx) (with_hazard s h)
        ≡ ok (if hits lt s key ys then front_value s ys else none) (with_hazard s (cleared h))
  unfolding load_value
  then_value-result xs [] nx h alive = refl
  then_value-result xs (c ∷ ys) nx h (here, alive) = ground (arith, here)

  module _ (xs ys : List ℕ) (m : IsMap s (xs ++ ys)) (below : AreBelow lt s key xs)
      (stops : Stops lt s key ys) (enough : length (xs ++ ys) ≤ fuel) where
    find_value-at :
        (h : ℕ → Link) × (find_value lt (suc fuel) key s
          ≡ ok (SkipMap.find lt key (entries_of s (xs ++ ys))) (with_hazard s h))
    unfolding find_value
    find_value-at =
        let (nx, h, e) =
          find_node-result lt fuel key s xs ys m below stops
            (omega (arith, enough, length-append xs ys)) in
        (
          cleared h,
          ap (λ r. and_then r then_value) e
              ∙ then_value-result xs ys nx h (AllAlive-back s xs ys m.alive.1)
              ∙ ap (λ v. ok v (with_hazard s (cleared h)))
                  (sym (find-cut lt s key xs ys below stops)),
        )

    exists-at :
        (h : ℕ → Link) × (exists lt (suc fuel) key s
          ≡ ok (SkipMap.exists lt key (entries_of s (xs ++ ys))) (with_hazard s h))
    unfolding exists
    exists-at =
        let (nx, h, e) =
          find_node-result lt fuel key s xs ys m below stops
            (omega (arith, enough, length-append xs ys)) in
        (
          cleared h,
          ap (λ r. and_then r then_match) e
              ∙ ap (λ b. ok b (with_hazard s (cleared h)))
                  (sym (exists-cut lt s key xs ys below stops)),
        )

  -- `find(key, value)` is the lookup of the abstract map.
  pub find_value-result :
      (cs : List ℕ)
      → IsMap s cs
      → length cs ≤ fuel
      → (h : ℕ → Link) × (find_value lt (suc fuel) key s
          ≡ ok (SkipMap.find lt key (entries_of s cs)) (with_hazard s h))
  find_value-result =
      by_cut lt s key
        (λ cs.
          IsMap s cs
          → length cs ≤ fuel
          → (h : ℕ → Link) × (find_value lt (suc fuel) key s
              ≡ ok (SkipMap.find lt key (entries_of s cs)) (with_hazard s h)))
        (λ xs ys below stops m enough. find_value-at xs ys m below stops enough)

  -- `exists` is that of the abstract map.
  pub exists-result :
      (cs : List ℕ)
      → IsMap s cs
      → length cs ≤ fuel
      → (h : ℕ → Link) × (exists lt (suc fuel) key s
          ≡ ok (SkipMap.exists lt key (entries_of s cs)) (with_hazard s h))
  exists-result =
      by_cut lt s key
        (λ cs.
          IsMap s cs
          → length cs ≤ fuel
          → (h : ℕ → Link) × (exists lt (suc fuel) key s
              ≡ ok (SkipMap.exists lt key (entries_of s cs)) (with_hazard s h)))
        (λ xs ys below stops m enough. exists-at xs ys m below stops enough)
