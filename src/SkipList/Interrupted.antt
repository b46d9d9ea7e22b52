-- ===== src/SkipList/Interrupted.antt =====
-- Other threads beside an `erase` that has marked its node and has not yet searched again.
use ccmetrics.Base.{
  ℕ, suc, ◌≤◌, ◌≡◌, refl, ap, ◌∙◌, Bool, true, false, List, ◌∷◌, ◌++◌, length, length-append, arith,
}
use ccmetrics.SkipList.{SkipList, ok, and_then}
use ccmetrics.SkipList.Update.{mark_levels, exists}
use ccmetrics.SkipList.Walks.{with_hazard}
use ccmetrics.SkipList.Shape.{IsMap, entries_of}
use ccmetrics.SkipList.Found.{AreBelow}
use ccmetrics.SkipList.Shrunk.{shrunk, IsMap-shrunk}
use ccmetrics.SkipList.Erased.{find_node-marked}
use ccmetrics.SkipList.Inserted.{entries_of-frame}
use ccmetrics.SkipList.Looked.{then_match, cleared, exists-result}
use ccmetrics.SkipMap

module _ {K V : Type 0} (lt : K → K → Bool) (fuel : ℕ) (key : K) (s : SkipList K V) where
  -- When an `erase` has marked its node, and the keys of the nodes before it are below `key`, the next
  -- `exists` of `key` returns false whatever the rest of the list holds, and unlinks the marked node;
  -- the one after it returns whether `key` is in the map without the marked node.
  pub exists-mark_levels :
      (xs : List ℕ) (c : ℕ) (ys : List ℕ)
      → IsMap s (xs ++ c ∷ ys)
      → AreBelow lt s key xs
      → length (xs ++ c ∷ ys) ≤ fuel
      → (s1 s2 s3 : SkipList K V) × (mark_levels (s.node_height c) c s ≡ ok true s1)
        × (exists lt (suc fuel) key s1 ≡ ok false s2)
        × IsMap s2 (xs ++ ys)
        × (exists lt (suc fuel) key s2 ≡ ok (SkipMap.exists lt key (entries_of s (xs ++ ys))) s3)
  unfolding exists
  exists-mark_levels xs c ys m below enough =
      let long = length-append xs (c ∷ ys) in
      let (next, h, marks, e1, e2) =
        find_node-marked lt fuel key s xs c ys m below (omega (arith, enough, long)) in
      let h2 = cleared lt fuel key s h in
      let s2 = shrunk s xs c next h2 in
      let m2 = IsMap-shrunk s xs c ys m next h2 marks in
      let (h3, e3) =
        exists-result lt fuel key s2 (xs ++ ys) m2
          (omega (arith, enough, long, length-append xs ys)) in
      (
        record s { next = next },
        s2,
        with_hazard s2 h3,
        e1,
        ap (λ r. and_then r (then_match lt fuel key s)) e2,
        m2,
        e3
            ∙ ap (λ entries. ok (SkipMap.exists lt key entries) (with_hazard s2 h3))
                (entries_of-frame s s2 (xs ++ ys) (λ x inside. (refl, refl))),
      )
