-- ===== src/SkipList/Erased.antt =====
-- What `erase` returns and leaves in a map that no other operation is at work on.
use ccmetrics.Base.{
  ℕ, suc, ◌≤◌, ◌≡◌, refl, ap, ◌∙◌, Bool, true, false, ◌&&◌, List, ◌∷◌, ◌++◌, if◌then◌else◌, update,
  length, arith,
}
use ccmetrics.SkipList.{
  Link, null, SkipList, Cmd, ok, and_then, same_link, crash, clear_hazards, pure, ◌>>=◌, ◌>>◌,
}
use ccmetrics.SkipList.Search.{FindResult, find_node}
use ccmetrics.SkipList.Update.{mark_levels, erase_found, erase}
use ccmetrics.SkipList.Walks.{with_hazard}
use ccmetrics.SkipList.Shape.{last, AllAlive-front, AllAlive-back, IsMap, IsMap-top, IsMap-height}
use ccmetrics.SkipList.Found.{AreBelow, Stops, hits, result, find_node-result}
use ccmetrics.SkipList.Unlinked.{with_marks, mark_levels-eq, find_node-dead}
use ccmetrics.SkipList.Shrunk.{shrunk, marking, dead_c, marked-Leads, still-bare, inside_c}

module _ {K V : Type 0} (lt : K → K → Bool) (fuel : ℕ) (key : K) where
  erase_found-miss :
      (found : FindResult) (s : SkipList K V)
      → found.match ≡ false
      → erase_found lt (suc fuel) key found s ≡ ok false s
  unfolding erase_found
  erase_found-miss found s miss = ground arith

  -- `erase` behind the marking, and behind its second search.
  abbrev then_end : FindResult → Bool → FindResult → Cmd K V Bool
  then_end found done again =
      if again.match && same_link again.cur found.cur then crash else clear_hazards >> pure done

  abbrev then_find : FindResult → Bool → Cmd K V Bool
  then_find found done = find_node lt (suc fuel) key >>= then_end found done

  erase_found-hit :
      (found : FindResult) (s : SkipList K V)
      → found.match ≡ true
      → erase_found lt (suc fuel) key found s
        ≡ and_then (mark_levels (s.node_height found.cur.to) found.cur.to s) (then_find found)
  unfolding erase_found
  erase_found-hit found s hit = ground arith

  -- The marking loop, and a search for a key that is above those of the nodes before: it unlinks the
  -- marked node, and ends there.
  pub find_node-marked :
      (s : SkipList K V) (xs : List ℕ) (c : ℕ) (ys : List ℕ)
      → IsMap s (xs ++ c ∷ ys)
      → AreBelow lt s key xs
      → length xs ≤ fuel
      → (next : ℕ → ℕ → Link) × (h : ℕ → Link) × ((x i : ℕ)
          → next x i ≡ with_marks s.next c (s.node_height c) x i)
        × (mark_levels (s.node_height c) c s ≡ ok true (record s { next = next }))
        × (find_node lt (suc fuel) key (record s { next = next })
            ≡ ok
                (record { prev = last s.head xs; cur = null; next = next c 0; match = false })
                (shrunk s xs c next h))
  find_node-marked s xs c ys m below enough =
      let (here, all) = m.alive in
      let (alive_c, _) = AllAlive-back s xs (c ∷ ys) all in
      let (next, marks, e2) =
        mark_levels-eq (s.node_height c) c s (ground (arith, alive_c)) (omega arith) in
      let s2 = record s { next = next } in
      let (h, e3) =
        find_node-dead lt fuel key s2 xs c (next c 0) here (AllAlive-front s xs (c ∷ ys) all)
          (marked-Leads s xs c ys m next s.hazard marks) below (IsMap-top s (xs ++ c ∷ ys) m)
          (still-bare s xs c ys m next s.hazard marks) enough alive_c refl
          (dead_c s xs c ys m next s.hazard marks)
          (m.linked c (inside_c s xs c ys m next s.hazard marks)) in
      (next, h, marks, e2 ∙ ap (λ b. ok b s2) (marking s xs c ys m next s.hazard marks), e3)

  module _ (s : SkipList K V) (xs : List ℕ) (below : AreBelow lt s key xs)
      (enough : length xs ≤ fuel) where
    pub erase-miss :
        (ys : List ℕ)
        → IsMap s (xs ++ ys)
        → Stops lt s key ys
        → hits lt s key ys ≡ false
        → (h : ℕ → Link) × (erase lt (suc fuel) key s ≡ ok false (with_hazard s h))
    unfolding erase
    erase-miss ys m stops miss =
        let (nx, h, e) = find_node-result lt fuel key s xs ys m below stops enough in
        (
          h,
          ap (λ t. and_then t (erase_found lt (suc fuel) key)) e
              ∙ erase_found-miss (result lt s key xs ys nx) (with_hazard s h) miss,
        )

    pub erase-hit :
        (c : ℕ) (ys : List ℕ)
        → IsMap s (xs ++ c ∷ ys)
        → Stops lt s key (c ∷ ys)
        → hits lt s key (c ∷ ys) ≡ true
        → (next : ℕ → ℕ → Link) × (h : ℕ → Link) × ((x i : ℕ)
            → next x i ≡ with_marks s.next c (s.node_height c) x i)
          × (erase lt (suc fuel) key s ≡ ok true (shrunk s xs c next h))
    unfolding erase
    erase-hit c ys m stops hit =
        let (nx, h1, e1) = find_node-result lt fuel key s xs (c ∷ ys) m below stops enough in
        let found = result lt s key xs (c ∷ ys) nx in
        let s1 = with_hazard s h1 in
        let m1 = IsMap-height s (xs ++ c ∷ ys) s.height h1 m.low m in
        let (next, h, marks, e2, e3) = find_node-marked s1 xs c ys m1 below enough in
        (
          next,
          update (update (update h 0 null) 1 null) 2 null,
          marks,
          ap (λ t. and_then t (erase_found lt (suc fuel) key)) e1
              ∙ erase_found-hit found s1 hit
              ∙ ap (λ t. and_then t (then_find found)) e2
              ∙ ap (λ t. and_then t (then_end found true)) e3,
        )
