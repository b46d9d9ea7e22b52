-- ===== src/SkipList/Shrunk.antt =====
-- The list at level 0 without one of its nodes, as `erase` leaves it.
use ccmetrics.Base.{
  ℕ, suc, ◌≤◌, ◌≡◌, refl, true, false, not, List, ◌∷◌, ◌++◌, ◌==◌, ltb, if◌then◌else◌, occurrences,
  occurrences-append, arith,
}
use ccmetrics.SkipList.{Link, link, null, clear, marked_null, SkipList}
use ccmetrics.SkipList.Walks.{with_hazard}
use ccmetrics.SkipList.Shape.{
  head_link, head_link-plain, last, Leads, Leads-front, Leads-back, Leads-first, Leads-join,
  AllAlive-front, AllAlive-back, IsMap,
}
use ccmetrics.SkipList.Paths.{
  occurrences-last, occurrences-apart, Leads-frame, Leads-moved, Leads-reroute, AllAlive-join,
}
use ccmetrics.SkipList.Grown.{apart}
use ccmetrics.SkipList.Unlinked.{with_marks, with_unlinked}

-- The state with the node `c` behind `xs` unlinked; `next` are the pointers with those of `c` marked.
abbrev pub shrunk :
    {K V : Type 0}
    → SkipList K V
    → (xs : List ℕ) → (c : ℕ) → (next : ℕ → ℕ → Link) → (ℕ → Link)
    → SkipList K V
shrunk s xs c next h =
    with_hazard (with_unlinked (record s { next = next }) (last s.head xs) c (next c 0)) h

module _ {K V : Type 0} (s : SkipList K V) (xs : List ℕ) (c : ℕ) (ys : List ℕ)
    (m : IsMap s (xs ++ c ∷ ys)) where
  module _ (next : ℕ → ℕ → Link) (h : ℕ → Link)
      (marks : (x i : ℕ) → next x i ≡ with_marks s.next c (s.node_height c) x i) where
    abbrev state : SkipList K V
    state = shrunk s xs c next h

    pub inside_c : 1 ≤ occurrences c (xs ++ c ∷ ys)
    inside_c = ground (arith, occurrences-append c xs (c ∷ ys))

    pub last-apart : (c == last s.head xs) ≡ false
    last-apart =
        occurrences-apart c (last s.head xs) (s.head ∷ xs) (ground (arith, apart s xs (c ∷ ys) m c))
          (occurrences-last s.head xs)

    tall_c : ltb 0 (s.node_height c) ≡ true
    tall_c =
        let (_, all) = m.alive in
        let (alive_c, _) = AllAlive-back s xs (c ∷ ys) all in ground (arith, alive_c)

    after_c : s.next c 0 ≡ head_link ys null
    after_c = Leads-first s c ys null (Leads-back s s.head xs (c ∷ ys) null m.path).1

    -- The marking succeeds at level 0.
    pub marking : (if s.node_height c == 0 then false else not (s.next c 0).bit) ≡ true
    marking = ground (arith, after_c, head_link-plain ys null refl, tall_c)

    pub dead_c : (next c 0).bit ≡ true
    dead_c = ground (arith, marks c 0, tall_c)

    pub marked-Leads : Leads (record s { next = next }) s.head xs (link c)
    marked-Leads =
        Leads-frame s (record s { next = next }) s.head xs (link c)
          (λ x inside. ground (arith, marks x 0, apart s xs (c ∷ ys) m x, inside))
          (Leads-front s s.head xs (c ∷ ys) null m.path)

    pub still-bare : (i : ℕ) → next s.head (suc i) ≡ marked_null
    still-bare i = ground (
      arith,
      m.bare i,
      marks s.head (suc i),
      m.once s.head,
      occurrences-append s.head xs (c ∷ ys),
    )

    behind_c : clear (next c 0) ≡ head_link ys null
    behind_c = ground (arith, marks c 0, after_c, head_link-plain ys null refl, tall_c)

    state-Leads : Leads state s.head (xs ++ ys) null
    state-Leads =
        Leads-join state s.head xs ys null
          (Leads-reroute s state s.head xs (link c) (head_link ys null)
            (λ x. omega (arith, apart s xs (c ∷ ys) m x))
            (λ x inside other. ground (arith, marks x 0, apart s xs (c ∷ ys) m x, inside, other))
            ground (arith, behind_c) (Leads-front s s.head xs (c ∷ ys) null m.path))
          (Leads-moved s state c (last s.head xs) ys ground (arith, behind_c)
            (λ x inside. ground (
              arith,
              marks x 0,
              apart s xs (c ∷ ys) m x,
              inside,
              occurrences-apart x (last s.head xs) (s.head ∷ xs)
                  (ground (arith, apart s xs (c ∷ ys) m x, inside)) (occurrences-last s.head xs),
            ))
            (Leads-back s s.head xs (c ∷ ys) null m.path).1)

    pub IsMap-shrunk : IsMap (shrunk s xs c next h) (xs ++ ys)
    IsMap-shrunk =
        let (here, all) = m.alive in
        record {
          path = state-Leads;
          once = λ x.
              ground
                (arith, m.once x, occurrences-append x xs ys, occurrences-append x xs (c ∷ ys));
          alive = (
            here,
            AllAlive-join state xs ys (AllAlive-front s xs (c ∷ ys) all)
                (AllAlive-back s xs (c ∷ ys) all).1,
          );
          named = λ x above. ground (
            arith,
            m.named x above,
            occurrences-append x xs ys,
            occurrences-append x xs (c ∷ ys),
          );
          owned = λ x.
              ground
                (arith, m.owned x, occurrences-append x xs ys, occurrences-append x xs (c ∷ ys));
          linked = λ x inside. ground (
            arith,
            m.linked x (
                omega
                  (arith, inside, occurrences-append x xs ys, occurrences-append x xs (c ∷ ys))),
            apart s xs (c ∷ ys) m x,
            occurrences-append x xs ys,
            inside,
          );
          low = m.low;
          tall = m.tall;
          bare = λ i. ground (arith, still-bare i);
        }
