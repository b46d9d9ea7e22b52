-- ===== src/SkipList/Inserted.antt =====
-- What `insert` returns and leaves in a map that no other operation is at work on.
use ccmetrics.Base.{
  ℕ, suc, ◌≤◌, ◌<◌, ◌≡◌, refl, ap, ◌∙◌, Bool, true, false, List, [], ◌∷◌, ◌++◌, update, occurrences,
  length, arith,
}
use ccmetrics.SkipList.{Link, null, SkipList, ok, max_height, and_then}
use ccmetrics.SkipList.Search.{FindResult}
use ccmetrics.SkipList.Update.{random_level, clamped, insert_found, insert}
use ccmetrics.SkipList.Walks.{with_hazard}
use ccmetrics.SkipList.Shape.{
  last, Leads-back, Leads-first, AllAlive-last, AllAlive-front, IsMap, IsMap-top, IsMap-height,
  entries_of,
}
use ccmetrics.SkipList.Found.{AreBelow, Stops, hits, result, find_node-result}
use ccmetrics.SkipList.Linked.{level_of-bound, insert_found-miss}
use ccmetrics.SkipList.Grown.{grown, fresh, last-old}

pub clamped-low :
    (r height : ℕ)
    → height < max_height
    → (((clamped (random_level r) height).0 < max_height)
        × ((clamped (random_level r) height).1 < max_height))
clamped-low r height low = ground (arith, level_of-bound 11 r)

module _ {K V : Type 0} where
  pub entries_of-append :
      (s : SkipList K V) (xs ys : List ℕ)
      → entries_of s (xs ++ ys) ≡ entries_of s xs ++ entries_of s ys
  entries_of-append s [] ys = refl
  entries_of-append s (x ∷ xs) ys = ap (λ m. (s.key x, s.val x) ∷ m) (entries_of-append s xs ys)

  pub entries_of-frame :
      (s s' : SkipList K V) (cs : List ℕ)
      → ((x : ℕ) → 1 ≤ occurrences x cs → (s'.key x ≡ s.key x) × (s'.val x ≡ s.val x))
      → entries_of s' cs ≡ entries_of s cs
  entries_of-frame s s' [] same = refl
  entries_of-frame s s' (c ∷ cs) same =
      let (k, v) = same c (ground arith) in
      let rest = entries_of-frame s s' cs (λ x inside. same x (omega (arith, inside))) in
      ap (λ a. (a, s'.val c) ∷ entries_of s' cs) k
      ∙ ap (λ b. (s.key c, b) ∷ entries_of s' cs) v
      ∙ ap (λ m. (s.key c, s.val c) ∷ m) rest

module _ {K V : Type 0} (lt : K → K → Bool) (fuel r : ℕ) (key : K) (value : V) (s : SkipList K V)
    (xs ys : List ℕ) (m : IsMap s (xs ++ ys)) (below : AreBelow lt s key xs)
    (stops : Stops lt s key ys) (enough : length xs ≤ fuel) where
  abbrev level : ℕ
  level = (clamped (random_level r) s.height).0

  abbrev height : ℕ
  height = (clamped (random_level r) s.height).1

  abbrev raised : SkipList K V
  raised = record s { height = height }

  insert_found-hit :
      (level height : ℕ) (found : FindResult) (s : SkipList K V)
      → found.match ≡ true
      → insert_found lt (suc fuel) key value level height found s ≡ ok false s
  unfolding insert_found
  insert_found-hit level height found s hit = ground arith

  pub insert-hit :
      hits lt s key ys ≡ true
      → (h : ℕ → Link) × (insert lt (suc fuel) r key value s
          ≡ ok false (record s { height = height; hazard = h }))
  unfolding insert insert_found
  insert-hit hit =
      let m1 = IsMap-height s (xs ++ ys) height s.hazard (clamped-low r s.height m.low).1 m in
      let (nx, h, e) = find_node-result lt fuel key raised xs ys m1 below stops enough in
      (
        h,
        ap (λ t. and_then t (insert_found lt (suc fuel) key value level height)) e
            ∙ insert_found-hit level height (result lt s key xs ys nx) (with_hazard raised h) hit,
      )

  pub insert-miss :
      hits lt s key ys ≡ false
      → (h : ℕ → Link) × (lc : ℕ → ℕ) × ((x : ℕ) → lc x ≡ update s.link_count s.next_address 1 x)
        × (insert lt (suc fuel) r key value s ≡ ok true (grown s xs ys level height key value h lc))
  unfolding insert
  insert-miss miss =
      let m1 = IsMap-height s (xs ++ ys) height s.hazard (clamped-low r s.height m.low).1 m in
      let (nx, h1, e1) = find_node-result lt fuel key raised xs ys m1 below stops enough in
      let (here, all) = m.alive in
      let (h, lc, counts, e2) =
        insert_found-miss lt fuel key value level height (result lt s key xs ys nx)
          (with_hazard raised h1) miss (AllAlive-last s s.head xs here (AllAlive-front s xs ys all))
          (last-old s xs ys m) (fresh s xs ys m s.head (ground arith))
          (Leads-first s (last s.head xs) ys null (Leads-back s s.head xs ys null m.path))
          (IsMap-top raised (xs ++ ys) m1) m.bare (clamped-low r s.height m.low).0 in
      (
        h,
        lc,
        counts,
        ap (λ t. and_then t (insert_found lt (suc fuel) key value level height)) e1 ∙ e2,
      )
