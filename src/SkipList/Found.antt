-- ===== src/SkipList/Found.antt =====
-- What `find` finds in a map that no other operation is at work on.
use ccmetrics.Base.{
  ℕ, zero, suc, ◌+◌, ◌-◌, ◌≤◌, ◌≡◌, refl, ap, ◌∙◌, Bool, true, false, not, List, [], ◌∷◌, ◌++◌,
  update, length, arith,
}
use ccmetrics.SkipList.{
  Link, link, null, marked_null, SkipList, Run, ok, load, load_key, has_level, and_then,
}
use ccmetrics.SkipList.Search.{Walk, restart, arrived, FindResult, walk, descend, found, find_node}
use ccmetrics.SkipList.Walks.{Alive, with_hazard, walk-next, walk-stop}
use ccmetrics.SkipList.Shape.{
  head_link, last, Leads, AllAlive, AllAlive-last, AllAlive-front, AllAlive-back, Leads-front,
  Leads-back, Leads-first, head_link-plain, IsMap, IsMap-top,
}

-- `f` rounds and one for each node.
abbrev pub rounds_for : List ℕ → ℕ → ℕ
rounds_for [] f = f
rounds_for (c ∷ cs) f = suc (rounds_for cs f)

pub rounds_for-eq : (cs : List ℕ) (f : ℕ) → rounds_for cs f ≡ length cs + f
rounds_for-eq [] f = omega arith
rounds_for-eq (c ∷ cs) f = omega (arith, rounds_for-eq cs f)

module _ {K V : Type 0} (lt : K → K → Bool) where
  -- The keys of all the nodes are below `key`.
  abbrev pub AreBelow : SkipList K V → K → List ℕ → Type 0
  AreBelow s key [] = Unit {0}
  AreBelow s key (c ∷ cs) = (lt (s.key c) key ≡ true) × AreBelow s key cs

  -- The walk passes nodes that are not dead and whose keys are below `key`.
  pub walk-below :
      (f : ℕ) (key : K) (prev : ℕ) (xs : List ℕ) (l nx : Link) (s : SkipList K V)
      → Alive s prev
      → AllAlive s xs
      → Leads s prev xs l
      → AreBelow s key xs
      → l.bit ≡ false
      → (nx' : Link) × (h : ℕ → Link) × (walk lt (rounds_for xs f) key 0 prev (head_link xs l) nx s
          ≡ walk lt f key 0 (last prev xs) l nx' (with_hazard s h))
  walk-below f key prev [] l nx s here alive path below plain = (nx, s.hazard, refl)
  walk-below f key prev (c ∷ xs) l nx s here (alive_c, alive) (e, path) (b, below) plain =
      let y = head_link xs l in
      let at_c = Leads-first s c xs l path in
      let unmarked = head_link-plain xs l plain in
      let step = walk-next lt (rounds_for xs f) key prev c y nx s here alive_c e at_c unmarked b in
      let h1 = update (update (update s.hazard 0 y) 2 (link c)) 1 y in
      let (nx', h, rest) =
        walk-below f key c xs l y (with_hazard s h1) alive_c alive path below plain in
      (nx', h, step ∙ rest)

  descend-level :
      (fuel : ℕ) (key : K) (i : ℕ) (nx : Link) (s : SkipList K V)
      → has_level s s.head (suc i) ≡ true
      → s.next s.head (suc i) ≡ marked_null
      → descend lt (suc fuel) key (suc i) s.head nx s
        ≡ descend lt (suc fuel) key i s.head nx (with_hazard s (update s.hazard 1 marked_null))
  unfolding descend load walk
  descend-level fuel key i nx s tall bare = ground arith

  -- The index levels of the head lead nowhere, so the descent reaches level 0 at the head.
  descend-bare :
      (fuel : ℕ) (key : K) (i : ℕ) (nx : Link) (s : SkipList K V)
      → has_level s s.head i ≡ true
      → ((j : ℕ) → s.next s.head (suc j) ≡ marked_null)
      → (h : ℕ → Link) × (descend lt (suc fuel) key i s.head nx s
          ≡ descend lt (suc fuel) key 0 s.head nx (with_hazard s h))
  descend-bare fuel key zero nx s tall bare = (s.hazard, refl)
  descend-bare fuel key (suc i) nx s tall bare =
      let s1 = with_hazard s (update s.hazard 1 marked_null) in
      let (h, rest) = descend-bare fuel key i nx s1 (ground (arith, tall)) bare in
      (h, descend-level fuel key i nx s tall (bare i) ∙ rest)

  descend-zero :
      (fuel : ℕ) (key : K) (c nx : Link) (s : SkipList K V)
      → Alive s s.head
      → s.next s.head 0 ≡ c
      → c.bit ≡ false
      → descend lt fuel key 0 s.head nx s
        ≡ walk lt fuel key 0 s.head c nx (with_hazard s (update s.hazard 1 c))
  unfolding descend load
  descend-zero fuel key c nx s here at plain = ground arith

  -- The first of the remaining nodes has a key that is not below `key`.
  abbrev pub Stops : SkipList K V → K → List ℕ → Type 0
  Stops s key [] = Unit {0}
  Stops s key (c ∷ cs) = lt (s.key c) key ≡ false

  -- Whether its key is `key`.
  abbrev pub hits : SkipList K V → K → List ℕ → Bool
  hits s key [] = false
  hits s key (c ∷ cs) = not (lt key (s.key c))

  abbrev pub result : SkipList K V → K → (xs ys : List ℕ) → Link → FindResult
  result s key xs ys nx = record {
    prev = last s.head xs;
    cur = head_link ys null;
    next = nx;
    match = hits s key ys;
  }

  walk-rest :
      (f : ℕ) (key : K) (prev : ℕ) (ys : List ℕ) (nx : Link) (s : SkipList K V)
      → Alive s prev
      → AllAlive s ys
      → Leads s prev ys null
      → Stops s key ys
      → (nx' : Link) × (h : ℕ → Link) × (walk lt (suc f) key 0 prev (head_link ys null) nx s
          ≡ ok (arrived prev (head_link ys null) nx') (with_hazard s h))
  walk-rest f key prev [] nx s here alive path stops = (nx, s.hazard, unfold walk in refl)
  walk-rest f key prev (c ∷ ys) nx s here (alive_c, alive) (e, path) stops = (
    head_link ys null,
    update s.hazard 0 (head_link ys null),
    walk-stop lt f key prev c (head_link ys null) nx s here alive_c e (Leads-first s c ys null path)
        (head_link-plain ys null refl) stops,
  )

  found-result :
      (key : K) (prev : ℕ) (ys : List ℕ) (nx : Link) (s : SkipList K V)
      → AllAlive s ys
      → Stops s key ys
      → found lt key prev (head_link ys null) nx s
        ≡ ok (record { prev = prev; cur = head_link ys null; next = nx; match = hits s key ys }) s
  unfolding found load_key
  found-result key prev [] nx s alive stops = refl
  found-result key prev (c ∷ ys) nx s (alive_c, alive) stops = ground arith

  -- The descent from the top of the head past the nodes `xs`, to the pointer `l` behind them.
  module _ (fuel : ℕ) (key : K) (s : SkipList K V) (xs : List ℕ) (l : Link) (here : Alive s s.head)
      (front : AllAlive s xs) (path : Leads s s.head xs l) (plain : l.bit ≡ false)
      (below : AreBelow s key xs) (top : has_level s s.head s.height ≡ true)
      (bare : (i : ℕ) → s.next s.head (suc i) ≡ marked_null) (enough : length xs ≤ fuel) where
    pub descend-below :
        (s0 : ℕ → Link)
        → (nx : Link) × (h : ℕ → Link) × (descend lt
              (suc fuel)
              key
              s.height
              s.head
              null
              (with_hazard s s0)
            ≡ walk lt (suc (fuel - length xs)) key 0 (last s.head xs) l nx (with_hazard s h))
    descend-below s0 =
        let c = head_link xs l in
        let (h1, e1) = descend-bare fuel key s.height null (with_hazard s s0) top bare in
        let e2 =
          descend-zero (suc fuel) key c null (with_hazard s h1) here
            (Leads-first s s.head xs l path) (head_link-plain xs l plain) in
        let f = fuel - length xs in
        let rounds : suc fuel ≡ rounds_for xs (suc f) =
          omega (arith, rounds_for-eq xs (suc f), enough) in
        let s2 = with_hazard s (update h1 1 c) in
        let (nx, h, e3) = walk-below (suc f) key s.head xs l null s2 here front path below plain in
        (nx, h, e1 ∙ e2 ∙ ap (λ n. walk lt n key 0 s.head c null s2) rounds ∙ e3)

  -- `find` behind the descent.
  abbrev pub find_then : ℕ → K → Walk → SkipList K V → Run K V FindResult
  find_then fuel key restart = find_node lt fuel key
  find_then fuel key (arrived p c n) = found lt key p c n

  -- `find` where level 0 leads through the nodes `xs` below the key and `ys` from it on.
  pub find_node-at :
      (fuel : ℕ) (key : K) (s : SkipList K V) (xs ys : List ℕ)
      → AllAlive s (s.head ∷ xs ++ ys)
      → Leads s s.head (xs ++ ys) null
      → has_level s s.head s.height ≡ true
      → ((i : ℕ) → s.next s.head (suc i) ≡ marked_null)
      → AreBelow s key xs
      → Stops s key ys
      → length xs ≤ fuel
      → (nx : Link) × (h : ℕ → Link) × (find_node lt (suc fuel) key s
          ≡ ok (result s key xs ys nx) (with_hazard s h))
  unfolding find_node
  find_node-at fuel key s xs ys (here, all) path top bare below stops enough =
      let front = AllAlive-front s xs ys all in
      let back = AllAlive-back s xs ys all in
      let (nx3, h3, e3) =
        descend-below fuel key s xs (head_link ys null) here front
          (Leads-front s s.head xs ys null path) (head_link-plain ys null refl) below top bare
          enough (update s.hazard 2 (link s.head)) in
      let (nx, h, e4) =
        walk-rest (fuel - length xs) key (last s.head xs) ys nx3 (with_hazard s h3)
          (AllAlive-last s s.head xs here front) back (Leads-back s s.head xs ys null path) stops in
      (
        nx,
        h,
        ap (λ r. and_then r (find_then fuel key)) (e3 ∙ e4)
            ∙ found-result key (last s.head xs) ys nx (with_hazard s h) back stops,
      )

  -- `find` in a map.
  pub find_node-result :
      (fuel : ℕ) (key : K) (s : SkipList K V) (xs ys : List ℕ)
      → IsMap s (xs ++ ys)
      → AreBelow s key xs
      → Stops s key ys
      → length xs ≤ fuel
      → (nx : Link) × (h : ℕ → Link) × (find_node lt (suc fuel) key s
          ≡ ok (result s key xs ys nx) (with_hazard s h))
  find_node-result fuel key s xs ys m =
      find_node-at fuel key s xs ys m.alive m.path (IsMap-top s (xs ++ ys) m) m.bare
