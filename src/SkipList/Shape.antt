-- ===== src/SkipList/Shape.antt =====
-- The list at level 0, as the addresses of its nodes, and what holds of a map that no operation is
-- at work on.
use ccmetrics.Base.{
  ℕ, suc, ◌+◌, ◌≤◌, ◌<◌, ◌≡◌, refl, true, false, ◌&&◌, List, [], ◌∷◌, ◌++◌, ltb, leb, if◌then◌else◌,
  occurrences, arith,
}
use ccmetrics.SkipList.{Link, link, null, marked_null, max_height, SkipList, has_level}
use ccmetrics.SkipList.Walks.{Alive}

-- A pointer to the first node of a list, or `l`.
abbrev pub head_link : List ℕ → Link → Link
head_link [] l = l
head_link (c ∷ cs) l = link c

pub head_link-plain : (cs : List ℕ) (l : Link) → l.bit ≡ false → (head_link cs l).bit ≡ false
head_link-plain [] l h = h
head_link-plain (c ∷ cs) l h = refl

-- The last node of a list, or `a`.
abbrev pub last : ℕ → List ℕ → ℕ
last a [] = a
last a (c ∷ cs) = last c cs

module _ {K V : Type 0} where
  -- From `a` the pointers of level 0 lead through `cs` to the pointer `l`.
  abbrev pub Leads : SkipList K V → ℕ → List ℕ → Link → Type 0
  Leads s a [] l = s.next a 0 ≡ l
  Leads s a (c ∷ cs) l = (s.next a 0 ≡ link c) × Leads s c cs l

  -- There is a node at each address of the list.
  abbrev pub AllAlive : SkipList K V → List ℕ → Type 0
  AllAlive s [] = Unit {0}
  AllAlive s (c ∷ cs) = Alive s c × AllAlive s cs

  pub Leads-front :
      (s : SkipList K V) (a : ℕ) (xs ys : List ℕ) (l : Link)
      → Leads s a (xs ++ ys) l
      → Leads s a xs (head_link ys l)
  Leads-front s a [] [] l p = p
  Leads-front s a [] (y ∷ ys) l (e, p) = e
  Leads-front s a (x ∷ xs) ys l (e, p) = (e, Leads-front s x xs ys l p)

  pub Leads-back :
      (s : SkipList K V) (a : ℕ) (xs ys : List ℕ) (l : Link)
      → Leads s a (xs ++ ys) l
      → Leads s (last a xs) ys l
  Leads-back s a [] ys l p = p
  Leads-back s a (x ∷ xs) ys l (e, p) = Leads-back s x xs ys l p

  pub Leads-join :
      (s : SkipList K V) (a : ℕ) (xs ys : List ℕ) (l : Link)
      → Leads s a xs (head_link ys l)
      → Leads s (last a xs) ys l
      → Leads s a (xs ++ ys) l
  Leads-join s a [] ys l p q = q
  Leads-join s a (x ∷ xs) ys l (e, p) q = (e, Leads-join s x xs ys l p q)

  pub Leads-end :
      (s : SkipList K V) (a : ℕ) (xs : List ℕ) (l : Link)
      → Leads s a xs l
      → s.next (last a xs) 0 ≡ l
  Leads-end s a [] l p = p
  Leads-end s a (x ∷ xs) l (e, p) = Leads-end s x xs l p

  pub Leads-first :
      (s : SkipList K V) (a : ℕ) (cs : List ℕ) (l : Link)
      → Leads s a cs l
      → s.next a 0 ≡ head_link cs l
  Leads-first s a [] l p = p
  Leads-first s a (c ∷ cs) l (e, p) = e

  pub AllAlive-front : (s : SkipList K V) (xs ys : List ℕ) → AllAlive s (xs ++ ys) → AllAlive s xs
  AllAlive-front s [] ys p = tt
  AllAlive-front s (x ∷ xs) ys (e, p) = (e, AllAlive-front s xs ys p)

  pub AllAlive-back : (s : SkipList K V) (xs ys : List ℕ) → AllAlive s (xs ++ ys) → AllAlive s ys
  AllAlive-back s [] ys p = p
  AllAlive-back s (x ∷ xs) ys (e, p) = AllAlive-back s xs ys p

  pub AllAlive-last :
      (s : SkipList K V) (a : ℕ) (xs : List ℕ) → Alive s a → AllAlive s xs → Alive s (last a xs)
  AllAlive-last s a [] h p = h
  AllAlive-last s a (x ∷ xs) h (e, p) = AllAlive-last s x xs e p

  -- What holds of the map with the nodes `cs`, when no operation is at work on it. In particular no
  -- node is dead, and the index levels of the head are still the marked null pointers of the
  -- constructor. `owned`: a node once made is in the list, retired
  -- or freed.
  pub record IsMap (s : SkipList K V) (cs : List ℕ) : Type 0 where
    pub path : Leads s s.head cs null
    pub once : (x : ℕ) → occurrences x (s.head ∷ cs) ≤ 1
    pub alive : AllAlive s (s.head ∷ cs)
    pub named : (x : ℕ) → s.next_address ≤ x → occurrences x (s.head ∷ cs) ≡ 0
    pub owned :
        (x : ℕ)
        → occurrences x (s.head ∷ cs) + occurrences x s.retired + occurrences x s.freed
          ≡ (if leb 1 x && ltb x s.next_address then 1 else 0)
    pub linked : (x : ℕ) → 1 ≤ occurrences x cs → s.link_count x ≡ 1
    pub low : s.height < max_height
    pub tall : s.node_height s.head ≡ max_height
    pub bare : (i : ℕ) → s.next s.head (suc i) ≡ marked_null

  pub IsMap-top : (s : SkipList K V) (cs : List ℕ) → IsMap s cs → has_level s s.head s.height ≡ true
  IsMap-top s cs m = let (here, _) = m.alive in ground (arith, m.tall, m.low, here)

  -- The height and the hazards are no part of what the map holds.
  pub IsMap-height :
      (s : SkipList K V) (cs : List ℕ) (height : ℕ) (h : ℕ → Link)
      → height < max_height
      → IsMap s cs
      → IsMap (record s { height = height; hazard = h }) cs
  IsMap-height s cs height h low m = record {
    path = m.path;
    once = m.once;
    alive = m.alive;
    named = m.named;
    owned = m.owned;
    linked = m.linked;
    low = low;
    tall = m.tall;
    bare = m.bare;
  }

  -- The entries of the nodes.
  abbrev pub entries_of : SkipList K V → List ℕ → List (K × V)
  entries_of s [] = []
  entries_of s (c ∷ cs) = (s.key c, s.val c) ∷ entries_of s cs
