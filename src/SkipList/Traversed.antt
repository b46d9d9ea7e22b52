-- ===== src/SkipList/Traversed.antt =====
-- What the traversals do in a map that no other operation is at work on.
use ccmetrics.Base.{
  ℕ, suc, ◌-◌, ◌≤◌, ◌≡◌, refl, ap, ◌∙◌, false, List, [], ◌∷◌, map, update, length, arith,
}
use mathlib.Core.List.{reverse, reverse_aux, reverse-reverse}
use ccmetrics.SkipList.{
  Link, link, null, SkipList, Run, Cmd, ok, load, load_key, load_value, and_then, pure,
}
use ccmetrics.SkipList.Traverse.{reload, extract, extractor, load_entry, values, entries, first_key}
use ccmetrics.SkipList.Walks.{Alive, with_hazard}
use ccmetrics.SkipList.Shape.{
  head_link, head_link-plain, Leads, Leads-first, AllAlive, IsMap, entries_of,
}
use ccmetrics.SkipMap
use ccmetrics.SkipList.Found.{rounds_for, rounds_for-eq}

module _ {K V A : Type 0} (f : ℕ → Cmd K V A) (g : ℕ → A) where
  -- `f` reads `g` at the nodes of a list, whatever the hazards.
  abbrev pub Reads : SkipList K V → List ℕ → Type 0
  Reads s [] = Unit {0}
  Reads s (c ∷ cs) =
      ((h : ℕ → Link) → f c (with_hazard s h) ≡ ok (g c) (with_hazard s h)) × Reads s cs

  pub extract-step :
      (fuel prev c : ℕ) (y : Link) (ret : List A) (s : SkipList K V)
      → Alive s c
      → s.next c 0 ≡ y
      → y.bit ≡ false
      → f c s ≡ ok (g c) s
      → extract f (suc fuel) prev (link c) ret s
        ≡ extract f fuel c y
            (g c ∷ ret)
            (with_hazard s (update (update (update s.hazard 0 y) 2 (link c)) 1 y))
  unfolding extract load reload
  extract-step fuel prev c y ret s here at plain read = ground arith

  extract-Leads :
      (fuel prev : ℕ) (cs : List ℕ) (ret : List A) (s : SkipList K V)
      → AllAlive s cs
      → Leads s prev cs null
      → Reads s cs
      → (h : ℕ → Link) × (extract f (rounds_for cs (suc fuel)) prev (head_link cs null) ret s
          ≡ ok (reverse_aux (map g cs) ret) (with_hazard s h))
  unfolding extract
  extract-Leads fuel prev [] ret s alive path reads =
      (update (update (update s.hazard 0 null) 1 null) 2 null, refl)
  extract-Leads fuel prev (c ∷ cs) ret s (alive_c, alive) (e, path) (read, reads) =
      let y = head_link cs null in
      let step =
        extract-step (rounds_for cs (suc fuel)) prev c y ret s alive_c
          (Leads-first s c cs null path) (head_link-plain cs null refl) (read s.hazard) in
      let h1 = update (update (update s.hazard 0 y) 2 (link c)) 1 y in
      let (h, rest) = extract-Leads fuel c cs (g c ∷ ret) (with_hazard s h1) alive path reads in
      (h, step ∙ rest)

  pub extractor-first :
      (fuel : ℕ) (y : Link) (s : SkipList K V)
      → Alive s s.head
      → s.next s.head 0 ≡ y
      → extractor f fuel s
        ≡ and_then
            (extract f fuel s.head y [] (with_hazard s (update s.hazard 1 y)))
            (λ l. pure (reverse l))
  unfolding extractor load
  extractor-first fuel y s here at = ground arith

  -- The traversal applies `f` to every node, in the order of the list.
  pub extractor-Leads :
      (fuel : ℕ) (cs : List ℕ) (s : SkipList K V)
      → IsMap s cs
      → Reads s cs
      → length cs ≤ fuel
      → (h : ℕ → Link) × (extractor f (suc fuel) s ≡ ok (map g cs) (with_hazard s h))
  extractor-Leads fuel cs s m reads enough =
      let (here, alive) = m.alive in
      let y = head_link cs null in
      let s1 = with_hazard s (update s.hazard 1 y) in
      let (h, e) = extract-Leads (fuel - length cs) s.head cs [] s1 alive m.path reads in
      let rounds : suc fuel ≡ rounds_for cs (suc (fuel - length cs)) =
        omega (arith, rounds_for-eq cs (suc (fuel - length cs)), enough) in
      let finish = λ (r : Run K V (List A)). and_then r (λ l. pure (reverse l)) in
      (
        h,
        extractor-first (suc fuel) y s here (Leads-first s s.head cs null m.path)
            ∙ ap (λ n. finish (extract f n s.head y [] s1)) rounds
            ∙ ap finish e
            ∙ ap (λ l. ok l (with_hazard s h)) (reverse-reverse (map g cs)),
      )

module _ {K V : Type 0} (s : SkipList K V) where
  pub load_value-Reads : (cs : List ℕ) → AllAlive s cs → Reads load_value s.val s cs
  unfolding load_value
  load_value-Reads [] alive = tt
  load_value-Reads (c ∷ cs) (here, alive) = (λ h. ground arith, load_value-Reads cs alive)

  load_entry-Reads : (cs : List ℕ) → AllAlive s cs → Reads load_entry (λ c. (s.key c, s.val c)) s cs
  unfolding load_entry load_key load_value
  load_entry-Reads [] alive = tt
  load_entry-Reads (c ∷ cs) (here, alive) = (λ h. ground arith, load_entry-Reads cs alive)

  entries_of-map : (cs : List ℕ) → map (λ c. (s.key c, s.val c)) cs ≡ entries_of s cs
  entries_of-map [] = refl
  entries_of-map (c ∷ cs) = ap (λ m. (s.key c, s.val c) ∷ m) (entries_of-map cs)

  values_of-map : (cs : List ℕ) → map s.val cs ≡ map (λ e. e.1) (entries_of s cs)
  values_of-map [] = refl
  values_of-map (c ∷ cs) = ap (λ m. s.val c ∷ m) (values_of-map cs)

  module _ (fuel : ℕ) (cs : List ℕ) (m : IsMap s cs) where
    pub entries-result :
        length cs ≤ fuel
        → (h : ℕ → Link) × (entries (suc fuel) s ≡ ok (entries_of s cs) (with_hazard s h))
    unfolding entries
    entries-result enough =
        let (h, e) =
          extractor-Leads load_entry (λ c. (s.key c, s.val c)) fuel cs s m
            (load_entry-Reads cs m.alive.1) enough in
        (h, e ∙ ap (λ l. ok l (with_hazard s h)) (entries_of-map cs))

    pub values-result :
        length cs ≤ fuel
        → (h : ℕ → Link) × (values (suc fuel) s
            ≡ ok (map (λ e. e.1) (entries_of s cs)) (with_hazard s h))
    unfolding values
    values-result enough =
        let (h, e) =
          extractor-Leads load_value s.val fuel cs s m (load_value-Reads cs m.alive.1) enough in
        (h, e ∙ ap (λ l. ok l (with_hazard s h)) (values_of-map cs))

module _ {K V : Type 0} where
  pub first_key-result :
      (default : K) (cs : List ℕ) (s : SkipList K V)
      → IsMap s cs
      → (h : ℕ → Link) × (first_key default s
          ≡ ok (SkipMap.first_key default (entries_of s cs)) (with_hazard s h))
  unfolding first_key load load_key SkipMap.first_key
  first_key-result default [] s m =
      let (here, _) = m.alive in
      (update (update s.hazard 1 null) 1 null, ground (arith, m.path, here))
  first_key-result default (c ∷ cs) s m =
      let (here, all) = m.alive in
      let (here_c, _) = all in
      let (at, _) = m.path in
      (update (update s.hazard 1 (link c)) 1 null, ground (arith, at, here, here_c))
