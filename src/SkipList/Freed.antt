-- ===== src/SkipList/Freed.antt =====
-- What the destructor does in a map that no other operation is at work on.
use ccmetrics.Base.{
  ℕ, suc, ◌+◌, ◌-◌, ◌≤◌, ◌≡◌, refl, ap, ◌∙◌, List, [], ◌∷◌, update, occurrences, length, arith,
}
use ccmetrics.SkipList.{Link, link, null, SkipList, ok, load, free_node}
use ccmetrics.SkipList.Traverse.{free_all, destroy}
use ccmetrics.SkipList.Walks.{Alive}
use ccmetrics.SkipList.Shape.{Leads, AllAlive, IsMap}
use ccmetrics.SkipList.Paths.{AllAlive-frame}
use ccmetrics.SkipList.Found.{rounds_for, rounds_for-eq}

module _ {K V : Type 0} where
  -- The state behind the destructor's loop.
  abbrev pub with_freed : SkipList K V → List ℕ → SkipList K V
  with_freed s [] = s
  with_freed s (c ∷ cs) =
      with_freed (record s { node_height = update s.node_height c 0; freed = c ∷ s.freed }) cs

  free_all-step :
      (fuel c : ℕ) (y : Link) (s : SkipList K V)
      → Alive s c
      → s.next c 0 ≡ y
      → free_all (suc fuel) (link c) s
        ≡ free_all fuel y (record s { node_height = update s.node_height c 0; freed = c ∷ s.freed })
  unfolding free_all load free_node
  free_all-step fuel c y s here at = ground arith

  free_all-Leads :
      (fuel c : ℕ) (cs : List ℕ) (s : SkipList K V)
      → ((x : ℕ) → occurrences x (c ∷ cs) ≤ 1)
      → Alive s c
      → AllAlive s cs
      → Leads s c cs null
      → free_all (suc (rounds_for cs (suc fuel))) (link c) s ≡ ok tt (with_freed s (c ∷ cs))
  unfolding free_all
  free_all-Leads fuel c [] s once here alive path = free_all-step (suc fuel) c null s here path
  free_all-Leads fuel c (d ∷ cs) s once here (here_d, alive) (e, path) =
      let s1 = record s { node_height = update s.node_height c 0; freed = c ∷ s.freed } in
      free_all-step (suc (rounds_for cs (suc fuel))) c (link d) s here e
      ∙ free_all-Leads fuel d cs s1 (λ x. omega (arith, once x)) (ground (arith, here_d, once c))
          (AllAlive-frame s s1 cs (λ x inside live. ground (arith, once x, inside, live)) alive)
          path

  destroy-Leads :
      (fuel : ℕ) (cs : List ℕ) (s : SkipList K V)
      → IsMap s cs
      → length cs ≤ fuel
      → destroy (suc (suc fuel)) s ≡ ok tt (with_freed s (s.head ∷ cs))
  unfolding destroy
  destroy-Leads fuel cs s m enough =
      let (here, alive) = m.alive in
      let rounds : suc fuel ≡ rounds_for cs (suc (fuel - length cs)) =
        omega (arith, rounds_for-eq cs (suc (fuel - length cs)), enough) in
      ap (λ n. free_all (suc n) (link s.head) s) rounds
      ∙ free_all-Leads (fuel - length cs) s.head cs s m.once here alive m.path

  occurrences-with_freed :
      (x : ℕ) (cs : List ℕ) (s : SkipList K V)
      → (occurrences x (with_freed s cs).freed ≡ occurrences x cs + occurrences x s.freed)
        × ((with_freed s cs).retired ≡ s.retired)
        × ((with_freed s cs).next_address ≡ s.next_address)
  occurrences-with_freed x [] s = (omega arith, refl, refl)
  occurrences-with_freed x (c ∷ cs) s =
      let s1 = record s { node_height = update s.node_height c 0; freed = c ∷ s.freed } in
      let (f, r, n) = occurrences-with_freed x cs s1 in (omega (arith, f), r, n)

  -- The destructor frees every node of the list.
  pub destroy-result :
      (fuel : ℕ) (cs : List ℕ) (s : SkipList K V)
      → IsMap s cs
      → length cs ≤ fuel
      → (s' : SkipList K V) × (destroy (suc (suc fuel)) s ≡ ok tt s')
        × ((x : ℕ) → occurrences x s'.freed ≡ occurrences x (s.head ∷ cs) + occurrences x s.freed)
        × (s'.retired ≡ s.retired)
  destroy-result fuel cs s m enough = (
    with_freed s (s.head ∷ cs),
    destroy-Leads fuel cs s m enough,
    λ x. (occurrences-with_freed x (s.head ∷ cs) s).0,
    (occurrences-with_freed 0 (s.head ∷ cs) s).1,
  )
