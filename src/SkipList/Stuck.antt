-- ===== src/SkipList/Stuck.antt =====
-- The traversals beside an `erase` that has marked its node and has not yet searched again.
use ccmetrics.Base.{
  ℕ, zero, suc, ◌≡◌, refl, ap, ◌∙◌, Bool, true, List, [], ◌∷◌, ◌++◌, if◌then◌else◌, update, arith,
}
use mathlib.Core.List.{reverse}
use ccmetrics.SkipList.{
  Link, link, SkipList, Cmd, ok, out_of_fuel, and_then, pure, load, load_value, current, set_hazard,
  ◌>>=◌, ◌>>◌,
}
use ccmetrics.SkipList.Update.{mark_levels}
use ccmetrics.SkipList.Traverse.{reload, extract, values}
use ccmetrics.SkipList.Walks.{Alive, with_hazard}
use ccmetrics.SkipList.Shape.{
  head_link, head_link-plain, Leads, Leads-first, AllAlive, AllAlive-front, AllAlive-back, IsMap,
}
use ccmetrics.SkipList.Traversed.{Reads, extract-step, extractor-first, load_value-Reads}
use ccmetrics.SkipList.Shrunk.{marking, dead_c, marked-Leads}
use ccmetrics.SkipList.Unlinked.{mark_levels-eq}

module _ {K V : Type 0} where
  reload-step :
      (fuel prev c : ℕ) (cur next y : Link) (s : SkipList K V)
      → next.bit ≡ true
      → Alive s prev
      → Alive s c
      → s.next prev 0 ≡ link c
      → s.next c 0 ≡ y
      → reload (suc fuel) prev cur next s
        ≡ reload fuel prev (link c) y (with_hazard s (update (update s.hazard 1 (link c)) 0 y))
  unfolding reload load
  reload-step fuel prev c cur next y s marked here here_c at_prev at = ground arith

  -- The loop never leaves a dead node that stays where it is.
  reload-dead :
      (fuel prev c : ℕ) (cur next y : Link) (s : SkipList K V)
      → next.bit ≡ true
      → Alive s prev
      → Alive s c
      → s.next prev 0 ≡ link c
      → s.next c 0 ≡ y
      → y.bit ≡ true
      → reload fuel prev cur next s ≡ out_of_fuel
  unfolding reload
  reload-dead zero prev c cur next y s marked here here_c at_prev at dead = refl
  reload-dead (suc fuel) prev c cur next y s marked here here_c at_prev at dead =
      let s1 = with_hazard s (update (update s.hazard 1 (link c)) 0 y) in
      reload-step fuel prev c cur next y s marked here here_c at_prev at
      ∙ reload-dead fuel prev c (link c) y y s1 dead here here_c at_prev at dead

module _ {K V A : Type 0} (f : ℕ → Cmd K V A) (g : ℕ → A) where
  -- `extract` behind its inner loop.
  abbrev then_extract : ℕ → A → List A → Bool × Link × Link → Cmd K V (List A)
  then_extract fuel e ret w =
      if w.0
      then set_hazard 2 w.1 >> set_hazard 1 w.2 >> extract f fuel w.1.to w.2 (e ∷ ret)
      else do
        s ← current
        first ← load s.head 0
        set_hazard 1 first
        extract f fuel s.head first (e ∷ ret)

  extract-reload :
      (fuel prev c : ℕ) (y : Link) (ret : List A) (s : SkipList K V)
      → Alive s c
      → s.next c 0 ≡ y
      → f c s ≡ ok (g c) s
      → extract f (suc fuel) prev (link c) ret s
        ≡ and_then
            (reload (suc fuel) prev (link c) y (with_hazard s (update s.hazard 0 y)))
            (then_extract fuel (g c) ret)
  unfolding extract load
  extract-reload fuel prev c y ret s here at read = ground arith

  extract-dead :
      (fuel prev : ℕ) (xs : List ℕ) (c : ℕ) (y : Link) (ret : List A) (s : SkipList K V)
      → Alive s prev
      → AllAlive s xs
      → Leads s prev xs (link c)
      → Reads f g s xs
      → Alive s c
      → Reads f g s (c ∷ [])
      → s.next c 0 ≡ y
      → y.bit ≡ true
      → extract f fuel prev (head_link xs (link c)) ret s ≡ out_of_fuel
  unfolding extract
  extract-dead zero prev xs c y ret s here alive path reads here_c reads_c at dead = refl
  extract-dead (suc fuel) prev [] c y ret s here alive path reads here_c (read, _) at dead =
      let s1 = with_hazard s (update s.hazard 0 y) in
      extract-reload fuel prev c y ret s here_c at (read s.hazard)
      ∙ ap (λ r. and_then r (then_extract fuel (g c) ret))
          (reload-dead (suc fuel) prev c (link c) y y s1 dead here here_c path at dead)
  extract-dead (suc fuel) prev (x ∷ xs) c y ret s here (here_x, alive) (e, path) (read, reads)
        here_c reads_c at dead =
      let l = head_link xs (link c) in
      let s1 = with_hazard s (update (update (update s.hazard 0 l) 2 (link x)) 1 l) in
      extract-step f g fuel prev x l ret s here_x (Leads-first s x xs (link c) path)
        (head_link-plain xs (link c) refl) (read s.hazard)
      ∙ extract-dead fuel x xs c y (g x ∷ ret) s1 here_x alive path reads here_c reads_c at dead

-- When an `erase` has marked its node and no thread unlinks it, `values` never returns, however long
-- it runs.
pub values-mark_levels :
    {K V : Type 0} (s : SkipList K V) (xs : List ℕ) (c : ℕ) (ys : List ℕ)
    → IsMap s (xs ++ c ∷ ys)
    → (s1 : SkipList K V) × (mark_levels (s.node_height c) c s ≡ ok true s1)
      × ((fuel : ℕ) → values fuel s1 ≡ out_of_fuel)
unfolding values
values-mark_levels s xs c ys m =
    let (here, all) = m.alive in
    let (alive_c, _) = AllAlive-back s xs (c ∷ ys) all in
    let front = AllAlive-front s xs (c ∷ ys) all in
    let (next, marks, e) =
      mark_levels-eq (s.node_height c) c s (ground (arith, alive_c)) (omega arith) in
    let s1 = record s { next = next } in
    let path = marked-Leads s xs c ys m next s.hazard marks in
    let y = head_link xs (link c) in
    let s2 = with_hazard s1 (update s1.hazard 1 y) in
    (
      s1,
      e ∙ ap (λ b. ok b s1) (marking s xs c ys m next s.hazard marks),
      λ fuel.
          extractor-first load_value s.val fuel y s1 here (Leads-first s1 s.head xs (link c) path)
          ∙ ap (λ r. and_then r (λ l. pure (reverse l)))
              (extract-dead load_value s.val fuel s.head xs c (next c 0) [] s2 here front path
                (load_value-Reads s1 xs front) alive_c (load_value-Reads s1 (c ∷ []) (alive_c, tt))
                refl (dead_c s xs c ys m next s.hazard marks)),
    )
