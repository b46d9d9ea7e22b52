-- ===== src/SkipList/Unlinked.antt =====
-- What `erase` does in a map that no other operation is at work on.
use ccmetrics.Base.{
  ℕ, zero, suc, ◌-◌, ◌≤◌, ◌<◌, ◌≡◌, refl, ap, ◌∙◌, Bool, true, false, not, ◌&&◌, List, ◌∷◌, ◌==◌,
  ltb, if◌then◌else◌, update, length, arith,
}
use ccmetrics.SkipList.{
  Link, link, null, mark, clear, marked_null, SkipList, Run, ok, load, store, has_level, and_then,
  pure,
}
use ccmetrics.SkipList.Search.{find_node, found}
use ccmetrics.SkipList.Update.{mark_levels}
use ccmetrics.SkipList.Walks.{Alive, with_hazard, walk-dead}
use ccmetrics.SkipList.Shape.{last, Leads, Leads-end, AllAlive, AllAlive-last}
use ccmetrics.SkipList.Found.{AreBelow, find_then, descend-below}

-- The pointers of `a` below level `n` are marked.
abbrev pub with_marks : (ℕ → ℕ → Link) → (a n : ℕ) → ℕ → ℕ → Link
with_marks next a n x i = if (x == a) && ltb i n then mark (next x i) else next x i

module _ {K V : Type 0} where
  abbrev then_marked : ℕ → Link → Bool → SkipList K V → Run K V Bool
  then_marked i after lower = pure (if i == 0 then not after.bit else lower)

  abbrev marked_at : SkipList K V → (a i : ℕ) → SkipList K V
  marked_at s a i = record s { next = update s.next a (update (s.next a) i (mark (s.next a i))) }

  mark_levels-step :
      (n a : ℕ) (s : SkipList K V)
      → (a == 0) ≡ false
      → n < s.node_height a
      → mark_levels (suc n) a s
        ≡ and_then (mark_levels n a (marked_at s a n)) (then_marked n (s.next a n))
  unfolding mark_levels load store
  mark_levels-step n a s proper tall = ground arith

  marked-first :
      (n a : ℕ) (s : SkipList K V)
      → (if n == 0
          then not (s.next a n).bit
          else (if n == 0 then false else not ((marked_at s a n).next a 0).bit))
        ≡ (if suc n == 0 then false else not (s.next a 0).bit)
  marked-first zero a s = ground arith
  marked-first (suc n) a s = ground arith

  pub mark_levels-eq :
      (n a : ℕ) (s : SkipList K V)
      → (a == 0) ≡ false
      → n ≤ s.node_height a
      → (next : ℕ → ℕ → Link) × ((x i : ℕ) → next x i ≡ with_marks s.next a n x i)
        × (mark_levels n a s
            ≡ ok (if n == 0 then false else not (s.next a 0).bit) (record s { next = next }))
  unfolding mark_levels
  mark_levels-eq zero a s proper tall = (s.next, λ x i. ground arith, refl)
  mark_levels-eq (suc n) a s proper tall =
      let s1 = marked_at s a n in
      let (next, at, e) = mark_levels-eq n a s1 proper (omega (arith, tall)) in
      (
        next,
        λ x i. at x i ∙ ground arith,
        mark_levels-step n a s proper tall
            ∙ ap (λ r. and_then r (then_marked n (s.next a n))) e
            ∙ ap (λ b. ok b (record s { next = next })) (marked-first n a s),
      )

  -- The state behind the second search of `erase`, which unlinks the dead node `c` behind `prev`.
  abbrev pub with_unlinked : SkipList K V → (prev c : ℕ) → Link → SkipList K V
  with_unlinked s prev c after = record s {
    next = update s.next prev (update (s.next prev) 0 (clear after));
    link_count = update s.link_count c 0;
    retired = c ∷ s.retired;
  }

module _ {K V : Type 0} (lt : K → K → Bool) where
  found-none :
      (key : K) (prev : ℕ) (nx : Link) (s : SkipList K V)
      → found lt key prev null nx s
        ≡ ok (record { prev = prev; cur = null; next = nx; match = false }) s
  unfolding found
  found-none key prev nx s = refl

  -- `find` ends at a dead node, which it unlinks and retires.
  pub find_node-dead :
      (fuel : ℕ) (key : K) (s : SkipList K V) (xs : List ℕ) (c : ℕ) (y : Link)
      → Alive s s.head
      → AllAlive s xs
      → Leads s s.head xs (link c)
      → AreBelow lt s key xs
      → has_level s s.head s.height ≡ true
      → ((i : ℕ) → s.next s.head (suc i) ≡ marked_null)
      → length xs ≤ fuel
      → Alive s c
      → s.next c 0 ≡ y
      → y.bit ≡ true
      → s.link_count c ≡ 1
      → (h : ℕ → Link) × (find_node lt (suc fuel) key s
          ≡ ok
              (record { prev = last s.head xs; cur = null; next = y; match = false })
              (with_hazard (with_unlinked s (last s.head xs) c y) h))
  unfolding find_node
  find_node-dead fuel key s xs c y here front path below top bare enough alive_c at dead linked =
      let prev = last s.head xs in
      let (nx, h, e) =
        descend-below lt fuel key s xs (link c) here front path refl below top bare enough
          (update s.hazard 2 (link s.head)) in
      let e2 =
        walk-dead lt (fuel - length xs) key prev c y nx (with_hazard s h)
          (AllAlive-last s s.head xs here front) alive_c (Leads-end s s.head xs (link c) path) at
          dead linked in
      (
        update (update h 0 y) 1 null,
        ap (λ r. and_then r (find_then lt fuel key)) (e ∙ e2)
            ∙ found-none key prev y
                (with_hazard (with_unlinked s prev c y) (update (update h 0 y) 1 null)),
      )
