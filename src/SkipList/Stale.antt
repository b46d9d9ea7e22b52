-- ===== src/SkipList/Stale.antt =====
-- An `insert` that another thread's insertion of the same key has overtaken.
use ccmetrics.Base.{
  ℕ, suc, ◌≤◌, ◌<◌, ◌≡◌, refl, ap, ◌∙◌, Bool, true, false, List, ◌∷◌, ◌++◌, ◌==◌, if◌then◌else◌,
  update, length, occurrences, occurrences-append, arith,
}
use ccmetrics.SkipList.{SkipList, Cmd, ok, and_then, same_link, load, store, exchange}
use ccmetrics.SkipList.Search.{FindResult, find_node}
use ccmetrics.SkipList.Update.{publish, withdraw, insert_found}
use ccmetrics.SkipList.Walks.{Alive, with_hazard}
use ccmetrics.SkipList.Shape.{IsMap, IsMap-top, entries_of}
use ccmetrics.SkipList.Found.{AreBelow, Stops, hits, result, find_node-at}
use ccmetrics.SkipList.Keys.{AreBelow-frame, Stops-frame, hits-frame}
use ccmetrics.SkipList.Linked.{with_new, then_link, insert_found-new}
use ccmetrics.SkipList.Inserted.{entries_of-frame}
use ccmetrics.SkipList.Withdrawn.{
  without_hazards, with_private, withdrawn, withdraw-eq, old, private-Leads, private-AllAlive,
  private-bare, same_keys, same_values, IsMap-withdrawn,
}

module _ {K V : Type 0} (lt : K → K → Bool) where
  abbrev then_publish : (rounds fuel : ℕ) → K → ℕ → FindResult → Cmd K V Bool
  then_publish rounds fuel key n again =
      if again.match then withdraw n else publish lt rounds fuel key n again

  publish-stale :
      (rounds fuel : ℕ) (key : K) (n : ℕ) (stale : FindResult) (s : SkipList K V)
      → Alive s n
      → Alive s stale.prev
      → (n == stale.prev) ≡ false
      → same_link (s.next stale.prev 0) stale.cur ≡ false
      → publish lt (suc rounds) fuel key n stale s
        ≡ and_then
            (find_node lt fuel key
              (record s { next = update s.next n (update (s.next n) 0 stale.cur) }))
            (then_publish rounds fuel key n)
  unfolding publish store exchange load
  publish-stale rounds fuel key n stale s new here apart changed = ground arith

  then_publish-hit :
      (rounds fuel : ℕ) (key : K) (n : ℕ) (again : FindResult) (s : SkipList K V)
      → again.match ≡ true
      → then_publish rounds fuel key n again s ≡ withdraw n s
  then_publish-hit rounds fuel key n again s hit = ground (arith, hit)

  -- Another thread has changed the list behind `prev` since `insert` searched, and `key` stands in it by
  -- now: `insert` searches again, frees its own node, which nobody has seen, and returns false. The
  -- map is left as it was.
  pub insert_found-stale :
      (fuel : ℕ) (key : K) (value : V) (level height : ℕ) (stale : FindResult) (s : SkipList K V)
      (xs ys : List ℕ)
      → IsMap s (xs ++ ys)
      → AreBelow lt s key xs
      → Stops lt s key ys
      → hits lt s key ys ≡ true
      → length xs ≤ suc fuel
      → stale.match ≡ false
      → Alive s stale.prev
      → stale.prev < s.next_address
      → same_link (s.next stale.prev 0) stale.cur ≡ false
      → (s' : SkipList K V) × (insert_found lt (suc (suc fuel)) key value level height stale s
          ≡ ok false s')
        × IsMap s' (xs ++ ys)
        × (entries_of s' (xs ++ ys) ≡ entries_of s (xs ++ ys))
        × (s'.freed ≡ s.next_address ∷ s.freed)
  insert_found-stale fuel key value level height stale s xs ys m below stops hit enough miss here
        old_prev changed =
      let n = s.next_address in
      let cs = xs ++ ys in
      let s1 = with_new s level key value in
      let s2 = with_private s level key value stale.cur in
      let head_old = old s cs m level key value stale.cur s.head (ground arith) in
      let new : Alive s1 n = ground (arith, head_old) in
      let keys = same_keys s cs m level key value stale.cur in
      let keys_front = λ (x : ℕ) (inside : 1 ≤ occurrences x xs).
        keys x (omega (arith, inside, occurrences-append x xs ys)) in
      let keys_back = λ (x : ℕ) (inside : 1 ≤ occurrences x ys).
        keys x (omega (arith, inside, occurrences-append x xs ys)) in
      let e1 =
        publish-stale (suc fuel) (suc (suc fuel)) key n stale s1 new
          (ground (arith, here, old_prev)) (ground (arith, old_prev))
          (ground (arith, changed, old_prev)) in
      let (nx, h, e2) =
        find_node-at lt (suc fuel) key s2 xs ys (private-AllAlive s cs m level key value stale.cur)
          (private-Leads s cs m level key value stale.cur)
          (ground (arith, IsMap-top s cs m, head_old))
          (private-bare s cs m level key value stale.cur)
          (AreBelow-frame lt s s2 key xs keys_front below)
          (Stops-frame lt s s2 key ys keys_back stops) enough in
      let again = result lt s2 key xs ys nx in
      let s3 = with_hazard s2 h in
      let e3 =
        then_publish-hit (suc fuel) (suc (suc fuel)) key n again s3
          (hits-frame lt s s2 key ys keys_back ∙ hit) in
      let e4 = withdraw-eq n s3 new in
      let s4 = withdrawn s level key value stale.cur (without_hazards h) in
      (
        s4,
        insert_found-new lt (suc fuel) key value level height stale s miss
            ∙ ap (λ r. and_then r (then_link lt (suc (suc fuel)) key n level height))
                (e1
                  ∙ ap (λ r. and_then r (then_publish (suc fuel) (suc (suc fuel)) key n)) e2
                  ∙ e3
                  ∙ e4),
        IsMap-withdrawn s cs m level key value stale.cur (without_hazards h),
        entries_of-frame s s4 cs
            (λ x inside. (keys x inside, same_values s cs m level key value stale.cur x inside)),
        refl,
      )
