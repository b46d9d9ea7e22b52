-- ===== src/SkipList/Linked.antt =====
-- What `insert` does in a map that no other operation is at work on.
use ccmetrics.Base.{
  ℕ, zero, suc, ◌+◌, ◌-◌, ◌/◌, ◌%◌, ◌≤◌, ◌<◌, ◌≡◌, refl, ap, ◌∙◌, Bool, true, false, ◌==◌,
  if◌then◌else◌, update, arith,
}
use ccmetrics.SkipList.{
  Link, link, null, marked_null, SkipList, ok, load, store, exchange, has_level, and_then,
  max_height, clear_hazard, clear_hazards, pure, Cmd, ◌>>◌,
}
use ccmetrics.SkipList.Search.{FindResult}
use ccmetrics.SkipList.Update.{
  level_of, publish, build_index, settle_links, link_levels, insert_found,
}
use ccmetrics.SkipList.Walks.{Alive, with_hazard}

pub level_of-bound : (n r : ℕ) → level_of n r ≤ n
unfolding level_of
level_of-bound zero r = omega arith
level_of-bound (suc n) r = ground (arith, level_of-bound n (r / 2))

-- The counts with which `settle_links` leaves the node of level `level`.
abbrev settled : (ℕ → ℕ) → (n overage : ℕ) → ℕ → ℕ
settled f n zero = f
settled f n (suc o) = update f n ((f n + 256 - suc o) % 256)

settled-one :
    (f : ℕ → ℕ) (n overage : ℕ)
    → f n ≡ overage + 1
    → overage < max_height
    → (x : ℕ) → settled f n overage x ≡ update f n 1 x
settled-one f n zero at low x = ground arith
settled-one f n (suc o) at low x = ground arith

module _ {K V : Type 0} where
  settle_links-eq :
      (n overage : ℕ) (s : SkipList K V)
      → s.link_count n ≡ overage + 1
      → overage < max_height
      → settle_links n overage s ≡ ok tt (record s { link_count = settled s.link_count n overage })
  unfolding settle_links
  settle_links-eq n zero s at low = ground arith
  settle_links-eq n (suc o) s at low = ground arith

  abbrev finish_hazards : Cmd K V Bool
  finish_hazards = clear_hazards >> clear_hazard 3 >> pure true

  -- The state behind the publication of the node `n` between `prev` and `cur`.
  abbrev pub with_node : SkipList K V → (n prev : ℕ) → Link → SkipList K V
  with_node s n prev cur =
      let next1 = update s.next n (update (s.next n) 0 cur) in
      record s { next = update next1 prev (update (next1 prev) 0 (link n)) }

  -- The state behind `make_node`.
  abbrev pub with_new : SkipList K V → (level : ℕ) → K → V → SkipList K V
  with_new s level key value =
      let n = s.next_address in
      record s {
        key = update s.key n key;
        val = update s.val n value;
        node_height = update s.node_height n (level + 1);
        link_count = update s.link_count n (level + 1);
        next = update s.next n (λ i. if i == 0 then null else marked_null);
        hazard = update s.hazard 3 (link n);
        next_address = n + 1;
      }

module _ {K V : Type 0} (lt : K → K → Bool) where
  publish-once :
      (rounds fuel : ℕ) (key : K) (n : ℕ) (result : FindResult) (s : SkipList K V)
      → Alive s n
      → Alive s result.prev
      → (n == result.prev) ≡ false
      → s.next result.prev 0 ≡ result.cur
      → publish lt (suc rounds) fuel key n result s ≡ ok true (with_node s n result.prev result.cur)
  unfolding publish store exchange load
  publish-once rounds fuel key n result s new here apart at = ground arith

  build_index-bare :
      (fuel : ℕ) (key : K) (n level i overage : ℕ) (s : SkipList K V)
      → has_level s s.head i ≡ true
      → ((j : ℕ) → s.next s.head (suc j) ≡ marked_null)
      → (h : ℕ → Link) × (build_index lt fuel key n level i s.head overage s
          ≡ ok overage (with_hazard s h))
  unfolding build_index load
  build_index-bare fuel key n level zero overage s tall bare = (s.hazard, refl)
  build_index-bare fuel key n level (suc j) overage s tall bare =
      (update s.hazard 1 marked_null, ground (arith, bare j))

  -- What `insert` still does behind the index levels.
  abbrev finish : (n overage : ℕ) → Cmd K V Bool
  finish n overage = settle_links n overage >> finish_hazards

  link_levels-bare :
      (fuel : ℕ) (key : K) (n level height : ℕ) (s : SkipList K V)
      → has_level s s.head height ≡ true
      → ((j : ℕ) → s.next s.head (suc j) ≡ marked_null)
      → s.link_count n ≡ level + 1
      → level < max_height
      → (h : ℕ → Link) × (link_levels lt fuel key n level height s
          ≡ ok true (record s { link_count = settled s.link_count n level; hazard = h }))
  unfolding link_levels
  link_levels-bare fuel key n level height s tall bare at low =
      let (h, e) = build_index-bare fuel key n level height level s tall bare in
      let e2 = settle_links-eq n level (with_hazard s h) at low in
      (
        update (update (update (update h 0 null) 1 null) 2 null) 3 null,
        ap (λ r. and_then r (finish n)) e ∙ ap (λ r. and_then r (λ _. finish_hazards)) e2,
      )

  abbrev pub then_link : ℕ → K → (n level height : ℕ) → Bool → Cmd K V Bool
  then_link fuel key n level height done =
      if done then link_levels lt fuel key n level height else pure false

  pub insert_found-new :
      (fuel : ℕ) (key : K) (value : V) (level height : ℕ) (result : FindResult) (s : SkipList K V)
      → result.match ≡ false
      → insert_found lt (suc fuel) key value level height result s
        ≡ and_then
            (publish lt
              (suc fuel)
              (suc fuel)
              key
              s.next_address
              result
              (with_new s level key value))
            (then_link (suc fuel) key s.next_address level height)
  unfolding insert_found
  insert_found-new fuel key value level height result s miss = ground arith

  -- The node is published between `prev` and `cur` at level 0, and linked at no other level.
  pub insert_found-miss :
      (fuel : ℕ) (key : K) (value : V) (level height : ℕ) (result : FindResult) (s : SkipList K V)
      → result.match ≡ false
      → Alive s result.prev
      → result.prev < s.next_address
      → s.head < s.next_address
      → s.next result.prev 0 ≡ result.cur
      → has_level s s.head height ≡ true
      → ((j : ℕ) → s.next s.head (suc j) ≡ marked_null)
      → level < max_height
      → (h : ℕ → Link) × (lc : ℕ → ℕ) × ((x : ℕ) → lc x ≡ update s.link_count s.next_address 1 x)
        × (insert_found lt (suc fuel) key value level height result s
            ≡ ok true
                (record (with_node
                  (with_new s level key value)
                  s.next_address
                  result.prev
                  result.cur) { link_count = lc; hazard = h }))
  unfolding insert_found
  insert_found-miss fuel key value level height result s miss here old old_head at tall bare low =
      let n = s.next_address in
      let s1 = with_new s level key value in
      let s2 = with_node s1 n result.prev result.cur in
      let e1 =
        publish-once fuel (suc fuel) key n result s1 (ground arith) (ground (arith, here, old))
          (ground (arith, old)) (ground (arith, at, old)) in
      let (h, e2) =
        link_levels-bare (suc fuel) key n level height s2 (ground (arith, tall, old_head))
          (λ j. ground (arith, bare j, old_head)) (ground arith) low in
      (
        h,
        settled s1.link_count n level,
        λ x. settled-one s1.link_count n level (ground arith) low x ∙ ground arith,
        insert_found-new fuel key value level height result s miss
            ∙ ap (λ r. and_then r (then_link (suc fuel) key n level height)) e1
            ∙ e2,
      )
