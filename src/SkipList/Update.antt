-- ===== src/SkipList/Update.antt =====
-- `insert`, `erase`, `find(key, value)` and `exists` of ConcurrentSkipListMap.
use ccmetrics.Base.{
  ℕ, zero, suc, ◌+◌, ◌-◌, ◌/◌, ◌%◌, Bool, true, false, not, ◌&&◌, ◌||◌, Option, none, some, ◌==◌,
  ltb, leb, if◌then◌else◌,
}
use ccmetrics.SkipList.{
  Link, link, mark, marked_0, marked_i, same_link, max_height, Cmd, pure, ◌>>=◌, ◌>>◌, current, put,
  crash, spin, load, store, exchange, load_key, load_value, set_hazard, clear_hazard, clear_hazards,
  is_dead, retire, drop_links, make_node, free_node,
}
use ccmetrics.SkipList.Search.{FindResult, find_node}

-- `randomLevel`, of the number `r` that it draws; `n` is how far the level can still rise.
unfoldable pub level_of : (n r : ℕ) → ℕ
level_of zero r = 0
level_of (suc n) r = let rest = level_of n (r / 2) in if r / 2 % 2 == 0 then 0 else suc rest

abbrev pub random_level : ℕ → ℕ
random_level r = level_of (max_height - 1) r

-- The level of a new node and the height of the map with it: growth is clamped to 1.
abbrev pub clamped : (level height : ℕ) → ℕ × ℕ
clamped level height = if ltb height level then (height + 1, height + 1) else (level, height)

module _ {K V : Type 0} where
  -- The marking loop of `erase`, from level `n - 1` down: whether it marked level 0. (Run alone,
  -- each exchange succeeds at once.)
  unfoldable pub mark_levels : ℕ → ℕ → Cmd K V Bool
  unfolding load store
  mark_levels zero a = pure false
  mark_levels (suc i) a = do
    after ← load a i
    store a i (mark after)
    lower ← mark_levels i a
    pure (if i == 0 then not after.bit else lower)

  -- Another thread has inserted the key: the node, which nobody has seen, is freed.
  unfoldable pub withdraw : ℕ → Cmd K V Bool
  unfolding free_node
  withdraw n = clear_hazards >> clear_hazard 3 >> free_node n >> pure false

  -- What follows `exit`: levels that were not linked are not counted.
  unfoldable pub settle_links : (n overage : ℕ) → Cmd K V (Unit {0})
  settle_links n overage =
      if overage == 0
      then pure tt
      else do left ← drop_links n overage; if left == 0 then retire n else pure tt

module _ {K V : Type 0} (lt : K → K → Bool) where
  -- `find(key, value)`: the value that it stores, and `exists`.
  unfoldable pub find_value : ℕ → K → Cmd K V (Option V)
  unfolding find_node load_value
  find_value fuel key = do
    result ← find_node lt fuel key
    v ← (if result.match then (do v ← load_value result.cur.to; pure (some v)) else pure none)
    clear_hazards
    pure v

  unfoldable pub exists : ℕ → K → Cmd K V Bool
  unfolding find_node
  exists fuel key = do result ← find_node lt fuel key; clear_hazards; pure result.match

  -- `erase` behind its first `find`.
  unfoldable pub erase_found : ℕ → K → FindResult → Cmd K V Bool
  unfolding find_node mark_levels
  erase_found fuel key result = if not result.match then pure false else do
    s ← current
    done ← mark_levels (s.node_height result.cur.to) result.cur.to
    again ← find_node lt fuel key
    if again.match && same_link again.cur result.cur then crash else clear_hazards >> pure done

  -- `erase`.
  unfoldable pub erase : ℕ → K → Cmd K V Bool
  unfolding find_node erase_found
  erase fuel key = find_node lt fuel key >>= erase_found fuel key

  -- The loop of `insert` that publishes the node `n` at level 0: whether it was published.
  unfoldable pub publish : (rounds fuel : ℕ) → K → ℕ → FindResult → Cmd K V Bool
  unfolding store exchange find_node withdraw
  publish zero fuel key n result = spin
  publish (suc rounds) fuel key n result = do
    store n 0 result.cur
    done ← exchange result.prev 0 result.cur (link n)
    if done then pure true else do
      again ← find_node lt fuel key
      if again.match then withdraw n else publish rounds fuel key n again

  -- The walk along an index level: `prev` and `cur`, or none if it gives up.
  unfoldable pub advance : ℕ → K → ℕ → ℕ → Link → Cmd K V (Option (ℕ × Link))
  unfolding load load_key
  advance zero key i prev cur = spin
  advance (suc fuel) key i prev cur =
      if cur.to == 0 && not cur.bit then pure (some (prev, cur)) else do
        k ← load_key cur.to
        if not (lt k key) then pure (some (prev, cur)) else do
          next ← load cur.to i
          set_hazard 0 next
          back ← load prev i
          if marked_i next || not (same_link back cur)
              then pure none
              else do set_hazard 2 cur; set_hazard 1 next; advance fuel key i cur.to next

  -- The index levels from `i` down to 1; the result is `overage`.
  unfoldable pub build_index : ℕ → K → (n level i prev overage : ℕ) → Cmd K V ℕ
  unfolding load store exchange is_dead advance
  build_index fuel key n level zero prev overage = pure overage
  build_index fuel key n level (suc j) prev overage = do
    cur ← load prev (suc j)
    set_hazard 1 cur
    if marked_0 cur then pure overage else do
      place ← advance fuel key (suc j) prev cur
      elim place [
        | none ↦ pure overage
        | some (prev', cur') ↦ do
          linked ←
              (if leb (suc j) level
                then (do store n (suc j) cur'; exchange prev' (suc j) cur' (link n))
                else pure true)
          if not linked then pure overage else do
            dead ← is_dead n
            let left = (if leb (suc j) level then overage - 1 else overage)
            if dead then pure left else build_index fuel key n level j prev' left
      ]

  -- `insert` once the node `n` is published: the index levels, and what follows `exit`. (`height_`
  -- is at least `level` by now.)
  unfoldable pub link_levels : ℕ → K → (n level height : ℕ) → Cmd K V Bool
  unfolding build_index settle_links
  link_levels fuel key n level height = do
    s ← current
    overage ← build_index fuel key n level height s.head level
    settle_links n overage
    clear_hazards
    clear_hazard 3
    pure true

  -- `insert` behind its first `find`.
  unfoldable pub insert_found : ℕ → K → V → (level height : ℕ) → FindResult → Cmd K V Bool
  unfolding publish link_levels
  insert_found fuel key value level height result = if result.match then pure false else do
    n ← make_node (level + 1) key value (level + 1)
    set_hazard 3 (link n)
    done ← publish fuel fuel key n result
    if done then link_levels fuel key n level height else pure false

  -- `insert`, with the number that `randomLevel` draws.
  unfoldable pub insert : ℕ → (r : ℕ) → K → V → Cmd K V Bool
  unfolding find_node insert_found
  insert fuel r key value = do
    s ← current
    let (level, height) = clamped (random_level r) s.height
    put (record s { height = height })
    result ← find_node lt fuel key
    insert_found fuel key value level height result
