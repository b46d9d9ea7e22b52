-- ===== src/SkipList/Search.antt =====
-- `ConcurrentSkipListMap::find`, the search that also unlinks dead nodes.
use ccmetrics.Base.{ℕ, zero, suc, Bool, false, not, ◌&&◌, ◌||◌, ◌==◌, if◌then◌else◌}
use ccmetrics.SkipList.{
  Link, link, null, clear, marked, same_link, Cmd, pure, ◌>>=◌, ◌>>◌, current, crash, spin, load,
  exchange, load_key, set_hazard, clear_hazard, is_dead, retire, drop_links,
}

-- Where the walk along one level ends: at `try_again`, or with `prev`, `cur` and `next`.
pub data Walk : Type 0 where
  restart : Walk
  arrived : (prev : ℕ) → (cur next : Link) → Walk

pub record FindResult : Type 0 where
  pub prev : ℕ
  pub cur : Link
  pub next : Link
  pub match : Bool

module _ {K V : Type 0} where
  -- `if (--cur->link_count == 0)`: the last unlinking of a node retires it.
  unfoldable pub release : ℕ → Cmd K V (Unit {0})
  release a = do left ← drop_links a 1; if left == 0 then clear_hazard 1 >> retire a else pure tt

  -- A dead node is unlinked at level `i`.
  unfoldable pub unlink : ℕ → ℕ → (cur next : Link) → Cmd K V Walk
  unfolding load exchange release
  unlink i prev cur next = do
    after ← load cur.to i
    unlinked ← exchange prev i cur (clear after)
    if unlinked then release cur.to >> pure (arrived prev null next) else pure restart

module _ {K V : Type 0} (lt : K → K → Bool) where
  -- The loop along level `i`.
  unfoldable pub walk : ℕ → K → ℕ → ℕ → (cur next : Link) → Cmd K V Walk
  unfolding load load_key is_dead unlink
  walk zero key i prev cur next = spin
  walk (suc fuel) key i prev cur next = if cur.to == 0 then pure (arrived prev cur next) else do
    next' ← load cur.to i
    set_hazard 0 next'
    back ← load prev i
    if not (same_link back cur) then pure restart else do
      dead ← is_dead cur.to
      if marked next' i || dead then unlink i prev cur next' else do
        k ← load_key cur.to
        if not (lt k key) then pure (arrived prev cur next') else do
          set_hazard 2 cur
          if next'.bit then crash else do set_hazard 1 next'; walk fuel key i cur.to next' next'

  -- The levels from `i` down to 0.
  unfoldable pub descend : ℕ → K → ℕ → ℕ → Link → Cmd K V Walk
  unfolding load walk
  descend fuel key zero prev next = do
    cur ← load prev 0
    set_hazard 1 cur
    if marked cur 0 then pure restart else walk fuel key 0 prev cur next
  descend fuel key (suc i) prev next = do
    cur ← load prev (suc i)
    set_hazard 1 cur
    if marked cur (suc i) then pure restart else do
      w ← walk fuel key (suc i) prev cur next
      elim w [ restart ↦ pure restart | arrived p c n ↦ descend fuel key i p n ]

  -- `FindResult{prev, cur, next, cur ? cur->key == key : false}`.
  unfoldable pub found : K → ℕ → (cur next : Link) → Cmd K V FindResult
  unfolding load_key
  found key p c n =
      if c.to == 0 then pure (record { prev = p; cur = c; next = n; match = false }) else do
        k ← load_key c.to
        pure (record { prev = p; cur = c; next = n; match = not (lt k key) && not (lt key k) })

  -- `find(key)`. The fuel bounds the restarts and the nodes of a level.
  unfoldable pub find_node : ℕ → K → Cmd K V FindResult
  unfolding descend found
  find_node zero key = spin
  find_node (suc fuel) key = do
    s ← current
    set_hazard 2 (link s.head)
    w ← descend (suc fuel) key s.height s.head null
    elim w [ restart ↦ find_node fuel key | arrived p c n ↦ found key p c n ]
