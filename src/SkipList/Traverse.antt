-- ===== src/SkipList/Traverse.antt =====
-- The constructor, the destructor, `firstKey`, `values` and `entries` of ConcurrentSkipListMap.
use ccmetrics.Base.{ℕ, zero, suc, Bool, true, false, not, List, [], ◌∷◌, ◌==◌, if◌then◌else◌}
use mathlib.Core.List.{reverse}
use ccmetrics.SkipList.{
  Link, link, null, marked_null, marked_0, max_height, SkipList, Cmd, pure, ◌>>=◌, ◌>>◌, current,
  spin, crash, load, load_key, load_value, set_hazard, clear_hazard, clear_hazards, free_node,
}

module _ {K V : Type 0} where
  -- The constructor: one node with all levels, whose index levels are marked null pointers.
  abbrev pub new_map : K → V → SkipList K V
  new_map k v = record {
    head = 1;
    height = 0;
    key = λ _. k;
    val = λ _. v;
    node_height = λ a. if a == 1 then max_height else 0;
    link_count = λ _. 0;
    next = λ a i. if i == 0 then null else marked_null;
    hazard = λ _. null;
    next_address = 2;
    retired = [];
    freed = [];
  }

  -- `firstKey`; `default` is a default-constructed key. (Run alone, the loop never ends where the
  -- first pointer is marked.)
  unfoldable pub first_key : K → Cmd K V K
  unfolding load load_key
  first_key default = do
    s ← current
    cur ← load s.head 0
    set_hazard 1 cur
    if marked_0 cur
        then spin
        else do k ← (if cur.to == 0 then pure default else load_key cur.to); clear_hazard 1; pure k

  -- The loop `while (marked0(next))` of `extractor`: `cur` and `next` behind it, or none where it goes
  -- back to `try_again`.
  unfoldable pub reload : (fuel prev : ℕ) → (cur next : Link) → Cmd K V (Bool × Link × Link)
  unfolding load
  reload zero prev cur next = spin
  reload (suc fuel) prev cur next = if not (marked_0 next) then pure (true, cur, next) else do
    cur' ← load prev 0
    set_hazard 1 cur'
    if marked_0 cur'
        then pure (false, cur', next)
        else if cur'.to == 0
        then pure (true, cur', null)
        else do next' ← load cur'.to 0; set_hazard 0 next'; reload fuel prev cur' next'

  -- `extractor`: `f` is applied to each node; the list so far is `ret`, the latest first. Where it
  -- goes back to `try_again` it keeps that list.
  unfoldable pub extract :
      {A : Type 0} → (ℕ → Cmd K V A) → (fuel prev : ℕ) → Link → List A → Cmd K V (List A)
  unfolding load reload
  extract f zero prev cur ret = spin
  extract f (suc fuel) prev cur ret = if cur.to == 0 then clear_hazards >> pure ret else do
    e ← f cur.to
    next ← load cur.to 0
    set_hazard 0 next
    w ← reload (suc fuel) prev cur next
    if w.0 then set_hazard 2 w.1 >> set_hazard 1 w.2 >> extract f fuel w.1.to w.2 (e ∷ ret) else do
      s ← current
      first ← load s.head 0
      set_hazard 1 first
      extract f fuel s.head first (e ∷ ret)

  -- `values` and `entries`.
  unfoldable pub extractor : {A : Type 0} → (ℕ → Cmd K V A) → ℕ → Cmd K V (List A)
  unfolding load extract
  extractor f fuel = do
    s ← current
    first ← load s.head 0
    set_hazard 1 first
    list ← extract f fuel s.head first []
    pure (reverse list)

  unfoldable pub load_entry : ℕ → Cmd K V (K × V)
  unfolding load_key load_value
  load_entry a = do k ← load_key a; v ← load_value a; pure (k, v)

  unfoldable pub values : ℕ → Cmd K V (List V)
  unfolding extractor load_value
  values fuel = extractor load_value fuel

  unfoldable pub entries : ℕ → Cmd K V (List (K × V))
  unfolding extractor load_entry
  entries fuel = extractor load_entry fuel

  -- The destructor, from the node that `n` points to.
  unfoldable pub free_all : ℕ → Link → Cmd K V (Unit {0})
  unfolding load free_node
  free_all zero n = spin
  free_all (suc fuel) n =
      if n.to == 0
      then pure tt
      else if n.bit
      then crash
      else do after ← load n.to 0; free_node n.to; free_all fuel after

  unfoldable pub destroy : ℕ → Cmd K V (Unit {0})
  unfolding free_all
  destroy fuel = do s ← current; free_all fuel (link s.head)
