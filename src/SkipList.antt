-- ===== src/SkipList.antt =====
-- src/concurrent_skip_list_map.h: the nodes of a ConcurrentSkipListMap at addresses, and the single
-- accesses that its operations are made of. The children hold the operations, each run alone.
pub mod Search
pub mod Update
pub mod Traverse
pub mod Walks
pub mod Shape
pub mod Paths
pub mod Found
pub mod Linked
pub mod Grown
pub mod Inserted
pub mod Unlinked
pub mod Shrunk
pub mod Erased
pub mod Traversed
pub mod Freed
pub mod Cut
pub mod Looked
pub mod Refines
pub mod Keys
pub mod Withdrawn
pub mod Stale
pub mod Interrupted
pub mod Stuck
pub mod Sequence
mod Tests
use ccmetrics.Base.{
  ℕ, zero, suc, ◌+◌, ◌-◌, ◌%◌, Bool, true, false, not, ◌&&◌, List, [], ◌∷◌, ◌==◌, ltb,
  if◌then◌else◌, update,
}

-- A `Node*` and its lowest bit; the address 0 is nullptr.
pub record Link : Type 0 where
  pub to : ℕ
  pub bit : Bool

abbrev pub link : ℕ → Link
link a = record { to = a; bit = false }

abbrev pub null : Link
null = link 0

-- `mark`, `clear`, and `mark(nullptr)`.
abbrev pub mark : Link → Link
mark l = record l { bit = true }

abbrev pub clear : Link → Link
clear l = record l { bit = false }

abbrev pub marked_null : Link
marked_null = mark null

-- `marked0`, `markedi` and `marked`.
abbrev pub marked_0 : Link → Bool
marked_0 l = l.bit

abbrev pub marked_i : Link → Bool
marked_i l = l.bit && not (l.to == 0)

abbrev pub marked : Link → ℕ → Bool
marked l zero = marked_0 l
marked l (suc i) = marked_i l

-- Equality of two pointers, bit included.
abbrev pub same_bit : Bool → Bool → Bool
same_bit true b = b
same_bit false b = not b

abbrev pub same_link : Link → Link → Bool
same_link l m = (l.to == m.to) && same_bit l.bit m.bit

-- `kMaxHeight`.
abbrev pub max_height : ℕ
max_height = 12

-- The map and the nodes. `node_height` is 0 at an address that holds no node; `next a i` is
-- `next_[i]` of the node at `a`. `hazard` is the calling thread's hazard pointer record, `retired`
-- the nodes given to `retireNode` and `freed` those given to `freeNode`, the latest first.
pub record SkipList (K V : Type 0) : Type 0 where
  pub head : ℕ
  pub height : ℕ
  pub key : ℕ → K
  pub val : ℕ → V
  pub node_height : ℕ → ℕ
  pub link_count : ℕ → ℕ
  pub next : ℕ → ℕ → Link
  pub hazard : ℕ → Link
  pub next_address : ℕ
  pub retired : List ℕ
  pub freed : List ℕ

-- `fault` is the use of an address that holds no node, of a level that the node does not have, or a
-- failed assertion.
pub data Run (K V A : Type 0) : Type 0 where
  ok : A → SkipList K V → Run K V A
  fault : Run K V A
  out_of_fuel : Run K V A

abbrev pub Cmd : (K V A : Type 0) → Type 0
Cmd K V A = SkipList K V → Run K V A

module _ {K V : Type 0} where
  abbrev pub pure : {A : Type 0} → A → Cmd K V A
  pure a s = ok a s

  abbrev pub and_then : {A B : Type 0} → Run K V A → (A → Cmd K V B) → Run K V B
  and_then (ok a s) f = f a s
  and_then fault f = fault
  and_then out_of_fuel f = out_of_fuel

  infixl 5 ◌>>=◌ ◌>>◌
  abbrev pub ◌>>=◌ : {A B : Type 0} → Cmd K V A → (A → Cmd K V B) → Cmd K V B
  m >>= f = λ s. and_then (m s) f

  abbrev pub ◌>>◌ : {A B : Type 0} → Cmd K V A → Cmd K V B → Cmd K V B
  m >> n = m >>= λ _. n

  abbrev pub current : Cmd K V (SkipList K V)
  current s = ok s s

  abbrev pub put : SkipList K V → Cmd K V (Unit {0})
  put s _ = ok tt s

  abbrev pub crash : {A : Type 0} → Cmd K V A
  crash s = fault

  abbrev pub spin : {A : Type 0} → Cmd K V A
  spin s = out_of_fuel

  -- Whether there is a node at `a` that has the level `i`.
  abbrev pub has_level : SkipList K V → ℕ → ℕ → Bool
  has_level s a i = not (a == 0) && ltb i (s.node_height a)

  -- `a->next_[i]`, read and written.
  unfoldable pub load : ℕ → ℕ → Cmd K V Link
  load a i s = if has_level s a i then ok (s.next a i) s else fault

  unfoldable pub store : ℕ → ℕ → Link → Cmd K V (Unit {0})
  store a i l s =
      if has_level s a i
      then ok tt (record s { next = update s.next a (update (s.next a) i l) })
      else fault

  -- `a->next_[i].compare_exchange_strong(expected, desired)`.
  unfoldable pub exchange : ℕ → ℕ → (expected desired : Link) → Cmd K V Bool
  unfolding load store
  exchange a i expected desired = do
    l ← load a i
    if same_link l expected then (do store a i desired; pure true) else pure false

  -- `a->key` and `a->value`.
  unfoldable pub load_key : ℕ → Cmd K V K
  load_key a s = if has_level s a 0 then ok (s.key a) s else fault

  unfoldable pub load_value : ℕ → Cmd K V V
  load_value a s = if has_level s a 0 then ok (s.val a) s else fault

  -- `setHazard` and `clearHazard`. (`loadAndSetHazard` reads one value when it runs alone.)
  abbrev pub set_hazard : ℕ → Link → Cmd K V (Unit {0})
  set_hazard k l s = ok tt (record s { hazard = update s.hazard k l })

  abbrev pub clear_hazard : ℕ → Cmd K V (Unit {0})
  clear_hazard k = set_hazard k null

  abbrev pub clear_hazards : Cmd K V (Unit {0})
  clear_hazards = clear_hazard 0 >> clear_hazard 1 >> clear_hazard 2

  -- `Node::dead`.
  unfoldable pub is_dead : ℕ → Cmd K V Bool
  unfolding load
  is_dead a = do l ← load a 0; pure (marked_0 l)

  -- `retireNode`.
  abbrev pub retire : ℕ → Cmd K V (Unit {0})
  retire a s = ok tt (record s { retired = a ∷ s.retired })

  -- `a->link_count -= n`, on uint8_t, and the count that it leaves.
  abbrev pub drop_links : ℕ → ℕ → Cmd K V ℕ
  drop_links a n s =
      let left = (s.link_count a + 256 - n) % 256 in
      ok left (record s { link_count = update s.link_count a left })

  -- `mkNode`, with `n->link_count = links` as its callers set it.
  abbrev pub make_node : (height : ℕ) → K → V → (links : ℕ) → Cmd K V ℕ
  make_node height k v links s =
      let a = s.next_address in
      ok a (record s {
        key = update s.key a k;
        val = update s.val a v;
        node_height = update s.node_height a height;
        link_count = update s.link_count a links;
        next = update s.next a (λ i. if i == 0 then null else marked_null);
        next_address = a + 1;
      })

  -- `freeNode`, a fault where there is no node.
  unfoldable pub free_node : ℕ → Cmd K V (Unit {0})
  free_node a s =
      if has_level s a 0
      then ok tt (record s { node_height = update s.node_height a 0; freed = a ∷ s.freed })
      else fault
