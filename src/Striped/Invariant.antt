-- ===== src/Striped/Invariant.antt =====
-- What holds of the shared memory between two steps, and what a thread knows of it.
use ccmetrics.Base.{ℕ, ◌^◌, ◌≤◌, ◌<◌, ◌≡◌, List, [], ◌++◌, some, none, arith, length, ◌∙◌, true}
use mathlib.Core.List.{append_assoc}
use ccmetrics.Striped.{
  Memory, Frame, Pc, idle, enter, read_base, cas_base, acquire, announce, confirm, read_slot,
  cas_slot, loop, cas_stripes, grow, cas_grow, fault, live,
}
use ccmetrics.Striped.Slots.{In, From, AllBelow, AllBelow-mono, In-append_left}

abbrev pub HasStripes : Memory → Type 0
HasStripes m = (p : ℕ) × (m.stripes ≡ some p)

-- The shared memory: a slot that is not live holds 0, and the live slots rise.
pub record MemInv (m : Memory) : Type 0 where
  pub fits : m.base < 2 ^ 64
  pub clean : (a : ℕ) → (In a (live m) → ⊥) → m.cell a ≡ 0
  pub rising : From 0 (live m)
  pub below : AllBelow m.next_cell (live m)
  pub known : (p : ℕ) → m.stripes ≡ some p → (p < m.next_storage) × (0 < length (m.storage p))

-- The storage `p` is or was published: its slots are the first of the live ones.
pub record Published (m : Memory) (p : ℕ) : Type 0 where
  pub named : p < m.next_storage
  pub sized : 0 < length (m.storage p)
  pub rest : List ℕ
  pub prefix : live m ≡ m.storage p ++ rest

-- The storage `p` was built and is not yet published; `common` are the slots of its predecessor.
pub record Built (m : Memory) (p : ℕ) (common : List ℕ) : Type 0 where
  pub named : p < m.next_storage
  pub sized : 0 < length (m.storage p)
  pub extra : List ℕ
  pub prefix : m.storage p ≡ common ++ extra
  pub rising : From 0 (m.storage p)
  pub below : AllBelow m.next_cell (m.storage p)

-- What holds of a thread between two steps.
pub data LocalOk (m : Memory) : Pc → Type 0 where
  idle_ok : LocalOk m idle
  fault_ok : LocalOk m fault
  enter_ok : {f : Frame} → LocalOk m (enter f)
  read_base_ok : {f : Frame} → LocalOk m (read_base f)
  cas_base_ok : {f : Frame} {e : ℕ} → LocalOk m (cas_base f e)
  acquire_ok : {f : Frame} → HasStripes m → LocalOk m (acquire f)
  announce_ok : {f : Frame} {cur : ℕ} → Published m cur → LocalOk m (announce f cur)
  confirm_ok : {f : Frame} {cur : ℕ} → Published m cur → LocalOk m (confirm f cur)
  read_slot_ok : {f : Frame} {cur : ℕ} → Published m cur → LocalOk m (read_slot f cur)
  cas_slot_ok :
      {f : Frame} {cur slot e : ℕ}
      → Published m cur
      → In slot (live m)
      → LocalOk m (cas_slot f cur slot e)
  loop_first : {f : Frame} → f.load ≡ true → LocalOk m (loop f none)
  loop_reload : {f : Frame} {cur : ℕ} → f.load ≡ true → HasStripes m → LocalOk m (loop f (some cur))
  loop_keep : {f : Frame} {cur : ℕ} → Published m cur → LocalOk m (loop f (some cur))
  cas_stripes_ok :
      {f : Frame} {cur : ℕ} → f.load ≡ true → Built m cur [] → LocalOk m (cas_stripes f cur)
  grow_ok : {f : Frame} {cur : ℕ} → Published m cur → LocalOk m (grow f cur)
  cas_grow_ok :
      {f : Frame} {cur next : ℕ}
      → Published m cur
      → Built m next (m.storage cur)
      → LocalOk m (cas_grow f cur next)

-- How the shared memory may change under a thread's feet.
pub record Extends (m m' : Memory) : Type 0 where
  pub storages : m.next_storage ≤ m'.next_storage
  pub cells : m.next_cell ≤ m'.next_cell
  pub same : (p : ℕ) → p < m.next_storage → m'.storage p ≡ m.storage p
  pub more : List ℕ
  pub grown : live m' ≡ live m ++ more
  pub stays : HasStripes m → HasStripes m'

module _ {m m' : Memory} (x : Extends m m') where
  pub Published-mono : {p : ℕ} → Published m p → Published m' p
  Published-mono {p} u = record {
    named = omega (arith, x.storages, u.named);
    sized = rw (x.same p u.named) u.sized;
    rest = u.rest ++ x.more;
    prefix = rw (x.same p u.named, x.grown, u.prefix) (append_assoc (m.storage p) u.rest x.more);
  }

  Built-mono : {p : ℕ} {common : List ℕ} → Built m p common → Built m' p common
  Built-mono {p} u = record {
    named = omega (arith, x.storages, u.named);
    sized = rw (x.same p u.named) u.sized;
    extra = u.extra;
    prefix = x.same p u.named ∙ u.prefix;
    rising = rw (x.same p u.named) u.rising;
    below = rw (x.same p u.named) (AllBelow-mono m.next_cell m'.next_cell _ x.cells u.below);
  }

  pub LocalOk-mono : {pc : Pc} → LocalOk m pc → LocalOk m' pc
  LocalOk-mono idle_ok = idle_ok
  LocalOk-mono fault_ok = fault_ok
  LocalOk-mono enter_ok = enter_ok
  LocalOk-mono read_base_ok = read_base_ok
  LocalOk-mono cas_base_ok = cas_base_ok
  LocalOk-mono (acquire_ok h) = acquire_ok (x.stays h)
  LocalOk-mono (announce_ok u) = announce_ok (Published-mono u)
  LocalOk-mono (confirm_ok u) = confirm_ok (Published-mono u)
  LocalOk-mono (read_slot_ok u) = read_slot_ok (Published-mono u)
  LocalOk-mono (cas_slot_ok {slot} u i) =
      cas_slot_ok (Published-mono u) (rw x.grown (In-append_left slot (live m) x.more i))
  LocalOk-mono (loop_first e) = loop_first e
  LocalOk-mono (loop_reload e h) = loop_reload e (x.stays h)
  LocalOk-mono (loop_keep u) = loop_keep (Published-mono u)
  LocalOk-mono (cas_stripes_ok e b) = cas_stripes_ok e (Built-mono b)
  LocalOk-mono (grow_ok u) = grow_ok (Published-mono u)
  LocalOk-mono (cas_grow_ok {cur} u b) =
      cas_grow_ok (Published-mono u) (rw (x.same cur u.named) (Built-mono b))
