-- ===== src/Striped.antt =====
-- src/metrics/striped_int64.{h,cc}: the striped 64-bit counter, one shared access at a time.
-- A 64-bit integer is its bit pattern, below 2 ^ 64; sums wrap around.
pub mod System
pub mod Slots
pub mod Invariant
pub mod Effects
pub mod Steps
pub mod Reclaim
pub mod Turns
pub mod Conserve
pub mod Safe
pub mod Dereference
pub mod Storage
pub mod Sized
mod Tests
use ccmetrics.Base.{
  ℕ, zero, suc, ◌+◌, ◌-◌, ◌*◌, ◌/◌, ◌%◌, ◌^◌, Bool, true, false, List, [], ◌∷◌, ◌++◌, Option, none,
  some, ◌==◌, ◌||◌, ltb, if◌then◌else◌, length, get_elem?,
}
pub use ccmetrics.Base.{update}
use Prim.Native.Nat.{bit_xor}

abbrev pub stripe_limit : ℕ
stripe_limit = 8

abbrev pub add64 : ℕ → ℕ → ℕ
add64 a b = (a + b) % 2 ^ 64

-- What the threads share. A storage and a slot are their addresses; `storage p` lists the slots that
-- `data_` of the Striped64_Storage at p points to, `cell a` is the number in the slot a. Addresses
-- are handed out in order and not used again. `retired` are the storages given to `retireNode`,
-- `discarded` those that a thread deleted before anybody else saw them.
pub record Memory : Type 0 where
  pub base : ℕ
  pub stripes : Option ℕ
  pub cell : ℕ → ℕ
  pub storage : ℕ → List ℕ
  pub next_cell : ℕ
  pub next_storage : ℕ
  pub retired : List ℕ
  pub discarded : List ℕ
  pub freed : List ℕ

-- The constructor of Striped64.
abbrev pub no_stripes : Memory
no_stripes = record {
  base = 0;
  stripes = none;
  cell = λ _. 0;
  storage = λ _. [];
  next_cell = 0;
  next_storage = 0;
  retired = [];
  discarded = [];
  freed = [];
}

-- `new CacheAligned<...>[n]`: the addresses of a slab of n slots.
pub slab : ℕ → ℕ → List ℕ
slab from zero = []
slab from (suc n) = from ∷ slab (from + 1) n

-- `new Striped64_Storage()`: two slots. The new storage is at `m.next_storage`.
pub new_storage : Memory → Memory
unfolding slab
new_storage m = record m {
  storage = update m.storage m.next_storage (slab m.next_cell 2);
  next_cell = m.next_cell + 2;
  next_storage = m.next_storage + 1;
}

-- `Striped64_Storage::expand`: twice the size, the old slots first and then a new slab.
pub expand : ℕ → Memory → Memory
unfolding slab
expand existing m =
    let size = length (m.storage existing) in
    record m {
      storage =
          update m.storage m.next_storage
            (m.storage existing ++ slab m.next_cell (size * 2 - size));
      next_cell = m.next_cell + (size * 2 - size);
      next_storage = m.next_storage + 1;
    }

-- The remix of the hash code, on size_t.
pub remix : ℕ → ℕ
remix h =
    let h1 = bit_xor h (h * 2 ^ 13 % 2 ^ 64) in
    let h2 = bit_xor h1 (h1 / 2 ^ 17) in bit_xor h2 (h2 * 2 ^ 5 % 2 ^ 64)

-- The locals of `add` and `addSlow`; `slow` tells in which of the two the thread is.
pub record Frame : Type 0 where
  pub value : ℕ
  pub hash : ℕ
  pub slow : Bool
  pub contended : Bool
  pub load : Bool

-- Where a thread stands: before the shared access that the constructor names.
pub data Pc : Type 0 where
  idle : Pc
  enter : Frame → Pc  -- `add`: stripes_.load
  read_base : Frame → Pc  -- base_.load
  cas_base : Frame → (expected : ℕ) → Pc
  acquire : Frame → Pc  -- `loadAndSetHazard`: the load
  announce : Frame → (cur : ℕ) → Pc  -- its setHazard
  confirm : Frame → (cur : ℕ) → Pc  -- its second load
  read_slot : Frame → (cur : ℕ) → Pc  -- expected = slot
  cas_slot : Frame → (cur slot expected : ℕ) → Pc
  loop : Frame → Option ℕ → Pc  -- the head of the loop of `addSlow`
  cas_stripes : Frame → (cur : ℕ) → Pc  -- publish the first storage
  grow : Frame → (cur : ℕ) → Pc  -- expand(cur)
  cas_grow : Frame → (cur next : ℕ) → Pc  -- publish the expansion
  fault : Pc  -- a null storage, a deleted one or an index out of range was used

-- `hazard` is slot 0 of the thread's hazard pointer.
pub record Thread : Type 0 where
  pub pc : Pc
  pub hazard : Option ℕ

-- The state after a step, and the amount that a completed `add` has added.
pub record Outcome : Type 0 where
  pub mem : Memory
  pub thread : Thread
  pub added : Option ℕ

abbrev pub goto : Memory → Thread → Pc → Outcome
goto m t pc = record { mem = m; thread = record t { pc = pc }; added = none }

-- `add` returns; on the paths that hold a hazard it is cleared.
abbrev pub return : Memory → ℕ → Outcome
return m v = record { mem = m; thread = record { pc = idle; hazard = none }; added = some v }

-- After a failed update in `addSlow`: remix and retry, or grow a small table at the second failure.
pub retry : Memory → Frame → (cur : ℕ) → Pc
unfolding remix
retry m f cur =
    if f.contended
    then (if ltb (length (m.storage cur)) stripe_limit
        then grow f cur
        else loop (record f { hash = remix f.hash }) (some cur))
    else loop (record f { hash = remix f.hash; contended = true }) (some cur)

-- A failed update goes on in `addSlow`, which begins with contended = false and load = true.
pub after_failure : Memory → Frame → (cur : ℕ) → Pc
after_failure m f cur =
    if f.slow
    then retry m f cur
    else loop (record f { slow = true; contended = false; load = true }) (some cur)

abbrev pub equal? : Option ℕ → ℕ → Bool
equal? none p = false
equal? (some q) p = q == p

-- `hash_code & (cur->size() - 1)`, where the size is a power of two.
abbrev pub slot_of : Memory → Frame → ℕ → Option ℕ
slot_of m f cur = get_elem? (m.storage cur) (f.hash % length (m.storage cur))

-- The head of the loop: create the first storage, reload the stripes, or go on with `cur`.
abbrev pub at_loop : Memory → Thread → Frame → Option ℕ → Outcome
at_loop m t f none = record {
  mem = new_storage m;
  thread = record { pc = cas_stripes f m.next_storage; hazard = some m.next_storage };
  added = none;
}
at_loop m t f (some cur) = goto m t (if f.load then acquire f else read_slot f cur)

abbrev pub at_enter : Memory → Thread → Frame → Option ℕ → Outcome
at_enter m t f none = goto m t (read_base f)
at_enter m t f (some cur) = goto m t (acquire f)

abbrev pub at_acquire : Memory → Thread → Frame → Option ℕ → Outcome
at_acquire m t f none = goto m t fault
at_acquire m t f (some cur) = goto m t (announce f cur)

abbrev pub at_read_slot : Memory → Thread → Frame → ℕ → Option ℕ → Outcome
at_read_slot m t f cur none = goto m t fault
at_read_slot m t f cur (some slot) = goto m t (cas_slot f cur slot (m.cell slot))

-- `stripes_.compare_exchange_strong(none, cur)`, and `delete cur` if that fails.
abbrev pub at_cas_stripes : Memory → Thread → Frame → ℕ → Option ℕ → Outcome
at_cas_stripes m t f cur none =
    goto (record m { stripes = some cur }) t (read_slot (record f { load = false }) cur)
at_cas_stripes m t f cur (some _) =
    goto (record m { discarded = cur ∷ m.discarded }) t (loop f (some cur))

-- `stripes_.compare_exchange_strong(cur, next)`, where `current` are the stripes. A success retires
-- `cur`; a failure discards `next`, and has loaded the current stripes into `cur`.
abbrev pub at_cas_grow : Memory → Thread → Frame → (cur next : ℕ) → (current : Option ℕ) → Outcome
at_cas_grow m t f cur next current =
    if equal? current cur
    then goto (record m { stripes = some next; retired = cur ∷ m.retired }) t (loop f (some cur))
    else goto (record m { discarded = next ∷ m.discarded }) t (loop f current)

abbrev pub has : ℕ → List ℕ → Bool
has p [] = false
has p (x ∷ xs) = (x == p) || has p xs

-- The storage at p was deleted.
abbrev pub is_gone : Memory → ℕ → Bool
is_gone m p = has p m.freed || has p m.discarded

-- The storage that the next step dereferences: for `cas_slot` it is the one of `cur->get(idx)`, and
-- for `cas_grow` that of `cur->disavow_all()` behind a successful exchange.
abbrev pub dereferenced : Memory → Pc → Option ℕ
dereferenced m (read_slot f cur) = some cur
dereferenced m (cas_slot f cur slot expected) = some cur
dereferenced m (grow f cur) = some cur
dereferenced m (cas_grow f cur next) = if equal? m.stripes cur then some cur else none
dereferenced m _ = none

abbrev pub is_dangling : Memory → Option ℕ → Bool
is_dangling m none = false
is_dangling m (some p) = is_gone m p

-- One shared access of one thread in `add` or `addSlow`, where no deleted storage is used.
pub access : Memory → Thread → Pc → Outcome
unfolding after_failure retry expand new_storage
access m t idle = goto m t idle
access m t fault = goto m t fault
access m t (enter f) = at_enter m t f m.stripes
access m t (read_base f) = goto m t (cas_base f m.base)
access m t (cas_base f expected) =
    if m.base == expected
    then return (record m { base = add64 expected f.value }) f.value
    else goto m t (loop (record f { slow = true; contended = false; load = true }) none)
access m t (acquire f) = at_acquire m t f m.stripes
access m t (announce f cur) = record {
  mem = m;
  thread = record { pc = confirm f cur; hazard = some cur };
  added = none;
}
access m t (confirm f cur) = goto m t (if equal? m.stripes cur then read_slot f cur else acquire f)
access m t (read_slot f cur) = at_read_slot m t f cur (slot_of m f cur)
access m t (cas_slot f cur slot expected) =
    if m.cell slot == expected
    then return (record m { cell = update m.cell slot (add64 expected f.value) }) f.value
    else goto m t (after_failure m f cur)
access m t (loop f cur) = at_loop m t f cur
access m t (cas_stripes f cur) = at_cas_stripes m t f cur m.stripes
access m t (grow f cur) = goto (expand cur m) t (cas_grow f cur m.next_storage)
access m t (cas_grow f cur next) = at_cas_grow m t f cur next m.stripes

-- One step of one thread in `add` or `addSlow`.
pub step : Memory → Thread → Pc → Outcome
unfolding access
step m t pc = if is_dangling m (dereferenced m pc) then goto m t fault else access m t pc

-- The loop of `value` over the slots, from the sum so far.
pub sum_slots : Memory → ℕ → List ℕ → ℕ
sum_slots m ret [] = ret
sum_slots m ret (a ∷ slots) = sum_slots m (add64 ret (m.cell a)) slots

abbrev pub live : Memory → List ℕ
live m = elim m.stripes [ none ↦ [] | some p ↦ m.storage p ]

-- `value()` with no other thread in between.
pub value : Memory → ℕ
unfolding sum_slots
value m = sum_slots m m.base (live m)

-- `reset()` with no other thread in between.
pub clear_slots : List ℕ → (ℕ → ℕ) → ℕ → ℕ
clear_slots [] cell = cell
clear_slots (a ∷ slots) cell = clear_slots slots (update cell a 0)

pub reset : Memory → Memory
unfolding clear_slots
reset m = record m { base = 0; cell = clear_slots (live m) m.cell }
