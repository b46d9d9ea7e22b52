-- ===== src/Striped/Dereference.antt =====
-- The storages that a thread uses in a reachable state: hazards of striped_int64.cc at work.
use ccmetrics.Base.{ℕ, ◌≡◌, ◌≢◌, refl, ap, Option, Bool, true, false, some, none, ==_iff, arith}
use ccmetrics.Striped.{
  Memory, Thread, Frame, Pc, idle, fault, enter, read_base, cas_base, acquire, announce, confirm,
  read_slot, cas_slot, loop, cas_stripes, grow, cas_grow, equal?, is_gone, is_dangling,
  dereferenced, step, access, slot_of, at_enter, at_loop, at_acquire, at_read_slot, at_cas_stripes,
  after_failure, retry,
}
use ccmetrics.Striped.System.{System, Reach}
use ccmetrics.Striped.Invariant.{
  LocalOk, idle_ok, fault_ok, enter_ok, read_base_ok, cas_base_ok, acquire_ok, announce_ok,
  confirm_ok, read_slot_ok, cas_slot_ok, loop_first, loop_reload, loop_keep, cas_stripes_ok,
  grow_ok, cas_grow_ok,
}
use ccmetrics.Striped.Steps.{slot_of-live}
use ccmetrics.Striped.Reclaim.{relies}
use ccmetrics.Striped.Safe.{Reach-ReclaimInv}
use ccmetrics.Striped.Conserve.{Reach-SystemInv}

-- The thread has not published the first storage in this call of `add`: its `load` is true.
abbrev pub is_loading : Pc → Bool
is_loading idle = true
is_loading fault = false
is_loading (enter f) = f.load
is_loading (read_base f) = f.load
is_loading (cas_base f expected) = f.load
is_loading (acquire f) = f.load
is_loading (announce f cur) = f.load
is_loading (confirm f cur) = f.load
is_loading (read_slot f cur) = f.load
is_loading (cas_slot f cur slot expected) = f.load
is_loading (loop f cur) = f.load
is_loading (cas_stripes f cur) = f.load
is_loading (grow f cur) = f.load
is_loading (cas_grow f cur next) = f.load

-- What is dereferenced was loaded with a hazard.
relies-dereferenced :
    (m : Memory) (pc : Pc) (p : ℕ)
    → is_loading pc ≡ true
    → dereferenced m pc ≡ some p
    → relies pc p ≡ true
relies-dereferenced m idle p l e = cc
relies-dereferenced m fault p l e = cc
relies-dereferenced m (enter f) p l e = cc
relies-dereferenced m (read_base f) p l e = cc
relies-dereferenced m (cas_base f expected) p l e = cc
relies-dereferenced m (acquire f) p l e = cc
relies-dereferenced m (announce f cur) p l e = cc
relies-dereferenced m (confirm f cur) p l e = cc
relies-dereferenced m (read_slot f cur) p l e = ground arith
relies-dereferenced m (cas_slot f cur slot expected) p l e = ground arith
relies-dereferenced m (loop f cur) p l e = cc
relies-dereferenced m (cas_stripes f cur) p l e = cc
relies-dereferenced m (grow f cur) p l e = ground arith
relies-dereferenced m (cas_grow f cur next) p l e = ground arith

equal?-some : (h : Option ℕ) (p : ℕ) → equal? h p ≡ true → h ≡ some p
equal?-some none p e = cc
equal?-some (some q) p e = ap some ((==_iff q p).0 e)

-- In every reachable state, a thread that has not published the first storage itself holds a hazard
-- on the storage that its next step dereferences, and this storage is not deleted.
pub dereferenced-held :
    {s : System}
    → Reach s
    → (i p : ℕ) → is_loading (s.thread i).pc ≡ true
    → dereferenced s.mem (s.thread i).pc ≡ some p
    → ((s.thread i).hazard ≡ some p) × (is_gone s.mem p ≡ false)
dereferenced-held {s} r i p loading e =
    let (named, _, unfreed, kept) =
      ((Reach-ReclaimInv r).threads i).held p
        (relies-dereferenced s.mem (s.thread i).pc p loading e) in
    (equal?-some _ p named, ground (arith, unfreed, kept))

module _ (m : Memory) (t : Thread) (f : Frame) where
  acquire-ne-fault : (s : Option ℕ) {p : ℕ} → s ≡ some p → (at_acquire m t f s).thread.pc ≢ fault
  acquire-ne-fault none h e = cc
  acquire-ne-fault (some q) h e = cc

  read_slot-ne-fault :
      (cur : ℕ) (s : Option ℕ) {a : ℕ} → s ≡ some a → (at_read_slot m t f cur s).thread.pc ≢ fault
  read_slot-ne-fault cur none h e = cc
  read_slot-ne-fault cur (some a) h e = cc

  enter-ne-fault : (s : Option ℕ) → (at_enter m t f s).thread.pc ≢ fault
  enter-ne-fault none e = cc
  enter-ne-fault (some q) e = cc

  loop-ne-fault : (s : Option ℕ) → (at_loop m t f s).thread.pc ≢ fault
  loop-ne-fault none e = cc
  loop-ne-fault (some q) e = ground arith

  cas_stripes-ne-fault : (cur : ℕ) (s : Option ℕ) → (at_cas_stripes m t f cur s).thread.pc ≢ fault
  cas_stripes-ne-fault cur none e = cc
  cas_stripes-ne-fault cur (some q) e = cc

  after_failure-ne-fault : (cur : ℕ) → after_failure m f cur ≢ fault
  unfolding after_failure retry
  after_failure-ne-fault cur e = ground arith

-- An access of a storage that is there: no null storage, and no index out of range.
access-ne-fault :
    {m : Memory} (t : Thread) {pc : Pc}
    → LocalOk m pc
    → is_loading pc ≡ true
    → (access m t pc).thread.pc ≢ fault
unfolding access
access-ne-fault t idle_ok l e = cc
access-ne-fault t fault_ok l e = cc
access-ne-fault {m} t (enter_ok {f}) l e = enter-ne-fault m t f m.stripes e
access-ne-fault t read_base_ok l e = cc
access-ne-fault t cas_base_ok l e = ground arith
access-ne-fault {m} t (acquire_ok {f} (p, h)) l e = acquire-ne-fault m t f m.stripes h e
access-ne-fault t (announce_ok u) l e = cc
access-ne-fault t (confirm_ok u) l e = ground arith
access-ne-fault {m} t (read_slot_ok {f} {cur} u) l e =
    read_slot-ne-fault m t f cur (slot_of m f cur) (slot_of-live f u).1 e
access-ne-fault {m} t (cas_slot_ok {f} {cur} u i) l e =
    ground (arith, after_failure-ne-fault m t f cur)
access-ne-fault {m} t (loop_first {f} h) l e = loop-ne-fault m t f none e
access-ne-fault {m} t (loop_reload {f} {cur} h h') l e = loop-ne-fault m t f (some cur) e
access-ne-fault {m} t (loop_keep {f} {cur} u) l e = loop-ne-fault m t f (some cur) e
access-ne-fault {m} t (cas_stripes_ok {f} {cur} h b) l e =
    cas_stripes-ne-fault m t f cur m.stripes e
access-ne-fault t (grow_ok u) l e = cc
access-ne-fault t (cas_grow_ok u b) l e = ground arith

-- No step of a thread that has not published the first storage itself faults, in any reachable
-- state: it dereferences no null and no deleted storage, and takes no index out of range.
pub step-ne-fault :
    {s : System}
    → Reach s
    → (i : ℕ) → is_loading (s.thread i).pc ≡ true
    → (step s.mem (s.thread i) (s.thread i).pc).thread.pc ≢ fault
unfolding step
step-ne-fault {s} r i loading =
    let pc = (s.thread i).pc in
    let sound : is_dangling s.mem (dereferenced s.mem pc) ≡ false =
      by_storage (dereferenced s.mem pc) (λ p e. (dereferenced-held r i p loading e).1) in
    rw sound (access-ne-fault (s.thread i) ((Reach-SystemInv r).locals i) loading)
  where
    by_storage :
        (d : Option ℕ)
        → ((p : ℕ) → d ≡ some p → is_gone s.mem p ≡ false)
        → is_dangling s.mem d ≡ false
    by_storage none h = refl
    by_storage (some p) h = h p refl
