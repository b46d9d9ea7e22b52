-- ===== src/Striped/Reclaim.antt =====
-- The storages that `add` and `addSlow` dereference beside the deletion of retired ones: what the
-- hazard pointers of striped_int64.cc keep in every interleaving.
use ccmetrics.Base.{ℕ, ◌≤◌, ◌<◌, ◌≡◌, Bool, true, false, ◌==◌, ◌&&◌, ◌||◌, ◌⊎◌, arith}
use ccmetrics.Striped.{
  Memory, Thread, Outcome, Pc, confirm, read_slot, cas_slot, cas_stripes, grow, cas_grow, equal?,
  has,
}
use ccmetrics.Striped.System.{System, init}

-- The thread has built the storage p and not yet published it.
abbrev pub owns : Pc → ℕ → Bool
owns (cas_stripes f cur) p = cur == p
owns (cas_grow f cur next) p = next == p
owns _ p = false

-- The thread has loaded p from `stripes_` with `loadAndSetHazard` and goes on to use it.
abbrev pub relies : Pc → ℕ → Bool
relies (read_slot f cur) p = f.load && cur == p
relies (cas_slot f cur slot expected) p = f.load && cur == p
relies (grow f cur) p = f.load && cur == p
relies (cas_grow f cur next) p = f.load && cur == p
relies _ p = false

abbrev pub confirms : Pc → ℕ → Bool
confirms (confirm f cur) p = cur == p
confirms _ p = false

-- The storage p is or was in `stripes_`.
abbrev pub is_published : Memory → ℕ → Bool
is_published m p = equal? m.stripes p || has p m.retired

pub record LogsOk (m : Memory) : Type 0 where
  pub current :
      (p : ℕ)
      → equal? m.stripes p ≡ true
      → (p < m.next_storage) × (has p m.retired ≡ false) × (has p m.discarded ≡ false)
  pub former : (p : ℕ) → has p m.retired ≡ true → (p < m.next_storage) × (has p m.discarded ≡ false)
  pub dropped : (p : ℕ) → has p m.discarded ≡ true → p < m.next_storage
  pub reclaimed : (p : ℕ) → has p m.freed ≡ true → has p m.retired ≡ true

pub record ThreadOk (m : Memory) (t : Thread) : Type 0 where
  pub fresh :
      (p : ℕ)
      → owns t.pc p ≡ true
      → (p < m.next_storage) × (is_published m p ≡ false) × (has p m.discarded ≡ false)
  pub held :
      (p : ℕ)
      → relies t.pc p ≡ true
      → (equal? t.hazard p ≡ true)
        × (is_published m p ≡ true)
        × (has p m.freed ≡ false)
        × (has p m.discarded ≡ false)
  pub announced : (p : ℕ) → confirms t.pc p ≡ true → equal? t.hazard p ≡ true

-- A storage has one builder, and one that a scan found in no hazard of a thread is retired and not
-- relied upon by it.
pub record ReclaimInv (s : System) : Type 0 where
  pub logs : LogsOk s.mem
  pub threads : (i : ℕ) → ThreadOk s.mem (s.thread i)
  pub apart : (i j p : ℕ) → owns (s.thread i).pc p ≡ true → owns (s.thread j).pc p ≡ true → i ≡ j
  pub swept :
      (p i : ℕ)
      → s.cleared p i ≡ true
      → (has p s.mem.retired ≡ true) × (relies (s.thread i).pc p ≡ false)

pub init-ReclaimInv : ReclaimInv init
init-ReclaimInv = record {
  logs = record {
    current = λ p e. cc;
    former = λ p e. cc;
    dropped = λ p e. cc;
    reclaimed = λ p e. cc;
  };
  threads = λ i. record { fresh = λ p e. cc; held = λ p e. cc; announced = λ p e. cc };
  apart = λ i j p e e'. cc;
  swept = λ p i e. cc;
}

-- What a step may do to the logs, where `own` tells which storage its thread had built.
pub record Moves (own : ℕ → Bool) (m m' : Memory) : Type 0 where
  pub freed : (p : ℕ) → has p m'.freed ≡ has p m.freed
  pub next : m.next_storage ≤ m'.next_storage
  pub current : (p : ℕ) → equal? m'.stripes p ≡ true → (equal? m.stripes p ≡ true) ⊎ (own p ≡ true)
  pub former :
      (p : ℕ)
      → has p m'.retired ≡ true
      → (has p m.retired ≡ true) ⊎ ((equal? m.stripes p ≡ true) × (equal? m'.stripes p ≡ false))
  pub dropped :
      (p : ℕ)
      → has p m'.discarded ≡ true
      → (has p m.discarded ≡ true) ⊎ ((own p ≡ true) × (equal? m'.stripes p ≡ false))
  pub stays : (p : ℕ) → is_published m p ≡ true → is_published m' p ≡ true
  pub kept : (p : ℕ) → has p m.retired ≡ true → has p m'.retired ≡ true

-- What a step may do to its thread: a new storage is built at the next address, and a storage is
-- relied upon after the second load of `loadAndSetHazard` has found it in `stripes_`.
pub record Turn (m : Memory) (t : Thread) (o : Outcome) : Type 0 where
  pub moves : Moves (owns t.pc) m o.mem
  pub builds :
      (p : ℕ)
      → owns o.thread.pc p ≡ true
      → (p ≡ m.next_storage)
        × (p < o.mem.next_storage)
        × (is_published o.mem p ≡ is_published m p)
        × (has p o.mem.discarded ≡ has p m.discarded)
  pub holds :
      (p : ℕ)
      → relies o.thread.pc p ≡ true
      → (equal? o.thread.hazard p ≡ equal? t.hazard p)
        × ((relies t.pc p ≡ true) ⊎ ((confirms t.pc p ≡ true) × (equal? m.stripes p ≡ true)))
  pub announces : (p : ℕ) → confirms o.thread.pc p ≡ true → equal? o.thread.hazard p ≡ true

module _ {m : Memory} {t : Thread} {o : Outcome} (logs : LogsOk m) (ok : ThreadOk m t)
    (x : Turn m t o) where
  pub LogsOk-turn : LogsOk o.mem
  LogsOk-turn = record {
    current = λ p e. ground (
      arith,
      x.moves.next,
      x.moves.current p,
      x.moves.former p,
      x.moves.dropped p,
      logs.current p,
      ok.fresh p,
    );
    former = λ p e. ground (
      arith,
      x.moves.next,
      x.moves.former p,
      x.moves.dropped p,
      logs.current p,
      logs.former p,
      ok.fresh p,
    );
    dropped = λ p e. ground (arith, x.moves.next, x.moves.dropped p, logs.dropped p, ok.fresh p);
    reclaimed = λ p e. ground (arith, x.moves.freed p, x.moves.kept p, logs.reclaimed p);
  }

  pub ThreadOk-turn : ThreadOk o.mem o.thread
  ThreadOk-turn = record {
    fresh = λ p e. ground (arith, x.builds p e, logs.current p, logs.former p, logs.dropped p);
    held = λ p e. (
      ground (arith, x.holds p e, ok.held p, ok.announced p),
      ground (arith, x.holds p e, ok.held p, x.moves.stays p),
      ground (arith, x.holds p e, ok.held p, x.moves.freed p, logs.current p, logs.reclaimed p),
      ground (arith, x.holds p e, ok.held p, ok.fresh p, x.moves.dropped p, logs.current p),
    );
    announced = x.announces;
  }

  -- Another thread, which builds other storages.
  pub ThreadOk-other :
      (u : Thread)
      → ThreadOk m u
      → ((p : ℕ) → owns t.pc p ≡ true → owns u.pc p ≡ false)
      → ThreadOk o.mem u
  ThreadOk-other u other apart = record {
    fresh = λ p e. ground (
      arith,
      other.fresh p e,
      apart p,
      x.moves.next,
      x.moves.current p,
      x.moves.former p,
      x.moves.dropped p,
    );
    held = λ p e.
        ground
          (arith, other.held p e, ok.fresh p, x.moves.freed p, x.moves.stays p, x.moves.dropped p);
    announced = other.announced;
  }
