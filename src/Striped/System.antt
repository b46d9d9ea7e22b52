-- ===== src/Striped/System.antt =====
-- Any number of threads that call `add` on one counter, interleaved in any order with the deletion of
-- the storages that they have retired.
use ccmetrics.Base.{ℕ, ◌+◌, Bool, true, false, Option, none, some, ◌≡◌, ◌≢◌, ◌∷◌, ◌==◌, ◌&&◌, ◌||◌}
use ccmetrics.Striped.{Memory, no_stripes, Frame, idle, enter, Thread, Outcome, step, update, has}

-- `total` is the sum of the arguments of all calls of `add` that have returned; `cleared p i` tells
-- that a scan has read the hazard of thread `i` after the storage p was retired, and it was not p.
pub record System : Type 0 where
  pub mem : Memory
  pub thread : ℕ → Thread
  pub total : ℕ
  pub cleared : ℕ → ℕ → Bool

abbrev pub amount : Option ℕ → ℕ
amount none = 0
amount (some v) = v

-- `add(value)` as thread `i` enters it with its hash code.
abbrev pub call : ℕ → ℕ → Frame
call value hash = record {
  value = value;
  hash = hash;
  slow = false;
  contended = false;
  load = true;
}

-- What happens next: a thread calls `add` or takes a step in it, or `scan`, which `retireNode` runs,
-- reads the hazards of the threads in `group`, or deletes a retired storage after every thread's
-- hazard was read and was another one. The reads of a scan come one after the other, and any steps
-- of the threads between them.
pub data Step (s : System) : System → Type 0 where
  begin :
      (i value hash : ℕ)
      → (s.thread i).pc ≡ idle
      → Step s (record s {
        thread = update s.thread i (record (s.thread i) { pc = enter (call value hash) });
      })
  run :
      (i : ℕ) (o : Outcome)
      → step s.mem (s.thread i) (s.thread i).pc ≡ o
      → Step s (record {
        mem = o.mem;
        thread = update s.thread i o.thread;
        total = s.total + amount o.added;
        cleared = s.cleared;
      })
  look :
      (p : ℕ) (group : ℕ → Bool)
      → has p s.mem.retired ≡ true
      → ((i : ℕ) → group i ≡ true → (s.thread i).hazard ≢ some p)
      → Step s (record s { cleared = λ q i. ((p == q) && group i) || s.cleared q i })
  reclaim :
      (p : ℕ)
      → has p s.mem.freed ≡ false
      → ((i : ℕ) → s.cleared p i ≡ true)
      → Step s (record s { mem = record s.mem { freed = p ∷ s.mem.freed } })

abbrev pub init : System
init = record {
  mem = no_stripes;
  thread = λ _. record { pc = idle; hazard = none };
  total = 0;
  cleared = λ p i. false;
}

pub data Reach : System → Type 0 where
  start : Reach init
  later : {s t : System} → Reach s → Step s t → Reach t
