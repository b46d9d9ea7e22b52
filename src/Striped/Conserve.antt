-- ===== src/Striped/Conserve.antt =====
-- What the counter holds in a reachable state, against the completed calls of `add`.
use ccmetrics.Base.{ℕ, ◌%◌, ◌^◌, ◌≡◌, refl, List, [], ◌∷◌, arith, ◌==◌, ◌∙◌, Bool-cases, inl, inr}
use ccmetrics.Striped.{Memory, Thread, live, value, reset, clear_slots, update}
use ccmetrics.Striped.System.{System, Step, begin, run, look, reclaim, init, Reach, start, later}
use ccmetrics.Striped.Slots.{sum_slots-eq, sum_of-nil, sum_of-zero, In}
use ccmetrics.Striped.Invariant.{MemInv, LocalOk, idle_ok, enter_ok, Extends, LocalOk-mono}
use ccmetrics.Striped.Effects.{contents, Effect, MemInv-logged, Extends-logged}
use ccmetrics.Striped.Steps.{step-Effect}

pub record SystemInv (s : System) : Type 0 where
  pub mem : MemInv s.mem
  pub locals : (i : ℕ) → LocalOk s.mem (s.thread i).pc
  pub counted : contents s.mem % 2 ^ 64 ≡ s.total % 2 ^ 64

init-SystemInv : SystemInv init
unfolding contents
init-SystemInv = record {
  mem = record {
    fits = omega arith;
    clean = λ a h. refl;
    rising = tt;
    below = tt;
    known = λ p e. cc;
  };
  locals = λ i. idle_ok;
  counted = rw (sum_of-nil (λ _. 0));
}

-- The locals of all threads after a step of thread `i`.
locals-update :
    {m m' : Memory} (thread : ℕ → Thread) (i : ℕ) (t : Thread)
    → Extends m m'
    → LocalOk m' t.pc
    → ((j : ℕ) → LocalOk m (thread j).pc)
    → (j : ℕ) → LocalOk m' (update thread i t j).pc
locals-update thread i t x ok all j = elim (Bool-cases (j == i)) [
  | inl e ↦ rw e ok
  | inr e ↦ rw e (LocalOk-mono x (all j))
]

Step-SystemInv : {s s' : System} → Step s s' → SystemInv s → SystemInv s'
Step-SystemInv {s} (begin i value hash e) inv = record {
  mem = inv.mem;
  locals =
      λ j. elim (Bool-cases (j == i)) [ inl e' ↦ rw e' enter_ok | inr e' ↦ rw e' (inv.locals j) ];
  counted = inv.counted;
}
Step-SystemInv {s} (run i o e) inv =
    let x : Effect s.mem o = rw (← e) (step-Effect inv.mem (s.thread i) (inv.locals i)) in
    record {
      mem = x.inv;
      locals = locals-update s.thread i o.thread x.ext x.ok inv.locals;
      counted = omega (arith, x.counted, inv.counted);
    }
Step-SystemInv {s} (look p group old unseen) inv = record {
  mem = inv.mem;
  locals = inv.locals;
  counted = inv.counted;
}
Step-SystemInv {s} (reclaim p once all) inv = record {
  mem = MemInv-logged inv.mem s.mem.discarded (p ∷ s.mem.freed);
  locals =
      λ i. LocalOk-mono (Extends-logged inv.mem s.mem.discarded (p ∷ s.mem.freed)) (inv.locals i);
  counted = unfold contents in inv.counted;
}

pub Reach-SystemInv : {s : System} → Reach s → SystemInv s
Reach-SystemInv start = init-SystemInv
Reach-SystemInv (later r st) = Step-SystemInv st (Reach-SystemInv r)

-- In every reachable state, whichever way any number of threads interleaved their calls of `add`,
-- `value` returns the sum of the arguments of the calls that have returned, modulo 2 ^ 64.
pub value-total : {s : System} → Reach s → value s.mem ≡ s.total % 2 ^ 64
unfolding value contents
value-total {s} r =
    let inv = Reach-SystemInv r in
    sum_slots-eq s.mem s.mem.base (live s.mem) inv.mem.fits ∙ inv.counted

clear_slots-zero : (xs : List ℕ) (cell : ℕ → ℕ) (a : ℕ) → cell a ≡ 0 → clear_slots xs cell a ≡ 0
unfolding clear_slots
clear_slots-zero [] cell a h = h
clear_slots-zero (x ∷ xs) cell a h = clear_slots-zero xs (update cell x 0) a (ground arith)

clear_slots-In : (xs : List ℕ) (cell : ℕ → ℕ) (a : ℕ) → In a xs → clear_slots xs cell a ≡ 0
unfolding clear_slots
clear_slots-In [] cell a i = elim i [ ]
clear_slots-In (x ∷ xs) cell a (inl e) = clear_slots-zero xs (update cell x 0) a (ground arith)
clear_slots-In (x ∷ xs) cell a (inr i) = clear_slots-In xs (update cell x 0) a i

-- After an undisturbed `reset` of any counter `value` returns 0.
pub value-reset : (m : Memory) → value (reset m) ≡ 0
unfolding value reset
value-reset m =
    let cell = clear_slots (live m) m.cell in
    sum_slots-eq (reset m) 0 (live m) (omega arith)
    ∙ omega (arith, sum_of-zero cell (live m) (λ a i. clear_slots-In (live m) m.cell a i))
