-- ===== src/Hazard/Concurrent/Exclusive.antt =====
-- A retire list is a plain vector: which threads can be at work on it.
pub mod Locks
pub mod Reached
use ccmetrics.Base.{
  ℕ, zero, suc, ◌+◌, ◌≤◌, ◌<◌, ◌≡◌, refl, sym, ap, ◌∙◌, Bool, true, false, not, ◌&&◌, ◌||◌, ◌==◌,
  inl, inr, List, [], ◌∷◌, Option, none, some, occurrences, if◌then◌else◌, if-both, update,
  Bool-cases, arith,
}
use mathlib.Core.Path.{subst}
use ccmetrics.Hazard.{should_scan}
use ccmetrics.Hazard.Concurrent.{
  State, Pc, Back, ready, loading, announcing, checking, retiring, testing, reading_head, scanning,
  help_head, helping, draining, to_help, to_drain, goto, check, resume, without_scan, help,
  drain_one, pop_back, slots_of, step, init, Step, run, push, count, claim, release, begin, clear,
  copy, replace, remove, Reach, start, later,
}

-- The thread has locked record `q` and empties its list.
abbrev pub drains_back : ℕ → Back → Bool
drains_back q to_help = false
drains_back q (to_drain target rest) = target == q

abbrev pub drains : ℕ → Pc → Bool
drains q (testing back) = drains_back q back
drains q (reading_head back) = drains_back q back
drains q (scanning todo live back) = drains_back q back
drains q (draining target rest) = target == q
drains q _ = false

abbrev pub is_ready : Pc → Bool
is_ready ready = true
is_ready _ = false

-- The records that the thread still visits.
abbrev pub rest_back : Back → List ℕ
rest_back to_help = []
rest_back (to_drain target rest) = rest

abbrev pub rest_of : Pc → List ℕ
rest_of (testing back) = rest_back back
rest_of (reading_head back) = rest_back back
rest_of (scanning todo live back) = rest_back back
rest_of (draining target rest) = rest
rest_of (helping rest) = rest
rest_of _ = []

pub record Exclusive (records : List ℕ) (active owned : ℕ → Bool) (pc : ℕ → Pc) : Type 0 where
  pub locked : (r q : ℕ) → drains q (pc r) ≡ true → (active q ≡ true) × (owned q ≡ false)
  pub single : (q r r' : ℕ) → drains q (pc r) ≡ true → drains q (pc r') ≡ true → (r == r') ≡ true
  pub working : (r : ℕ) → owned r ≡ false → is_ready (pc r) ≡ true
  pub taken : (r : ℕ) → owned r ≡ true → active r ≡ true
  pub known : (r : ℕ) → active r ≡ true → 1 ≤ occurrences r records
  pub visits : (r q : ℕ) → 1 ≤ occurrences q (rest_of (pc r)) → 1 ≤ occurrences q records

abbrev pub IsExclusive : State → Type 0
IsExclusive s = Exclusive s.records s.active s.owned s.pc

module _ {records : List ℕ} {active owned : ℕ → Bool} {pc : ℕ → Pc}
    (ex : Exclusive records active owned pc) where
  -- Thread `r`, which owns its record, goes on; it may only give up what it has locked.
  pub goto-Exclusive :
      (r : ℕ) (p : Pc)
      → (owned r ≡ false → is_ready p ≡ true)
      → ((q : ℕ) → drains q p ≡ true → drains q (pc r) ≡ true)
      → ((q : ℕ) → 1 ≤ occurrences q (rest_of p) → 1 ≤ occurrences q records)
      → Exclusive records active owned (update pc r p)
  goto-Exclusive r p own keeps stays =
      let before : (q j : ℕ) → drains q (update pc r p j) ≡ true → drains q (pc j) ≡ true = λ q j.
        if-both (λ a. drains q a ≡ true → drains q (pc j) ≡ true) (j == r)
          (λ e d. ap (λ i. drains q (pc i)) (ground (arith, e)) ∙ keeps q d) (λ _ d. d) in
      record {
        locked = λ j q d. ex.locked j q (before q j d);
        single = λ q j j' d d'. ex.single q j j' (before q j d) (before q j' d');
        working = λ j free.
            if-both (λ a. is_ready a ≡ true) (j == r)
              (λ e. own (ap owned (ground (arith, e)) ∙ free)) (λ _. ex.working j free);
        taken = ex.taken;
        known = ex.known;
        visits = λ j q.
            if-both (λ a. 1 ≤ occurrences q (rest_of a) → 1 ≤ occurrences q records) (j == r)
              (λ _. stays q) (λ _. ex.visits j q);
      }
