-- ===== src/Hazard/Sweep.antt =====
-- Phase 2 of `scan`: what it deletes and what it keeps.
use ccmetrics.Base.{
  occurrences, ℕ, zero, suc, ◌+◌, ◌≤◌, ◌<◌, ◌≡◌, refl, List, [], ◌∷◌, ◌++◌, arith, if◌then◌else◌,
  length, true, false, Bool-cases, inl, inr,
}
use mathlib.Core.List.{append-nil}
use ccmetrics.Hazard.{contains, swap_pop, sweep}
use ccmetrics.Base.{occurrences-append}
use ccmetrics.Hazard.Counting.{occurrences-swap_pop, length-swap_pop}

contains-occurrences : (a : ℕ) (xs : List ℕ) → contains a xs ≡ false → occurrences a xs ≡ 0
unfolding contains
contains-occurrences a [] h = refl
contains-occurrences a (x ∷ xs) h = ground (arith, contains-occurrences a xs)

occurrences-contains : (a : ℕ) (xs : List ℕ) → contains a xs ≡ true → 0 < occurrences a xs
unfolding contains
occurrences-contains a [] h = ground arith
occurrences-contains a (x ∷ xs) h = ground (arith, occurrences-contains a xs)

-- Every live element is kept, every other one is deleted, each as often as it stood there.
abbrev pub Swept : (live kept at freed : List ℕ) → List ℕ × List ℕ → ℕ → Type 0
Swept live kept at freed (kept', freed') a =
    (occurrences a kept' ≡ occurrences a kept + (if contains a live then occurrences a at else 0))
    × (occurrences a freed'
        ≡ occurrences a freed + (if contains a live then 0 else occurrences a at))

pub sweep-Swept :
    (fuel : ℕ) (live kept at freed : List ℕ) (a : ℕ)
    → length at ≤ fuel
    → Swept live kept at freed (sweep fuel live kept at freed) a
unfolding sweep
sweep-Swept zero live kept [] freed a h = rw (append-nil kept) (ground arith)
sweep-Swept zero live kept (x ∷ at) freed a h = absurd (omega arith)
sweep-Swept (suc fuel) live kept [] freed a h = ground arith
sweep-Swept (suc fuel) live kept (x ∷ rest) freed a h = elim (Bool-cases (contains x live)) [
  | inl e ↦ rw e (
      ground (
        arith,
        e,
        sweep-Swept fuel live (kept ++ x ∷ []) rest freed a,
        occurrences-append a kept (x ∷ []),
      ))
  | inr e ↦ rw e (
      ground (
        arith,
        e,
        sweep-Swept fuel live kept (swap_pop rest) (x ∷ freed) a,
        length-swap_pop rest,
        occurrences-swap_pop a rest,
      ))
]
