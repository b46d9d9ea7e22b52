-- ===== src/Hazard/Concurrent/Exclusive/Locks.antt =====
-- The steps that lock a record, unlock it, or change who owns it.
use ccmetrics.Base.{
  ℕ, ◌≤◌, ◌≡◌, sym, ap, ◌∙◌, Bool, true, false, ◌&&◌, ◌||◌, ◌==◌, inl, inr, List, ◌∷◌, occurrences,
  if-both, update, Bool-cases, arith,
}
use mathlib.Core.Path.{subst}
use ccmetrics.Hazard.Concurrent.{Pc, ready, helping, draining}
use ccmetrics.Hazard.Concurrent.Exclusive.{drains, is_ready, rest_of, Exclusive}

module _ {records : List ℕ} {active owned : ℕ → Bool} {pc : ℕ → Pc}
    (ex : Exclusive records active owned pc) where
  -- It locks record `q`, which was inactive.
  pub lock-Exclusive :
      (r q : ℕ) (rest : List ℕ)
      → pc r ≡ helping (q ∷ rest)
      → active q ≡ false
      → Exclusive records (update active q true) owned (update pc r (draining q rest))
  lock-Exclusive r q rest at idle =
      let before : (q' j : ℕ)
          → drains q' (update pc r (draining q rest) j) ≡ true
          → (((j == r) && (q == q')) || drains q' (pc j)) ≡ true =
        λ q' j.
          if-both (λ a. drains q' a ≡ true → (((j == r) && (q == q')) || drains q' (pc j)) ≡ true)
            (j == r) (λ e d. ground (arith, e, d)) (λ _ d. ground (arith, d)) in
      let free_q : owned q ≡ false = elim (Bool-cases (owned q)) [
        | inl e ↦ absurd (ground (arith, ex.taken q e, idle))
        | inr e ↦ e
      ] in
      let unlocked : (q' j : ℕ) → (q == q') ≡ true → drains q' (pc j) ≡ false = λ q' j e.
        elim (Bool-cases (drains q' (pc j))) [
          | inl d ↦
              let same : q ≡ q' = ground (arith, e) in
              let busy : active q ≡ true = ap active same ∙ (ex.locked j q' d).0 in
              absurd (ground (arith, busy, idle))
          | inr d ↦ d
        ] in
      let visited : (q' : ℕ) → 1 ≤ occurrences q' (q ∷ rest) → 1 ≤ occurrences q' records =
        λ q' v. ex.visits r q' (subst (λ a. 1 ≤ occurrences q' (rest_of a)) (sym at) v) in
      record {
        locked = λ j q' d. elim (Bool-cases (q == q')) [
          | inl e ↦
              let same : q ≡ q' = ground (arith, e) in
              (ground (arith, e), ap owned (sym same) ∙ free_q)
          | inr e ↦
              let (act, own) = ex.locked j q' (ground (arith, before q' j d, e)) in
              (ground (arith, act), own)
        ];
        single = λ q' j j' d d'. elim (Bool-cases (q == q')) [
          | inl e ↦
              ground (arith, before q' j d, before q' j' d', unlocked q' j e, unlocked q' j' e)
          | inr e ↦
              ex.single q' j j' (ground (arith, before q' j d, e))
                (ground (arith, before q' j' d', e))
        ];
        working = λ j free.
            if-both (λ a. is_ready a ≡ true) (j == r)
              (λ e.
                let same : r ≡ j = ground (arith, e) in
                let free_r : owned r ≡ false = ap owned same ∙ free in
                let rests : is_ready (helping (q ∷ rest)) ≡ true =
                  ap is_ready (sym at) ∙ ex.working r free_r in
                absurd (ground (arith, rests)))
              (λ _. ex.working j free);
        taken = λ j own. ground (arith, ex.taken j own);
        known = λ j act. elim (Bool-cases (j == q)) [
          | inl e ↦ visited j (ground (arith, e))
          | inr e ↦ ex.known j (ground (arith, act, e))
        ];
        visits = λ j q'.
            if-both (λ a. 1 ≤ occurrences q' (rest_of a) → 1 ≤ occurrences q' records) (j == r)
              (λ _ v. visited q' (omega (arith, v))) (λ _. ex.visits j q');
      }

  -- It unlocks record `q`, whose list is empty.
  pub unlock-Exclusive :
      (r q : ℕ) (rest : List ℕ)
      → pc r ≡ draining q rest
      → Exclusive records (update active q false) owned (update pc r (helping rest))
  unlock-Exclusive r q rest at =
      let mine : drains q (pc r) ≡ true = ap (drains q) at ∙ ground arith in
      let (act_q, free_q) = ex.locked r q mine in
      let before : (q' j : ℕ)
          → drains q' (update pc r (helping rest) j) ≡ true
          → ((q' == q) ≡ false) × (drains q' (pc j) ≡ true) =
        λ q' j.
          if-both (λ a. drains q' a ≡ true → ((q' == q) ≡ false) × (drains q' (pc j) ≡ true))
            (j == r) (λ e d. absurd (ground (arith, d)))
            (λ other d. elim (Bool-cases (q' == q)) [
              | inl e ↦
                  let same : q' ≡ q = ground (arith, e) in
                  absurd (
                    ground (
                      arith,
                      other,
                      ex.single q j r (ap (λ a. drains a (pc j)) (sym same) ∙ d) mine,
                    ))
              | inr e ↦ (e, d)
            ]) in
      record {
        locked = λ j q' d.
            let (other, d') = before q' j d in
            let (act, free) = ex.locked j q' d' in (ground (arith, other, act), free);
        single = λ q' j j' d d'. ex.single q' j j' (before q' j d).1 (before q' j' d').1;
        working = λ j free.
            if-both (λ a. is_ready a ≡ true) (j == r)
              (λ e.
                let same : r ≡ j = ground (arith, e) in
                let free_r : owned r ≡ false = ap owned same ∙ free in
                let rests : is_ready (draining q rest) ≡ true =
                  ap is_ready (sym at) ∙ ex.working r free_r in
                absurd (ground (arith, rests)))
              (λ _. ex.working j free);
        taken = λ j own. elim (Bool-cases (j == q)) [
          | inl e ↦
              let same : j ≡ q = ground (arith, e) in
              absurd (ground (arith, ap owned same, own, free_q))
          | inr e ↦ ground (arith, e, ex.taken j own)
        ];
        known = λ j act. ex.known j (ground (arith, act));
        visits = λ j q'.
            if-both (λ a. 1 ≤ occurrences q' (rest_of a) → 1 ≤ occurrences q' records) (j == r)
              (λ _ v. ex.visits r q' (subst (λ a. 1 ≤ occurrences q' (rest_of a)) (sym at) v))
              (λ _. ex.visits j q');
      }

  -- `allocate` reuses an inactive record, or takes a new one.
  pub claim-Exclusive :
      (r : ℕ)
      → 1 ≤ occurrences r records
      → active r ≡ false
      → Exclusive records (update active r true) (update owned r true) pc
  claim-Exclusive r rec idle = record {
    locked = λ j q d.
        let (act, free) = ex.locked j q d in
        elim (Bool-cases (q == r)) [
          | inl e ↦
              let same : q ≡ r = ground (arith, e) in
              absurd (ground (arith, ap active same, act, idle))
          | inr e ↦ (ground (arith, e, act), ground (arith, e, free))
        ];
    single = ex.single;
    working = λ j free. ex.working j (ground (arith, free));
    taken = λ j own. ground (arith, own, ex.taken j);
    known = λ j act. elim (Bool-cases (j == r)) [
      | inl e ↦
          let same : j ≡ r = ground (arith, e) in
          subst (λ a. 1 ≤ occurrences a records) (sym same) rec
      | inr e ↦ ex.known j (ground (arith, act, e))
    ];
    visits = ex.visits;
  }

  pub release-Exclusive :
      (r : ℕ)
      → owned r ≡ true
      → pc r ≡ ready
      → Exclusive records (update active r false) (update owned r false) pc
  release-Exclusive r own at = record {
    locked = λ j q d.
        let (act, free) = ex.locked j q d in
        elim (Bool-cases (q == r)) [
          | inl e ↦
              let same : q ≡ r = ground (arith, e) in
              absurd (ground (arith, ap owned same, own, free))
          | inr e ↦ (ground (arith, e, act), ground (arith, e, free))
        ];
    single = ex.single;
    working = λ j free. elim (Bool-cases (j == r)) [
      | inl e ↦
          let same : j ≡ r = ground (arith, e) in ap (λ a. is_ready (pc a)) same ∙ ap is_ready at
      | inr e ↦ ex.working j (ground (arith, free, e))
    ];
    taken = λ j own_j. ground (arith, own_j, ex.taken j);
    known = λ j act. ex.known j (ground (arith, act));
    visits = ex.visits;
  }

  pub more-Exclusive : (r : ℕ) → Exclusive (r ∷ records) active owned pc
  more-Exclusive r = record {
    locked = ex.locked;
    single = ex.single;
    working = ex.working;
    taken = ex.taken;
    known = λ j act. ground (arith, ex.known j act);
    visits = λ j q v. ground (arith, ex.visits j q v);
  }

  pub inactive : (r : ℕ) → occurrences r records ≡ 0 → active r ≡ false
  inactive r new = elim (Bool-cases (active r)) [
    | inl e ↦ absurd (omega (arith, ex.known r e, new))
    | inr e ↦ e
  ]
