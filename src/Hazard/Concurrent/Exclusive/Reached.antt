-- ===== src/Hazard/Concurrent/Exclusive/Reached.antt =====
-- Every reachable state.
use ccmetrics.Base.{
  ℕ, ◌≤◌, ◌≡◌, refl, sym, ap, ◌∙◌, Bool, true, false, ◌||◌, ◌==◌, List, [], ◌∷◌, Option, none, some,
  occurrences, if◌then◌else◌, if-both, update, arith,
}
use mathlib.Core.Path.{subst}
use ccmetrics.Hazard.{should_scan}
use ccmetrics.Hazard.Concurrent.{
  State, Pc, Back, ready, loading, announcing, checking, retiring, testing, reading_head, scanning,
  help_head, helping, draining, to_help, to_drain, check, resume, without_scan, help, drain_one,
  pop_back, slots_of, step, init, Step, run, push, count, claim, release, begin, clear, copy,
  replace, remove, Reach, start, later,
}
use ccmetrics.Hazard.Concurrent.Exclusive.{
  drains, is_ready, rest_of, Exclusive, IsExclusive, goto-Exclusive,
}
use ccmetrics.Hazard.Concurrent.Exclusive.Locks.{
  lock-Exclusive, unlock-Exclusive, claim-Exclusive, release-Exclusive, more-Exclusive, inactive,
}

init-Exclusive : IsExclusive init
init-Exclusive = record {
  locked = λ r q d. absurd (ground (arith, d));
  single = λ q r r' d _. absurd (ground (arith, d));
  working = λ r _. refl;
  taken = λ r own. absurd (ground (arith, own));
  known = λ r act. absurd (ground (arith, act));
  visits = λ r q v. absurd (omega (arith, v));
}

module _ (n : ℕ) (s : State) (ex : IsExclusive s) where
  -- A thread that is not ready goes on.
  go-Exclusive :
      (r : ℕ) (p p' : Pc)
      → s.pc r ≡ p
      → is_ready p ≡ false
      → ((q : ℕ) → drains q p' ≡ true → drains q p ≡ true)
      → ((q : ℕ) → 1 ≤ occurrences q (rest_of p') → 1 ≤ occurrences q s.records)
      → Exclusive s.records s.active s.owned (update s.pc r p')
  go-Exclusive r p p' at busy keeps stays =
      goto-Exclusive ex r p'
        (λ free. absurd (ground (arith, ap is_ready at, ex.working r free, busy)))
        (λ q d. ap (drains q) at ∙ keeps q d) stays

  -- It has nothing left to visit.
  end-Exclusive :
      (r : ℕ) (p p' : Pc)
      → s.pc r ≡ p
      → is_ready p ≡ false
      → ((q : ℕ) → drains q p' ≡ true → drains q p ≡ true)
      → ((q : ℕ) → occurrences q (rest_of p') ≡ 0)
      → Exclusive s.records s.active s.owned (update s.pc r p')
  end-Exclusive r p p' at busy keeps none_left =
      go-Exclusive r p p' at busy keeps (λ q v. absurd (omega (arith, v, none_left q)))

  -- It has what it had.
  on-Exclusive :
      (r : ℕ) (p p' : Pc)
      → s.pc r ≡ p
      → is_ready p ≡ false
      → ((q : ℕ) → drains q p' ≡ true → drains q p ≡ true)
      → ((q : ℕ) → occurrences q (rest_of p') ≤ occurrences q (rest_of p))
      → Exclusive s.records s.active s.owned (update s.pc r p')
  on-Exclusive r p p' at busy keeps fewer = go-Exclusive r p p' at busy keeps (λ q v.
      ex.visits r q
        (subst (λ a. 1 ≤ occurrences q (rest_of a)) (sym at) (omega (arith, v, fewer q))))

  testing-Exclusive :
      (r : ℕ) (back : Back) (full : Bool)
      → s.pc r ≡ testing back
      → Exclusive s.records s.active s.owned
          (update s.pc r (if full then reading_head back else without_scan back))
  testing-Exclusive r back true at =
      on-Exclusive r (testing back) (reading_head back) at refl (λ q d. d) (λ q. omega arith)
  testing-Exclusive r to_help false at =
      end-Exclusive r (testing to_help) ready at refl (λ q d. d) (λ q. refl)
  testing-Exclusive r (to_drain q rest) false at =
      on-Exclusive r (testing (to_drain q rest)) (draining q rest) at refl (λ q d. d)
        (λ q. omega arith)

  resume-Exclusive :
      (r : ℕ) (live : List ℕ) (back : Back)
      → s.pc r ≡ scanning [] live back
      → Exclusive s.records s.active s.owned (update s.pc r (resume back))
  resume-Exclusive r live to_help at =
      end-Exclusive r (scanning [] live to_help) help_head at refl (λ q d. d) (λ q. refl)
  resume-Exclusive r live (to_drain q rest) at =
      on-Exclusive r (scanning [] live (to_drain q rest)) (draining q rest) at refl (λ q d. d)
        (λ q. omega arith)

  drain_one-Exclusive :
      (r q : ℕ) (rest : List ℕ) (o : Option (List ℕ × ℕ))
      → s.pc r ≡ draining q rest
      → IsExclusive (drain_one s r q rest o)
  drain_one-Exclusive r q rest none at = unlock-Exclusive ex r q rest at
  drain_one-Exclusive r q rest (some (front, last)) at =
      on-Exclusive r (draining q rest) (testing (to_drain q rest)) at refl (λ q d. d)
        (λ q. omega arith)

  check-Exclusive :
      (r : ℕ) (once : Bool) (c k cur : ℕ)
      → s.pc r ≡ checking once c k cur
      → IsExclusive (check s r once c k cur)
  check-Exclusive r once c k cur at =
      let here = checking once c k cur in
      let returns = end-Exclusive r here ready at refl (λ q d. d) (λ q. refl) in
      if-both IsExclusive (s.cell c == cur) (λ _. returns)
        (λ _.
          if-both IsExclusive once (λ _. returns)
            (λ _. end-Exclusive r here (loading once c k) at refl (λ q d. d) (λ q. refl)))

  help-Exclusive :
      (r q : ℕ) (rest : List ℕ) → s.pc r ≡ helping (q ∷ rest) → IsExclusive (help s r q rest)
  help-Exclusive r q rest at =
      if-both IsExclusive ((q == r) || s.active q)
        (λ _.
          on-Exclusive r (helping (q ∷ rest)) (helping rest) at refl (λ q d. d) (λ j. omega arith))
        (λ e. lock-Exclusive ex r q rest at (ground (arith, e)))

  step-Exclusive : (r : ℕ) (p : Pc) → s.pc r ≡ p → IsExclusive (step n s r p)
  step-Exclusive r ready at = ex
  step-Exclusive r (loading once c k) at =
      end-Exclusive r (loading once c k) (announcing once c k (s.cell c)) at refl (λ q d. d)
        (λ q. refl)
  step-Exclusive r (announcing once c k cur) at =
      end-Exclusive r (announcing once c k cur) (checking once c k cur) at refl (λ q d. d)
        (λ q. refl)
  step-Exclusive r (checking once c k cur) at = check-Exclusive r once c k cur at
  step-Exclusive r (retiring node) at =
      end-Exclusive r (retiring node) (testing to_help) at refl (λ q d. d) (λ q. refl)
  step-Exclusive r (testing back) at =
      testing-Exclusive r back
        (should_scan n s.hp_count (record { retired = s.retire_list r; freed = s.freed })) at
  step-Exclusive r (reading_head back) at =
      on-Exclusive r (reading_head back) (scanning (slots_of n s.records) [] back) at refl
        (λ q d. d) (λ q. omega arith)
  step-Exclusive r (scanning [] live back) at = resume-Exclusive r live back at
  step-Exclusive r (scanning ((q, k) ∷ todo) live back) at =
      on-Exclusive r (scanning ((q, k) ∷ todo) live back)
        (scanning todo (if s.pointers q k == 0 then live else s.pointers q k ∷ live) back) at refl
        (λ q d. d) (λ q. omega arith)
  step-Exclusive r help_head at =
      go-Exclusive r help_head (helping s.records) at refl (λ q d. d) (λ q v. v)
  step-Exclusive r (helping []) at =
      end-Exclusive r (helping []) ready at refl (λ q d. d) (λ q. refl)
  step-Exclusive r (helping (q ∷ rest)) at = help-Exclusive r q rest at
  step-Exclusive r (draining q rest) at =
      drain_one-Exclusive r q rest (pop_back (s.retire_list q)) at

  -- An owner that is ready begins something.
  begin-Exclusive :
      (r : ℕ) (p : Pc)
      → s.owned r ≡ true
      → ((q : ℕ) → drains q p ≡ false)
      → ((q : ℕ) → occurrences q (rest_of p) ≡ 0)
      → Exclusive s.records s.active s.owned (update s.pc r p)
  begin-Exclusive r p own idle none_left =
      goto-Exclusive ex r p (λ free. absurd (ground (arith, own, free)))
        (λ q d. absurd (ground (arith, d, idle q))) (λ q v. absurd (omega (arith, v, none_left q)))

  Step-Exclusive : {t : State} → Step n s t → IsExclusive t
  Step-Exclusive (run r) = step-Exclusive r (s.pc r) refl
  Step-Exclusive (push r new at) =
      claim-Exclusive (more-Exclusive ex r) r (ground arith) (inactive ex r new)
  Step-Exclusive count = ex
  Step-Exclusive (claim r rec idle) = claim-Exclusive ex r rec idle
  Step-Exclusive (release r own at _) = release-Exclusive ex r own at
  Step-Exclusive (begin r once c k own at fits) =
      begin-Exclusive r (loading once c k) own (λ _. refl) (λ _. refl)
  Step-Exclusive (clear r k own at) = begin-Exclusive r ready own (λ _. refl) (λ _. refl)
  Step-Exclusive (copy r j k own at held below fits) =
      begin-Exclusive r ready own (λ _. refl) (λ _. refl)
  Step-Exclusive (replace r c own at) =
      begin-Exclusive r (if s.cell c == 0 then ready else retiring (s.cell c)) own
        (λ q. if-both (λ p. drains q p ≡ false) (s.cell c == 0) (λ _. refl) (λ _. refl))
        (λ q. if-both (λ p. occurrences q (rest_of p) ≡ 0) (s.cell c == 0) (λ _. refl) (λ _. refl))
  Step-Exclusive (remove r c own at real) =
      begin-Exclusive r (retiring (s.cell c)) own (λ _. refl) (λ _. refl)

Reach-Exclusive : (n : ℕ) (s : State) → Reach n s → IsExclusive s
Reach-Exclusive n s start = init-Exclusive
Reach-Exclusive n s (later {s = before} path last) =
    Step-Exclusive n before (Reach-Exclusive n before path) last

-- In every reachable state, while thread `r` empties the retire list of record `q` in `helpScan`,
-- that record is locked and no thread owns it, no operation of its former owner is under way, and
-- no other thread empties that list.
pub list-locked :
    (n : ℕ) (s : State) (q r : ℕ)
    → Reach n s
    → drains q (s.pc r) ≡ true
    → (s.active q ≡ true)
      × (s.owned q ≡ false)
      × (is_ready (s.pc q) ≡ true)
      × ((r' : ℕ) → drains q (s.pc r') ≡ true → r' ≡ r)
list-locked n s q r path d =
    let ex = Reach-Exclusive n s path in
    let (act, free) = ex.locked r q d in
    (act, free, ex.working q free, λ r' d'. ground (arith, ex.single q r' r d' d))
