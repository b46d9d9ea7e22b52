-- ===== src/Hazard/Concurrent/Solo/Help.antt =====
-- The walk of `helpScan` over the records, run alone.
use ccmetrics.Base.{
  ℕ, ◌≤◌, ◌≡◌, refl, sym, ap, ◌∙◌, Bool, true, false, not, ◌&&◌, ◌||◌, ◌==◌, inl, inr, List, [],
  ◌∷◌, map, occurrences, if◌then◌else◌, if-both, Bool-cases, update, arith,
}
use mathlib.Core.List.{reverse, reverse-reverse}
use ccmetrics.Hazard.{Local, drain, help_records}
use ccmetrics.Hazard.Concurrent.{State, helping, draining, ready, goto}
use ccmetrics.Hazard.Concurrent.Solo.{
  row, record_at, Leads, then-Leads, stay-Leads, same-put, goto-put, one-Leads, if-if,
}
use ccmetrics.Hazard.Concurrent.Solo.Drain.{
  records_of, mine, drain-Leads, update-here, update-same, if-neither,
}

module _ (n : ℕ) (s : State) (r : ℕ) where
  -- What the walk over the records leaves of the lists, and of the own lists.
  abbrev skips : (ℕ → Bool) → ℕ → Bool
  skips active q = (q == r) || active q

  abbrev clear_one : (ℕ → List ℕ) → (ℕ → Bool) → ℕ → ℕ → List ℕ
  clear_one lists active q = if skips active q then lists else update lists q []

  abbrev help_one : (ℕ → List ℕ) → (ℕ → Bool) → Local → ℕ → Local
  help_one lists active l q =
      if skips active q then l else drain n s.hp_count (records_of n s r) (reverse (lists q)) l

  abbrev pub cleared : (ℕ → List ℕ) → (ℕ → Bool) → List ℕ → ℕ → List ℕ
  cleared lists active [] = lists
  cleared lists active (q ∷ rest) = cleared (clear_one lists active q) active rest

  abbrev pub helped : (ℕ → List ℕ) → (ℕ → Bool) → List ℕ → Local → Local
  helped lists active [] l = l
  helped lists active (q ∷ rest) l =
      helped (clear_one lists active q) active rest (help_one lists active l q)

  visit-Leads :
      (q : ℕ) (rest : List ℕ) (lists : ℕ → List ℕ) (active : ℕ → Bool) (l : Local)
      → Leads n r
          (mine n s r lists active l (helping (q ∷ rest)))
          (mine n s r (clear_one lists active q) active (help_one lists active l q) (helping rest))
  visit-Leads q rest lists active l =
      let own = update lists r l.retired in
      let p = helping (q ∷ rest) in
      let start = mine n s r lists active l p in
      let branch = λ (b : Bool).
        if b
        then goto start r (helping rest)
        else goto (record start { active = update active q true }) r (draining q rest) in
      elim (Bool-cases (skips active q)) [
        | inl e ↦ rw e (
            one-Leads s r own active l.freed p
              (ap branch e ∙ goto-put s r own active l.freed p (helping rest)))
        | inr e ↦
            let locked = update active q true in
            let other : (q == r) ≡ false = ground (arith, e) in
            let idle : active q ≡ false = ground (arith, e) in
            let items = reverse (lists q) in
            rw e (
              then-Leads
                (one-Leads s r own active l.freed p
                  (ap branch e ∙ goto-put s r own locked l.freed p (draining q rest)))
                (then-Leads
                  (drain-Leads n s r items lists locked l q rest other
                    (sym (reverse-reverse (lists q))))
                  (stay-Leads (
                    same-put s r (helping rest) (λ _. refl)
                      (λ j.
                        if-if (j == q) false true (active j)
                        ∙ sym (update-same active q false j idle))
                      refl))))
      ]

  -- The whole walk.
  pub help-Leads :
      (todo : List ℕ) (lists : ℕ → List ℕ) (active : ℕ → Bool) (l : Local)
      → Leads n r
          (mine n s r lists active l (helping todo))
          (mine n s r (cleared lists active todo) active (helped lists active todo l) ready)
  help-Leads [] lists active l =
      one-Leads s r (update lists r l.retired) active l.freed (helping [])
        (goto-put s r (update lists r l.retired) active l.freed (helping []) ready)
  help-Leads (q ∷ rest) lists active l =
      then-Leads (visit-Leads q rest lists active l)
        (help-Leads rest (clear_one lists active q) active (help_one lists active l q))

  -- It leaves what is not to be visited.
  clear_one-other :
      (lists : ℕ → List ℕ) (active : ℕ → Bool) (q j : ℕ)
      → (j == q) ≡ false
      → clear_one lists active q j ≡ lists j
  clear_one-other lists active q j other =
      if-both (λ (f : ℕ → List ℕ). f j ≡ lists j) (skips active q) (λ _. refl) (λ _. rw other refl)

  cleared-other :
      (todo : List ℕ) (lists : ℕ → List ℕ) (active : ℕ → Bool) (j : ℕ)
      → occurrences j todo ≡ 0
      → cleared lists active todo j ≡ lists j
  cleared-other [] lists active j absent = refl
  cleared-other (q ∷ todo) lists active j absent =
      cleared-other todo (clear_one lists active q) active j (ground (arith, absent))
      ∙ clear_one-other lists active q j (ground (arith, absent))

  map-other :
      (rest : List ℕ) (lists : ℕ → List ℕ) (active : ℕ → Bool) (q : ℕ)
      → occurrences q rest ≡ 0
      → map (record_at n s (clear_one lists active q) active) rest
        ≡ map (record_at n s lists active) rest
  map-other [] lists active q absent = refl
  map-other (j ∷ rest) lists active q absent =
      let later = map-other rest lists active q (ground (arith, absent)) in
      let here = clear_one-other lists active q j (ground (arith, absent)) in
      λ i.
        record {
          id = j;
          pointers = row 0 n (s.pointers j);
          active = active j;
          retire_list = here i;
        }
        ∷ later i

  visited :
      (lists : ℕ → List ℕ) (active : ℕ → Bool) (q : ℕ)
      → (if skips active q
          then record_at n s lists active q
          else record (record_at n s lists active q) { retire_list = [] })
        ≡ record_at n s (clear_one lists active q) active q
  visited lists active q = elim (Bool-cases (skips active q)) [
    | inl e ↦ rw e refl
    | inr e ↦ rw e (
        ap (λ xs. record (record_at n s lists active q) { retire_list = xs })
          (sym (update-here lists q [])))
  ]

  -- `help_records` is this walk.
  pub help_records-helped :
      (todo : List ℕ) (lists : ℕ → List ℕ) (active : ℕ → Bool) (l : Local)
      → ((q : ℕ) → occurrences q todo ≤ 1)
      → help_records n s.hp_count (records_of n s r) r (map (record_at n s lists active) todo) l
        ≡ (map (record_at n s (cleared lists active todo) active) todo, helped lists active todo l)
  unfolding help_records
  help_records-helped [] lists active l once = refl
  help_records-helped (q ∷ rest) lists active l once =
      let absent : occurrences q rest ≡ 0 = ground (arith, once q) in
      let ih =
        help_records-helped rest (clear_one lists active q) active (help_one lists active l q)
          (λ j. ground (arith, once j)) in
      let walk = help_records n s.hp_count (records_of n s r) r in
      let drained = drain n s.hp_count (records_of n s r) (reverse (lists q)) l in
      let own : (if not (q == r) && not (active q) then drained else l)
          ≡ help_one lists active l q =
        if-neither (q == r) (active q) drained l in
      let same_tail = sym (map-other rest lists active q absent) in
      let tail = (λ i. walk (same_tail i) (own i)) ∙ ih in
      let head =
        if-neither (q == r) (active q) (record (record_at n s lists active q) { retire_list = [] })
          (record_at n s lists active q)
        ∙ visited lists active q
        ∙ ap (λ xs. record (record_at n s lists active q) { retire_list = xs })
            (sym (cleared-other rest (clear_one lists active q) active q absent)) in
      λ i. (head i ∷ (tail i).0, (tail i).1)
