-- ===== src/Hazard/Concurrent/Solo/Retire.antt =====
-- `retireNode`, run alone, is the operation of Hazard.antt.
use ccmetrics.Base.{
  ℕ, ◌≤◌, ◌≡◌, refl, sym, ap, ◌∙◌, Bool, true, false, ◌==◌, inl, inr, List, [], ◌∷◌, ◌++◌, map,
  occurrences, if◌then◌else◌, Bool-cases, update, arith,
}
use ccmetrics.Hazard.{
  HazardPointer, HazardPointers, Local, should_scan, scan, help_records, modify, retire_list_of,
  scan_if_full, retire_node,
}
use ccmetrics.Hazard.Concurrent.{State, to_help, testing, retiring, help_head, helping, ready, step}
use ccmetrics.Hazard.Concurrent.Solo.{
  solo, record_at, view, Leads, then-Leads, stay-Leads, goto-put, one-Leads,
}
use ccmetrics.Hazard.Concurrent.Solo.Drain.{records_of, mine, tested-Leads}
use ccmetrics.Hazard.Concurrent.Solo.Help.{help-Leads, helped, cleared, help_records-helped}

retire_list_of-record_at :
    (n : ℕ) (s : State) (r : ℕ) (records : List ℕ)
    → 1 ≤ occurrences r records
    → retire_list_of r (map (record_at n s s.retire_list s.active) records) ≡ s.retire_list r
unfolding retire_list_of
retire_list_of-record_at n s r [] rec = absurd (omega (arith, rec))
retire_list_of-record_at n s r (q ∷ records) rec = elim (Bool-cases (q == r)) [
  | inl e ↦ let same : q ≡ r = ground (arith, e) in rw e (ap s.retire_list same)
  | inr e ↦ rw e (retire_list_of-record_at n s r records (ground (arith, rec, e)))
]

modify-record_at :
    (n : ℕ) (s : State) (r : ℕ) (lists : ℕ → List ℕ) (retired : List ℕ) (records : List ℕ)
    → modify r
        (λ hp. record hp { retire_list = retired })
        (map (record_at n s lists s.active) records)
      ≡ map (record_at n s (update lists r retired) s.active) records
unfolding modify
modify-record_at n s r lists retired [] = refl
modify-record_at n s r lists retired (q ∷ records) =
    let later = modify-record_at n s r lists retired records in
    let here : (if q == r
          then record (record_at n s lists s.active q) { retire_list = retired }
          else record_at n s lists s.active q)
        ≡ record_at n s (update lists r retired) s.active q =
      elim (Bool-cases (q == r)) [ inl e ↦ rw e refl | inr e ↦ rw e refl ] in
    λ i. here i ∷ later i

module _ (n : ℕ) (s : State) (r : ℕ) where
  -- The own lists when `retireNode` returns, and those of the others.
  abbrev full : Local → Bool
  full l = should_scan n s.hp_count l

  abbrev last_lists : Local → ℕ → List ℕ
  last_lists l = if full l then cleared n s r s.retire_list s.active s.records else s.retire_list

  abbrev last_own : Local → Local
  last_own l =
      if full l
      then helped n s r s.retire_list s.active s.records (scan (records_of n s r) l)
      else l

  tail-Leads :
      (l : Local)
      → Leads n r
          (mine n s r s.retire_list s.active l (testing to_help))
          (mine n s r (last_lists l) s.active (last_own l) ready)
  tail-Leads l = then-Leads (tested-Leads n s r s.retire_list s.active l to_help) (split (full l))
    where
      split :
          (b : Bool)
          → Leads n r
              (mine n s r s.retire_list s.active
                (if b then scan (records_of n s r) l else l)
                (if b then help_head else ready))
              (mine n s r
                (if b then cleared n s r s.retire_list s.active s.records else s.retire_list)
                s.active
                (if b
                  then helped n s r s.retire_list s.active s.records (scan (records_of n s r) l)
                  else l)
                ready)
      split false = stay-Leads refl
      split true =
          let l' = scan (records_of n s r) l in
          let own = update s.retire_list r l'.retired in
          then-Leads
            (one-Leads s r own s.active l'.freed help_head
              (goto-put s r own s.active l'.freed help_head (helping s.records)))
            (help-Leads n s r s.records s.retire_list s.active l')

  scan_if_full-last :
      (l : Local)
      → ((q : ℕ) → occurrences q s.records ≤ 1)
      → scan_if_full n r (view n s) l
        ≡ (map (record_at n s (last_lists l) s.active) s.records, last_own l)
  unfolding scan_if_full
  scan_if_full-last l once = split (full l)
    where
      split :
          (b : Bool)
          → (if b
              then help_records n s.hp_count
                  (records_of n s r)
                  r
                  (records_of n s r)
                  (scan (records_of n s r) l)
              else (records_of n s r, l))
            ≡ (
              map
                  (record_at n s
                    (if b then cleared n s r s.retire_list s.active s.records else s.retire_list)
                    s.active)
                  s.records,
              if b
                  then helped n s r s.retire_list s.active s.records (scan (records_of n s r) l)
                  else l,
            )
      split false = refl
      split true =
          help_records-helped n s r s.records s.retire_list s.active (scan (records_of n s r) l)
            once

-- Where no record stands in the list twice, and record `r` stands in it, the steps of `retireNode`
-- by the thread of record `r`, run while no other thread moves, come to an end, and leave what the
-- sequential `retire_node` leaves: the same retire lists, deleted nodes, hazard pointers and flags.
pub solo-retire_node :
    (n : ℕ) (s : State) (r node : ℕ)
    → s.pc r ≡ retiring node
    → 1 ≤ occurrences r s.records
    → ((q : ℕ) → occurrences q s.records ≤ 1)
    → (m : ℕ) × ((solo n r m s).pc r ≡ ready)
      × (view n (solo n r m s) ≡ retire_node n r node (view n s))
unfolding retire_node
solo-retire_node n s r node at rec once =
    let l : Local = record { retired = s.retire_list r ++ node ∷ []; freed = s.freed } in
    let first : Leads n r s (mine n s r s.retire_list s.active l (testing to_help)) = record {
      moves = 1;
      arrives = ap (step n s r) at;
    } in
    let all = then-Leads first (tail-Leads n s r l) in
    let own : retire_list_of r (records_of n s r) ≡ s.retire_list r =
      retire_list_of-record_at n s r s.records rec in
    let end_ = last_own n s r l in
    let from : List ℕ → Local = λ xs. record { retired = xs ++ node ∷ []; freed = s.freed } in
    let finish : List HazardPointer × Local → HazardPointers = λ x. record (view n s) {
      records = modify r (λ hp. record hp { retire_list = x.1.retired }) x.0;
      freed = x.1.freed;
    } in
    (
      all.moves,
      ap (λ t. t.pc r) all.arrives ∙ ground arith,
      ap (view n) all.arrives
          ∙ (λ i. record (view n s) {
            records = sym (modify-record_at n s r (last_lists n s r l) end_.retired s.records) i;
            freed = end_.freed;
          })
          ∙ ap finish (sym (scan_if_full-last n s r l once))
          ∙ ap (λ xs. finish (scan_if_full n r (view n s) (from xs))) (sym own),
    )
