-- ===== src/Hazard/Concurrent.antt =====
-- src/hazard_pointers.h with any number of threads at work at once: one step is one access to what
-- they share. A thread is the hazard pointer record that it owns, and the atomic pointers that
-- `loadAndSetHazard` loads are the cells. Every store is seen by all threads at once.
pub mod Stages
pub mod Keeps
pub mod Readers
pub mod Writers
pub mod Exchange
pub mod Listing
pub mod Scans
pub mod Safe
pub mod Solo
pub mod Buffered
pub mod Exclusive
use ccmetrics.Base.{
  ℕ, zero, suc, ◌+◌, ◌≤◌, ◌<◌, ◌≡◌, Bool, true, false, not, ◌&&◌, ◌||◌, List, [], ◌∷◌, ◌++◌, Option,
  none, some, ◌==◌, ltb, if◌then◌else◌, update, occurrences, length,
}
use ccmetrics.Hazard.{sweep, should_scan}

-- Where `scan` goes on when it was called: behind `retireNode`, or in the loop of `helpScan` that
-- empties the retire list of the record `target`, with the records `rest` still to be visited.
pub data Back : Type 0 where
  to_help : Back
  to_drain : (target : ℕ) → (rest : List ℕ) → Back

-- Where a thread stands: before the access that the constructor names. `once` tells
-- `loadAndSetHazardOrFail` from `loadAndSetHazard`.
pub data Pc : Type 0 where
  ready : Pc
  loading : (once : Bool) → (c k : ℕ) → Pc
  announcing : (once : Bool) → (c k cur : ℕ) → Pc
  checking : (once : Bool) → (c k cur : ℕ) → Pc
  retiring : (node : ℕ) → Pc
  testing : Back → Pc  -- `shouldScan`
  reading_head : Back → Pc  -- phase 1 of `scan`
  scanning : (todo : List (ℕ × ℕ)) → (live : List ℕ) → Back → Pc
  help_head : Pc
  helping : (rest : List ℕ) → Pc
  draining : (target : ℕ) → (rest : List ℕ) → Pc

-- What the threads share, and where they stand. `owned` tells the records that a thread has allocated
-- from those that `helpScan` has locked; `held` the slots that a thread relies on.
pub record State : Type 0 where
  pub cell : ℕ → ℕ
  pub next_node : ℕ
  pub records : List ℕ
  pub hp_count : ℕ
  pub pointers : ℕ → ℕ → ℕ
  pub active : ℕ → Bool
  pub retire_list : ℕ → List ℕ
  pub freed : List ℕ
  pub pc : ℕ → Pc
  pub owned : ℕ → Bool
  pub held : ℕ → ℕ → Bool

abbrev pub init : State
init = record {
  cell = λ _. 0;
  next_node = 1;
  records = [];
  hp_count = 0;
  pointers = λ _ _. 0;
  active = λ _. false;
  retire_list = λ _. [];
  freed = [];
  pc = λ _. ready;
  owned = λ _. false;
  held = λ _ _. false;
}

-- The vector without its last element, and that element.
abbrev pub pop_back : List ℕ → Option (List ℕ × ℕ)
pop_back [] = none
pop_back (x ∷ xs) = elim (pop_back xs) [
  | none ↦ some ([], x)
  | some (init, last) ↦ some (x ∷ init, last)
]

-- The slots that phase 1 of `scan` loads, from the record at `head_` on.
abbrev pub slots_from : (k n r : ℕ) → List (ℕ × ℕ) → List (ℕ × ℕ)
slots_from k zero r rest = rest
slots_from k (suc n) r rest = (r, k) ∷ slots_from (suc k) n r rest

abbrev pub slots_of : (n : ℕ) → List ℕ → List (ℕ × ℕ)
slots_of n [] = []
slots_of n (r ∷ records) = slots_from 0 n r (slots_of n records)

-- A change of where thread `r` stands, and of one slot.
abbrev pub goto : State → ℕ → Pc → State
goto s r p = record s { pc = update s.pc r p }

abbrev pub with_slot : State → (r k node : ℕ) → (held : Bool) → State
with_slot s r k node held = record s {
  pointers = update s.pointers r (update (s.pointers r) k node);
  held = update s.held r (update (s.held r) k held);
}

abbrev pub with_held : State → (r k : ℕ) → (held : Bool) → State
with_held s r k held = record s { held = update s.held r (update (s.held r) k held) }

-- The second load of `loadAndSetHazard`.
abbrev pub check : State → (r : ℕ) → (once : Bool) → (c k cur : ℕ) → State
check s r once c k cur =
    if s.cell c == cur
    then goto (with_held s r k (not (cur == 0))) r ready
    else if once
    then goto (with_slot s r k 0 false) r ready
    else goto s r (loading once c k)

-- Where `scan` returns to, and where its caller goes on without it.
abbrev pub resume : Back → Pc
resume to_help = help_head
resume (to_drain target rest) = draining target rest

abbrev pub without_scan : Back → Pc
without_scan to_help = ready
without_scan (to_drain target rest) = draining target rest

-- Phase 2 of `scan`.
abbrev pub delete_dead : State → (r : ℕ) → (live : List ℕ) → Back → State
delete_dead s r live back =
    let l = sweep (length (s.retire_list r)) live [] (s.retire_list r) s.freed in
    goto (record s { retire_list = update s.retire_list r l.0; freed = l.1 }) r (resume back)

-- The loop of `helpScan` at the record `q`.
abbrev pub help : State → (r q : ℕ) → (rest : List ℕ) → State
help s r q rest =
    if (q == r) || s.active q
    then goto s r (helping rest)
    else goto (record s { active = update s.active q true }) r (draining q rest)

-- The test of its inner loop, at the end of which the record is unlocked; the last element goes over to
-- the own retire list.
abbrev pub drain_one : State → (r q : ℕ) → (rest : List ℕ) → Option (List ℕ × ℕ) → State
drain_one s r q rest none = goto (record s { active = update s.active q false }) r (helping rest)
drain_one s r q rest (some (init, last)) =
    let shorter = update s.retire_list q init in
    goto (record s { retire_list = update shorter r (shorter r ++ last ∷ []) }) r
      (testing (to_drain q rest))

-- One step of the thread of record `r`; a record has `n` slots.
abbrev pub step : (n : ℕ) → State → (r : ℕ) → Pc → State
step n s r ready = s
step n s r (loading once c k) = goto s r (announcing once c k (s.cell c))
step n s r (announcing once c k cur) = goto (with_slot s r k cur false) r (checking once c k cur)
step n s r (checking once c k cur) = check s r once c k cur
step n s r (retiring node) =
    goto (record s { retire_list = update s.retire_list r (s.retire_list r ++ node ∷ []) }) r
      (testing to_help)
step n s r (testing back) = goto s r (
    if should_scan n s.hp_count (record { retired = s.retire_list r; freed = s.freed })
    then reading_head back
    else without_scan back)
step n s r (reading_head back) = goto s r (scanning (slots_of n s.records) [] back)
step n s r (scanning [] live back) = delete_dead s r live back
step n s r (scanning ((q, k) ∷ todo) live back) =
    goto s r (scanning todo (if s.pointers q k == 0 then live else s.pointers q k ∷ live) back)
step n s r help_head = goto s r (helping s.records)
step n s r (helping []) = goto s r ready
step n s r (helping (q ∷ rest)) = help s r q rest
step n s r (draining q rest) = drain_one s r q rest (pop_back (s.retire_list q))

-- `allocate` has pushed a new record, with null pointers and active.
abbrev pub pushed : State → ℕ → State
pushed s r = record s {
  records = r ∷ s.records;
  pointers = update s.pointers r (λ _. 0);
  held = update s.held r (λ _. false);
  active = update s.active r true;
  owned = update s.owned r true;
}

-- A client has exchanged a cell, for a new node or for null, and is about to retire the old node.
abbrev pub replaced : State → (r c : ℕ) → State
replaced s r c =
    goto (record s { cell = update s.cell c s.next_node; next_node = s.next_node + 1 }) r
      (if s.cell c == 0 then ready else retiring (s.cell c))

abbrev pub removed : State → (r c : ℕ) → State
removed s r c = goto (record s { cell = update s.cell c 0 }) r (retiring (s.cell c))

-- What can happen. `replace` and `remove` are a client's successful exchange of a cell: the old node
-- goes to `retireNode`, and the new one was never in a cell. `copy` is a client's `setHazard` of a node
-- that a lower slot of its record holds. (`push` takes an address that was no record before, so the
-- retire list is empty.)
pub data Step (n : ℕ) (s : State) : State → Type 0 where
  run : (r : ℕ) → Step n s (step n s r (s.pc r))
  push : (r : ℕ) → occurrences r s.records ≡ 0 → s.pc r ≡ ready → Step n s (pushed s r)
  count : Step n s (record s { hp_count = s.hp_count + 1 })
  claim :
      (r : ℕ)
      → 1 ≤ occurrences r s.records
      → s.active r ≡ false
      → Step n s (record s { active = update s.active r true; owned = update s.owned r true })
  release :
      (r : ℕ)
      → s.owned r ≡ true
      → s.pc r ≡ ready
      → ((k : ℕ) → k < n → s.pointers r k ≡ 0)
      → Step n s (record s { active = update s.active r false; owned = update s.owned r false })
  begin :
      (r : ℕ) (once : Bool) (c k : ℕ)
      → s.owned r ≡ true
      → s.pc r ≡ ready
      → k < n
      → Step n s (goto s r (loading once c k))
  clear :
      (r k : ℕ)
      → s.owned r ≡ true
      → s.pc r ≡ ready
      → Step n s (goto (with_slot s r k 0 false) r ready)
  copy :
      (r j k : ℕ)
      → s.owned r ≡ true
      → s.pc r ≡ ready
      → s.held r j ≡ true
      → j < k
      → k < n
      → Step n s (goto (with_slot s r k (s.pointers r j) true) r ready)
  replace : (r c : ℕ) → s.owned r ≡ true → s.pc r ≡ ready → Step n s (replaced s r c)
  remove :
      (r c : ℕ)
      → s.owned r ≡ true
      → s.pc r ≡ ready
      → (s.cell c == 0) ≡ false
      → Step n s (removed s r c)

pub data Reach (n : ℕ) : State → Type 0 where
  start : Reach n init
  later : {s t : State} → Reach n s → Step n s t → Reach n t
