-- ===== src/Striped/Tests.antt =====
-- Tests of the striped counter, and its theorems at concrete inputs.
use ccmetrics.Base.{
  ℕ, none, ◌∙◌, sym, ◌<◌, arith, zero, suc, List, ◌%◌, ◌^◌, ◌≡◌, ◌≢◌, refl, [], ◌∷◌, some, true,
  false, inr,
}
use mathlib.Core.List.{foldl}
use ccmetrics.Striped.Storage.{
  Striped64Storage, expanded, disavow, disavow_all, delete_storage, expanded_ownership,
}
use ccmetrics.Striped.{idle, read_slot, fault, is_gone, step, access, value}
use ccmetrics.Striped.System.{System, begin, run, look, reclaim, Reach, start, later}
use ccmetrics.Striped.Conserve.{value-total}
use ccmetrics.Striped.Dereference.{dereferenced-held, step-ne-fault}

-- A run of the threads 0, 1 and 2.
record Run : Type 0 where
  last : System
  open last use *
  reach : Reach last
  calm : (j : ℕ) → 2 < j → (last.thread j).hazard ≡ none

-- One step of thread `i`.
turn : Run → ℕ → Run
turn r i =
    let o = step r.mem (r.thread (i % 3)) (r.thread (i % 3)).pc in
    record {
      last = _;
      reach = later r.reach (run (i % 3) o refl);
      calm = λ j h. ground (arith, r.calm j h);
    }

-- Thread `i` calls `add` with a value and a hash code.
enter_add : (r : Run) (i value hash : ℕ) → (r.thread i).pc ≡ idle → Run
enter_add r i value hash e = record {
  last = _;
  reach = later r.reach (begin i value hash e);
  calm = λ j h. ground (arith, r.calm j h);
}

abbrev nothing : Run
nothing = record { last = _; reach = start; calm = λ j h. refl }

-- Thread 0 is about to add 5, thread 1 to add 7.
abbrev both_enter : Run
unfolding enter_add
both_enter = enter_add (enter_add nothing 0 5 0 refl) 1 7 1 refl

-- Both read `base_`; thread 0 wins, and thread 1 goes on in `addSlow`, creates the stripes, and
-- updates slot 1.
abbrev contended : Run
contended = foldl turn both_enter (0 ∷ 1 ∷ 0 ∷ 1 ∷ 0 ∷ 1 ∷ 1 ∷ 1 ∷ 1 ∷ 1 ∷ [])

contended_test : contended.mem.base ≡ 5
unfolding turn step access enter_add
contended_test = refl

contended_stripes_test : contended.mem.stripes ≡ some 0
unfolding turn step access enter_add
contended_stripes_test = refl

contended_cell_test : contended.mem.cell 1 ≡ 7
unfolding turn step access enter_add
contended_cell_test = refl

value-total_example : value contended.mem ≡ contended.total % 2 ^ 64
value-total_example = value-total contended.reach

contended_total_test : contended.total ≡ 12
unfolding turn step access enter_add
contended_total_test = refl

-- The steps of an undisturbed `add` of thread 2, on a counter that has stripes.
abbrev six : List ℕ
six = 2 ∷ 2 ∷ 2 ∷ 2 ∷ 2 ∷ 2 ∷ []

-- Thread 1 loses the base to thread 0 and publishes the first storage, 0. Then it is about to read a
-- slot of it, and so is thread 0.
abbrev both_read : Run
unfolding turn step access enter_add
both_read =
    let both = enter_add (enter_add nothing 0 1 0 refl) 1 1 0 refl in
    let r = foldl turn both (0 ∷ 1 ∷ 0 ∷ 1 ∷ 0 ∷ 1 ∷ 1 ∷ 1 ∷ []) in
    foldl turn (enter_add r 0 1 0 refl) (0 ∷ 0 ∷ 0 ∷ 0 ∷ [])

-- Thread 2 updates the slot behind their reads: both fail, and are about to read again.
abbrev first_failure : Run
unfolding turn step access enter_add
first_failure =
    let r = foldl turn (enter_add (foldl turn both_read (1 ∷ 0 ∷ [])) 2 1 0 refl) six in
    foldl turn r (1 ∷ 0 ∷ 1 ∷ 0 ∷ 0 ∷ 0 ∷ 0 ∷ [])

-- Both fail a second time: thread 1 is about to grow the table, and thread 0 to read again.
abbrev second_failure : Run
unfolding turn step access enter_add
second_failure =
    let r = foldl turn (enter_add (foldl turn first_failure (1 ∷ 0 ∷ [])) 2 1 0 refl) six in
    foldl turn r (1 ∷ 0 ∷ 0 ∷ 0 ∷ 0 ∷ 0 ∷ [])

-- Thread 0 fails a third time and grows the table to the storage 2, before thread 1, which has built
-- the storage 1, tries to; thread 1 goes on with the storage 2, and its hazard is still 0.
abbrev lost_race : Run
unfolding turn step access enter_add
lost_race =
    let r = foldl turn (enter_add (foldl turn second_failure (0 ∷ [])) 2 1 0 refl) six in
    foldl turn r (0 ∷ 1 ∷ 0 ∷ 0 ∷ 1 ∷ 1 ∷ [])

lost_race_test :
    ((lost_race.thread 1).pc
      ≡ read_slot (record { value = 1; hash = 0; slow = true; contended = true; load = false }) 2)
    × ((lost_race.thread 1).hazard ≡ some 0)
unfolding turn step access enter_add
lost_race_test = (refl, refl)

-- Thread 0 grows the table again, to the storage 3, and retires the storage 2.
abbrev grown_again : Run
unfolding turn step access enter_add
grown_again =
    let holding = foldl turn lost_race (0 ∷ 0 ∷ 0 ∷ 0 ∷ 0 ∷ []) in
    let r = foldl turn (enter_add holding 2 1 0 refl) six in
    foldl turn r (0 ∷ 0 ∷ 0 ∷ 0 ∷ 0 ∷ 0 ∷ 0 ∷ [])

grown_again_test : (grown_again.mem.retired ≡ 2 ∷ 0 ∷ []) × ((grown_again.thread 0).hazard ≡ some 3)
unfolding turn step access enter_add
grown_again_test = (refl, refl)

none-ne-some : (p : ℕ) → none ≡ some p → ⊥
none-ne-some p e = cc

unseen : (i : ℕ) → (grown_again.thread i).hazard ≢ some 2
unfolding turn step access enter_add
unseen zero h = cc
unseen (suc zero) h = cc
unseen (suc (suc zero)) h = cc
unseen (suc (suc (suc i))) h =
    none-ne-some 2 (sym (grown_again.calm (suc (suc (suc i))) (omega arith)) ∙ h)

-- A scan reads the hazards of all threads and deletes the storage 2.
abbrev deleted : Run
unfolding turn step access enter_add
deleted = record {
  last = _;
  reach =
      later (later grown_again.reach (look 2 (λ i. true) refl (λ i e. unseen i)))
        (reclaim 2 refl (λ i. refl));
  calm = grown_again.calm;
}

-- Thread 1, which has published the first storage, reads a slot of the storage 2: it is deleted.
creator_faults_test : (turn deleted 1).thread 1 ≡ record { pc = fault; hazard = some 0 }
unfolding turn step access enter_add
creator_faults_test = refl

-- Thread 0 has confirmed its hazard on the storage 3, and is about to read a slot of it.
abbrev holding : Run
unfolding turn step access enter_add
holding = turn deleted 0

holding_test : (holding.mem.freed ≡ 2 ∷ []) × ((holding.thread 1).hazard ≡ some 0)
unfolding turn step access enter_add
holding_test = (refl, refl)

dereferenced-held_example : ((holding.thread 0).hazard ≡ some 3) × (is_gone holding.mem 3 ≡ false)
unfolding turn step access enter_add
dereferenced-held_example = dereferenced-held holding.reach 0 3 refl refl

step-ne-fault_example :
    (step holding.mem (holding.thread 0) (holding.thread 0).pc).thread.pc ≢ fault
unfolding turn step access enter_add
step-ne-fault_example = step-ne-fault holding.reach 0 refl

abbrev four_slots : Striped64Storage
four_slots = record { clean_created = true; owner = true; slots = 0 ∷ 1 ∷ 2 ∷ 3 ∷ [] }

expanded_ownership_example :
    (delete_storage (disavow_all four_slots) [] ≡ [])
    × (delete_storage (expanded 4 four_slots) [] ≡ 4 ∷ delete_storage four_slots [])
    × (delete_storage (disavow (expanded 4 four_slots)) [] ≡ 4 ∷ [])
expanded_ownership_example = expanded_ownership 4 four_slots [] (inr refl) refl
