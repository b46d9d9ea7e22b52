-- ===== src/Hazard/Tests.antt =====
-- Tests of the hazard pointers, and their theorems at concrete inputs.
use ccmetrics.Base.{
  update, occurrences, ℕ, zero, suc, none, ◌||◌, ◌+◌, ◌*◌, ◌<◌, ◌≤◌, ◌≡◌, refl, [], ◌∷◌, true,
  false, some, arith, length, if◌then◌else◌, ◌==◌,
}
use ccmetrics.Hazard.{
  HazardPointers, allocate, sweep, retire_node, retire_list_of, destroy, should_scan,
}
use ccmetrics.Hazard.Concurrent.{
  with_slot, clear, release, State, init, goto, loading, announcing, ready, step, pushed, replaced,
  run, push, count, begin, replace, Reach, start, later,
}
use ccmetrics.Hazard.Concurrent.Exclusive.{drains, is_ready}
use ccmetrics.Hazard.Concurrent.Exclusive.Reached.{list-locked}
use ccmetrics.Hazard.Concurrent.Solo.{solo, view}
use ccmetrics.Hazard.Concurrent.Solo.Retire.{solo-retire_node}
use ccmetrics.Hazard.Concurrent.Safe.{held-undeleted, deleted-once}
use ccmetrics.Hazard.Concurrent.Buffered.{Buffered, BufferedRun, lost_store}
use ccmetrics.Hazard.Retire.{Protected, retired_total, retire_node-total}
use ccmetrics.Hazard.Destroy.{destroy_lem}
use ccmetrics.Hazard.Bound.{retire_node-Fits}
use ccmetrics.Hazard.Allocate.{WellFormed, Owns, allocate-Owns}
use ccmetrics.Hazard.Protect.{retire_nodes, retire_nodes-Protected}

-- The vector 10, 11, 12, 13 with 11 and 13 live: 12 and 10 go, and 13 moves to the front.
sweep_test : sweep 4 (11 ∷ 13 ∷ []) [] (10 ∷ 11 ∷ 12 ∷ 13 ∷ []) [] ≡ (13 ∷ 11 ∷ [], 12 ∷ 10 ∷ [])
unfolding sweep
sweep_test = refl

-- Three threads: 5 holds a hazard pointer to the node 20, 6 has exited and left 30 behind.
abbrev threads : HazardPointers
threads = record {
  records =
      record { id = 7; pointers = 0 ∷ []; active = true; retire_list = 20 ∷ 21 ∷ 23 ∷ [] }
      ∷ record { id = 6; pointers = 0 ∷ []; active = false; retire_list = 30 ∷ [] }
      ∷ record { id = 5; pointers = 20 ∷ []; active = true; retire_list = [] }
      ∷ [];
  hp_count = 3;
  freed = [];
}

-- Retiring 22 passes the limit of 3 * 5/4. The protected 20 stays, and 30 is adopted.
retire_node_test : (retire_node 1 7 22 threads).freed ≡ 23 ∷ 22 ∷ 21 ∷ []
unfolding retire_node
retire_node_test = refl

abbrev held : Protected 20 threads.records
held = (
  2,
  0,
  record { id = 5; pointers = 20 ∷ []; active = true; retire_list = [] },
  refl,
  refl,
  omega arith,
)

retire_node-total_example :
    retired_total 20 (retire_node 1 7 22 threads).records
      + occurrences 20 (retire_node 1 7 22 threads).freed
    ≡ retired_total 20 threads.records + occurrences 20 threads.freed + 0
retire_node-total_example = retire_node-total 1 7 22 threads 20 refl

retire_nodes-Protected_example :
    (occurrences 20 (retire_nodes 1 ((7, 22) ∷ (5, 24) ∷ []) threads).freed ≡ 0)
    × Protected 20 (retire_nodes 1 ((7, 22) ∷ (5, 24) ∷ []) threads).records
retire_nodes-Protected_example =
    retire_nodes-Protected 1 20 ((7, 22) ∷ (5, 24) ∷ []) threads (refl, (refl, tt)) held

threads_once : (a : ℕ) → retired_total a threads.records + (if 22 == a then 1 else 0) ≤ 1
unfolding retired_total
threads_once a = ground arith

retire_node-Fits_example :
    4 * length (retire_list_of 7 (retire_node 1 7 22 threads).records) < 5 * (3 * 1)
retire_node-Fits_example =
    retire_node-Fits 1 7 22 threads refl (refl, (refl, (refl, tt))) (omega arith) refl threads_once

threads-WellFormed : WellFormed 1 threads
threads-WellFormed = record {
  counted = refl;
  wide = (refl, (refl, (refl, tt)));
  once = λ i. ground arith;
}

allocate-Owns_example : Owns 1 threads (allocate 1 8 threads)
allocate-Owns_example = allocate-Owns 1 8 threads threads-WellFormed refl

abbrev exited : HazardPointers
exited = record {
  records =
      record { id = 7; pointers = 0 ∷ []; active = false; retire_list = 20 ∷ [] }
      ∷ record { id = 6; pointers = 0 ∷ []; active = false; retire_list = 30 ∷ 31 ∷ [] }
      ∷ [];
  hp_count = 2;
  freed = [];
}

destroy_lem_example :
    occurrences 31 (destroy 1 exited).freed
    ≡ occurrences 31 exited.freed + retired_total 31 exited.records
destroy_lem_example = destroy_lem 1 31 exited (λ i. ground arith) (refl, refl, (refl, refl, tt))

-- Thread 1 reads the cell 0, and thread 2 exchanges it three times and retires the old nodes.
abbrev counted : State → State
counted s = record s { hp_count = s.hp_count + 1 }

solo-Reach : (r m : ℕ) (s : State) → Reach 1 s → Reach 1 (solo 1 r m s)
solo-Reach r zero s path = path
solo-Reach r (suc m) s path = solo-Reach r m (step 1 s r (s.pc r)) (later path (run r))

abbrev two_records : State
two_records = pushed (counted (pushed (counted init) 1)) 2

two_records-Reach : Reach 1 two_records
two_records-Reach =
    later (later (later (later start count) (push 1 refl refl)) count) (push 2 refl refl)

abbrev confirmed : State
confirmed = solo 1 1 3 (goto (replaced two_records 2 0) 1 (loading false 0 0))

confirmed-Reach : Reach 1 confirmed
confirmed-Reach = solo-Reach 1 3 (goto (replaced two_records 2 0) 1 (loading false 0 0)) (
    later (later two_records-Reach (replace 2 0 refl refl))
      (begin 1 false 0 0 refl refl (omega arith)))

abbrev twice : State
twice = solo 1 2 2 (replaced (solo 1 2 2 (replaced confirmed 2 0)) 2 0)

abbrev third : State
third = replaced twice 2 0

third-Reach : Reach 1 third
unfolding should_scan
third-Reach =
    later
      (solo-Reach 2 2 (replaced (solo 1 2 2 (replaced confirmed 2 0)) 2 0) (
        later
          (solo-Reach 2 2 (replaced confirmed 2 0) (later confirmed-Reach (replace 2 0 refl refl)))
          (replace 2 0 refl refl)))
      (replace 2 0 refl refl)

-- `scan` deletes the nodes 2 and 3, and keeps the confirmed 1.
scan_test : ((solo 1 2 10 third).retire_list 2 ≡ 1 ∷ []) × ((solo 1 2 10 third).freed ≡ 3 ∷ 2 ∷ [])
unfolding sweep should_scan
scan_test = (refl, refl)

held-undeleted_example :
    (((solo 1 2 10 third).pointers 1 0 == 0) ≡ false)
    × (occurrences ((solo 1 2 10 third).pointers 1 0) (solo 1 2 10 third).freed ≡ 0)
unfolding sweep should_scan
held-undeleted_example =
    held-undeleted 1 (solo 1 2 10 third) 1 0 (solo-Reach 2 10 third third-Reach) refl

deleted-once_example :
    (occurrences 3 ((solo 1 2 10 third).retire_list 1)
        + occurrences 3 ((solo 1 2 10 third).retire_list 2)
        + occurrences 3 (solo 1 2 10 third).freed
      ≤ 1)
    × ((c : ℕ)
        → (solo 1 2 10 third).cell c ≡ 3
        → (3 == 0) ≡ false
        → occurrences 3 ((solo 1 2 10 third).retire_list 1)
            + occurrences 3 ((solo 1 2 10 third).retire_list 2)
            + occurrences 3 (solo 1 2 10 third).freed
          ≡ 0)
deleted-once_example =
    deleted-once 1 (solo 1 2 10 third) 1 2 3 (solo-Reach 2 10 third third-Reach) refl

solo-retire_node_example :
    (m : ℕ) × ((solo 1 2 m third).pc 2 ≡ ready)
    × (view 1 (solo 1 2 m third) ≡ retire_node 1 2 3 (view 1 third))
solo-retire_node_example = solo-retire_node 1 third 2 3 refl (omega arith) (λ q. ground arith)

-- Thread 1 gives up its record, and thread 2 retires the node 3 and comes to the list of record 1.
abbrev left : State
left = goto (with_slot third 1 0 0 false) 1 ready

left-Reach : Reach 1 left
left-Reach = later third-Reach (clear 1 0 refl refl)

abbrev given_up : State
given_up = record left { active = update left.active 1 false; owned = update left.owned 1 false }

given_up-Reach : Reach 1 given_up
given_up-Reach = later left-Reach (release 1 refl refl (λ k less. ground (arith, less)))

list-locked_example :
    ((solo 1 2 9 given_up).active 1 ≡ true)
    × ((solo 1 2 9 given_up).owned 1 ≡ false)
    × (is_ready ((solo 1 2 9 given_up).pc 1) ≡ true)
    × ((r' : ℕ) → drains 1 ((solo 1 2 9 given_up).pc r') ≡ true → r' ≡ 2)
unfolding sweep should_scan
list-locked_example =
    list-locked 1 (solo 1 2 9 given_up) 1 2 (solo-Reach 2 9 given_up given_up-Reach) refl

-- Thread 1 has loaded the node 3, and thread 2 has two nodes to delete already.
abbrev loaded : Buffered
loaded = record {
  memory = record init {
    cell = λ c. if c == 0 then 3 else 0;
    next_node = 4;
    records = 2 ∷ 1 ∷ [];
    hp_count = 2;
    retire_list = λ q. if q == 2 then 1 ∷ 2 ∷ [] else [];
    pc = λ q. if q == 1 then announcing false 0 0 3 else ready;
    owned = λ q. (q == 1) || (q == 2);
  };
  buffer = λ _. none;
}

lost_store_example :
    (t : Buffered) × BufferedRun 1 loaded t
    × (t.memory.held 1 0 ≡ true)
    × (t.buffer 1 ≡ some (0, 3))
    × (1 ≤ occurrences 3 t.memory.freed)
unfolding should_scan
lost_store_example =
    lost_store 1 loaded 1 2 false 0 0 refl refl refl refl refl refl (λ _ _. refl) refl
