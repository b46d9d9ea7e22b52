-- ===== src/Hazard.antt =====
-- src/hazard_pointers.h: hazard pointer records, the retire lists, `scan` and `helpScan`, one
-- operation at a time. A node is its address, and 0 is nullptr.
pub mod Counting
pub mod Sweep
pub mod Retire
pub mod Bound
pub mod Allocate
pub mod Protect
pub mod Destroy
pub mod Concurrent
mod Tests
use ccmetrics.Base.{
  ℕ, zero, suc, ◌+◌, ◌*◌, Bool, true, false, not, ◌&&◌, ◌||◌, List, [], ◌∷◌, ◌++◌, map, Option,
  none, some, ◌==◌, leb, if◌then◌else◌, length, set, replicate,
}
use mathlib.Core.List.{reverse}

-- `HazardPointer<T, K>`. `id` is the record's address, and `next_` is its place in `records` below.
pub record HazardPointer : Type 0 where
  pub id : ℕ
  pub pointers : List ℕ
  pub active : Bool
  pub retire_list : List ℕ

-- `HazardPointers<T, K>` and the part of the heap that it deletes from: `records` is the list at
-- `head_`, `freed` the nodes deleted so far, the latest first.
pub record HazardPointers : Type 0 where
  pub records : List HazardPointer
  pub hp_count : ℕ
  pub freed : List ℕ

-- The constructor of `HazardPointers`.
abbrev pub no_hazards : HazardPointers
no_hazards = record { records = []; hp_count = 0; freed = [] }

-- `hp = hp->next_`: the result of the walk behind `hp`, as a result for the list that begins there.
pub behind : HazardPointer → Option (ℕ × List HazardPointer) → Option (ℕ × List HazardPointer)
behind hp none = none
behind hp (some (i, rest)) = some (i, hp ∷ rest)

-- The loop of `allocate`: the first inactive record is taken.
pub claim_inactive : List HazardPointer → Option (ℕ × List HazardPointer)
unfolding behind
claim_inactive [] = none
claim_inactive (hp ∷ rest) =
    if hp.active
    then behind hp (claim_inactive rest)
    else some (hp.id, record hp { active = true } ∷ rest)

-- A new record at the address `fresh`, which is active and is pushed at `head_`.
pub push_record : (k fresh : ℕ) → HazardPointers → HazardPointers
push_record k fresh s = record s {
  records =
      record { id = fresh; pointers = replicate k 0; active = true; retire_list = [] } ∷ s.records;
  hp_count = s.hp_count + 1;
}

-- The record that the walk found, or a new one.
pub claimed_or_new :
    (k fresh : ℕ) → HazardPointers → Option (ℕ × List HazardPointer) → ℕ × HazardPointers
unfolding push_record
claimed_or_new k fresh s none = (fresh, push_record k fresh s)
claimed_or_new k fresh s (some (i, records)) = (i, record s { records = records })

-- `allocate`; `fresh` is the address that `new` returns if no record can be reused.
pub allocate : (k fresh : ℕ) → HazardPointers → ℕ × HazardPointers
unfolding claim_inactive claimed_or_new
allocate k fresh s = claimed_or_new k fresh s (claim_inactive s.records)

-- An update of the record with address `i`.
pub modify : ℕ → (HazardPointer → HazardPointer) → List HazardPointer → List HazardPointer
modify i f [] = []
modify i f (hp ∷ rest) = (if hp.id == i then f hp else hp) ∷ modify i f rest

-- `HazardPointers::retire`: the references are cleared and the record may be reused.
pub retire : (k i : ℕ) → HazardPointers → HazardPointers
unfolding modify
retire k i s = record s {
  records = modify i (λ hp. record hp { pointers = replicate k 0; active = false }) s.records;
}

-- `setHazard` and `clearHazard`, on the record.
pub set_hazard : ℕ → ℕ → HazardPointer → HazardPointer
set_hazard k value hp = record hp { pointers = set hp.pointers k value }

pub clear_hazard : ℕ → HazardPointer → HazardPointer
unfolding set_hazard
clear_hazard k hp = set_hazard k 0 hp

-- `loadAndSetHazard`. `reads` are the values that the loads of the atomic return, two for each
-- round, as other threads write it; `none` when they are used up.
pub load_and_set_hazard : List ℕ → ℕ → HazardPointer → Option (ℕ × HazardPointer)
unfolding set_hazard
load_and_set_hazard (cur ∷ again ∷ reads) k hp =
    let next = load_and_set_hazard reads k (set_hazard k cur hp) in
    if cur == again then some (cur, set_hazard k cur hp) else next
load_and_set_hazard _ k hp = none

-- `loadAndSetHazardOrFail`: one round, and the hazard is cleared on failure.
pub load_and_set_hazard_or_fail : (cur again : ℕ) → ℕ → HazardPointer → Option ℕ × HazardPointer
unfolding set_hazard clear_hazard
load_and_set_hazard_or_fail cur again k hp =
    if cur == again
    then (some cur, set_hazard k cur hp)
    else (none, clear_hazard k (set_hazard k cur hp))

-- Membership, for `live.find(*iter) != live.end()`.
pub contains : ℕ → List ℕ → Bool
contains a [] = false
contains a (x ∷ xs) = (x == a) || contains a xs

-- The non-null pointers of one record.
pub live_of : List ℕ → List ℕ
live_of [] = []
live_of (p ∷ ps) = if p == 0 then live_of ps else p ∷ live_of ps

-- Phase 1 of `scan`: all live hazard pointers. (The code keeps them in a set.)
pub live_nodes : List HazardPointer → List ℕ
unfolding live_of
live_nodes [] = []
live_nodes (hp ∷ rest) = live_of hp.pointers ++ live_nodes rest

-- `std::swap(*iter, v.back()); v.pop_back()`, where `rest` stands behind `iter`: what `iter` points
-- into afterwards. The last element takes the place of the deleted one.
pub swap_pop : List ℕ → List ℕ
swap_pop [] = []
swap_pop (x ∷ []) = x ∷ []
swap_pop (x ∷ y ∷ rest) = elim (swap_pop (y ∷ rest)) [ [] ↦ [] | l ∷ init ↦ l ∷ x ∷ init ]

-- Phase 2 of `scan`. The vector is `kept ++ at`, and `iter` points to the head of `at`. The result
-- is the vector and the deleted nodes. The fuel is the length of `at`, which falls in each round.
pub sweep : ℕ → (live kept at freed : List ℕ) → List ℕ × List ℕ
unfolding contains swap_pop
sweep zero live kept at freed = (kept ++ at, freed)
sweep (suc fuel) live kept [] freed = (kept, freed)
sweep (suc fuel) live kept (x ∷ rest) freed =
    let keep = sweep fuel live (kept ++ x ∷ []) rest freed in
    let drop = sweep fuel live kept (swap_pop rest) (x ∷ freed) in
    if contains x live then keep else drop

-- The two lists that `retireNode`, `scan` and `helpScan` change for their own record.
pub record Local : Type 0 where
  pub retired : List ℕ
  pub freed : List ℕ

-- `scan` by a thread whose retire list is `l.retired`.
pub scan : List HazardPointer → Local → Local
unfolding sweep live_nodes
scan records l =
    let r = sweep (length l.retired) (live_nodes records) [] l.retired l.freed in
    record { retired = r.0; freed = r.1 }

-- `shouldScan`: size >= hp_count * K * (1 + 0.25), multiplied by 4.
pub should_scan : (k hp_count : ℕ) → Local → Bool
should_scan k hp_count l = leb (5 * (hp_count * k)) (4 * length l.retired)

-- Push a node on the own retire list, and scan if the list is long.
pub push_and_scan : (k hp_count : ℕ) → List HazardPointer → ℕ → Local → Local
unfolding should_scan scan
push_and_scan k hp_count records node l =
    let l' = record l { retired = l.retired ++ node ∷ [] } in
    if should_scan k hp_count l' then scan records l' else l'

-- The `while` loop of `helpScan`: `items` is the other record's retire list, the back first.
pub drain : (k hp_count : ℕ) → List HazardPointer → List ℕ → Local → Local
unfolding push_and_scan
drain k hp_count records [] l = l
drain k hp_count records (node ∷ items) l =
    drain k hp_count records items (push_and_scan k hp_count records node l)

-- The loop of `helpScan` over the records, by the thread of record `self`. `records` is the whole
-- list, for `scan`; no pointer in it changes during the walk.
pub help_records :
    (k hp_count : ℕ)
    → List HazardPointer
    → ℕ
    → List HazardPointer
    → Local
    → List HazardPointer × Local
unfolding drain
help_records k hp_count records self [] l = ([], l)
help_records k hp_count records self (hp ∷ rest) l =
    let help = not (hp.id == self) && not hp.active in
    let l' = if help then drain k hp_count records (reverse hp.retire_list) l else l in
    let hp' = if help then record hp { retire_list = [] } else hp in
    let (rest', l'') = help_records k hp_count records self rest l' in (hp' ∷ rest', l'')

-- The retire list of the record `i`.
pub retire_list_of : ℕ → List HazardPointer → List ℕ
retire_list_of i [] = []
retire_list_of i (hp ∷ rest) = if hp.id == i then hp.retire_list else retire_list_of i rest

-- The test of `retireNode` and what follows it: `scan` and then `helpScan`.
pub scan_if_full : (k self : ℕ) → HazardPointers → Local → List HazardPointer × Local
unfolding should_scan scan help_records
scan_if_full k self s l =
    if should_scan k s.hp_count l
    then help_records k s.hp_count s.records self s.records (scan s.records l)
    else (s.records, l)

-- `retireNode(node)` by the thread of record `self`.
pub retire_node : (k self node : ℕ) → HazardPointers → HazardPointers
unfolding modify retire_list_of scan_if_full
retire_node k self node s =
    let r =
      scan_if_full k self s
        (record { retired = retire_list_of self s.records ++ node ∷ []; freed = s.freed }) in
    record s {
      records = modify self (λ hp. record hp { retire_list = r.1.retired }) r.0;
      freed = r.1.freed;
    }

-- `~HazardPointers`: the record at `head_` adopts and scans, and then every record is deleted, with
-- what is left on its retire list.
pub destroy : ℕ → HazardPointers → HazardPointers
unfolding help_records scan
destroy k s = elim s.records [
  | [] ↦ s
  | head ∷ rest ↦
      let r =
        help_records k s.hp_count s.records head.id s.records
          (record { retired = head.retire_list; freed = s.freed }) in
      record s { records = []; freed = (scan s.records r.1).freed }
]
