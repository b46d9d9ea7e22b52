-- ===== src/SkipList/Tests.antt =====
-- The theorems about the skip list at concrete inputs, with numbers as keys and values.
use ccmetrics.Base.{
  ℕ, suc, ◌+◌, ◌≤◌, ◌≡◌, refl, true, false, ◌&&◌, ◌||◌, List, [], ◌∷◌, ◌==◌, ltb, leb,
  if◌then◌else◌, occurrences, arith,
}
use ccmetrics.SkipList.{link, null, marked_null, SkipList, ok, out_of_fuel}
use ccmetrics.SkipList.Update.{mark_levels, exists, insert_found}
use ccmetrics.SkipList.Traverse.{new_map, values, destroy}
use ccmetrics.SkipList.Shape.{Leads, IsMap, entries_of}
use ccmetrics.SkipList.Refines.{Refines}
use ccmetrics.SkipList.Interrupted.{exists-mark_levels}
use ccmetrics.SkipList.Search.{FindResult}
use ccmetrics.SkipList.Stale.{insert_found-stale}
use ccmetrics.SkipList.Stuck.{values-mark_levels}
use ccmetrics.SkipList.Sequence.{
  Op, insert_op, erase_op, find_op, run_ops, abstract_ops, new_map-Refines, index-new_map,
  destroy-new_map,
}
use ccmetrics.SkipMap

abbrev calls : List (Op ℕ ℕ)
calls = insert_op 0 5 50 ∷ insert_op 2 3 30 ∷ erase_op 5 ∷ find_op 3 ∷ []

new_map-Refines_example :
    Refines (run_ops ltb 0 5 calls (new_map 0 0)) (abstract_ops ltb 0 calls []) 4
new_map-Refines_example = new_map-Refines ltb 0 4 calls 0 (omega arith)

index-new_map_example :
    (s : SkipList ℕ ℕ) × (cs : List ℕ) × (run_ops ltb 0 5 calls (new_map 0 0)
      ≡ ok (abstract_ops ltb 0 calls []).1 s)
    × Leads s s.head cs null
    × ((i : ℕ) → s.next s.head (suc i) ≡ marked_null)
    × ((x : ℕ) → 1 ≤ occurrences x cs → s.link_count x ≡ 1)
index-new_map_example = index-new_map ltb 0 4 calls 0 (omega arith)

destroy-new_map_example :
    (s s' : SkipList ℕ ℕ) × (run_ops ltb 0 5 calls (new_map 0 0)
      ≡ ok (abstract_ops ltb 0 calls []).1 s)
    × (destroy 6 s ≡ ok tt s')
    × ((x : ℕ)
        → occurrences x s'.freed + occurrences x s'.retired
          ≡ (if leb 1 x && ltb x s.next_address then 1 else 0))
destroy-new_map_example = destroy-new_map ltb 0 4 calls 0 (omega arith)

-- The nodes 2 and 3 behind the head, with the keys 3 and 5.
abbrev two_nodes : SkipList ℕ ℕ
two_nodes = record {
  head = 1;
  height = 0;
  key = λ a. if a == 2 then 3 else if a == 3 then 5 else 0;
  val = λ a. if a == 2 then 30 else if a == 3 then 50 else 0;
  node_height = λ a. if a == 1 then 12 else if (a == 2) || (a == 3) then 1 else 0;
  link_count = λ a. if (a == 2) || (a == 3) then 1 else 0;
  next = λ a i.
      if i == 0 then (if a == 1 then link 2 else if a == 2 then link 3 else null) else marked_null;
  hazard = λ _. null;
  next_address = 4;
  retired = [];
  freed = [];
}

two_nodes-IsMap : IsMap two_nodes (2 ∷ 3 ∷ [])
two_nodes-IsMap = record {
  path = (refl, (refl, refl));
  once = λ x. ground arith;
  alive = (refl, (refl, (refl, tt)));
  named = λ x above. ground (arith, above);
  owned = λ x. ground arith;
  linked = λ x inside. ground (arith, inside);
  low = omega arith;
  tall = refl;
  bare = λ i. ground arith;
}

exists-mark_levels_example :
    (s1 s2 s3 : SkipList ℕ ℕ) × (mark_levels 1 2 two_nodes ≡ ok true s1)
    × (exists ltb 4 5 s1 ≡ ok false s2)
    × IsMap s2 (3 ∷ [])
    × (exists ltb 4 5 s2 ≡ ok (SkipMap.exists ltb 5 (entries_of two_nodes (3 ∷ []))) s3)
exists-mark_levels_example =
    exists-mark_levels ltb 3 5 two_nodes [] 2 (3 ∷ []) two_nodes-IsMap tt (omega arith)

values-mark_levels_example :
    (s1 : SkipList ℕ ℕ) × (mark_levels 1 2 two_nodes ≡ ok true s1)
    × ((fuel : ℕ) → values fuel s1 ≡ out_of_fuel)
values-mark_levels_example = values-mark_levels two_nodes [] 2 (3 ∷ []) two_nodes-IsMap

-- The search of an insertion of 5 that ended before the node 3 was there.
abbrev stale_search : FindResult
stale_search = record { prev = 2; cur = null; next = null; match = false }

insert_found-stale_example :
    (s : SkipList ℕ ℕ) × (insert_found ltb 3 5 99 0 0 stale_search two_nodes ≡ ok false s)
    × IsMap s (2 ∷ 3 ∷ [])
    × (entries_of s (2 ∷ 3 ∷ []) ≡ entries_of two_nodes (2 ∷ 3 ∷ []))
    × (s.freed ≡ 4 ∷ [])
insert_found-stale_example =
    insert_found-stale ltb 1 5 99 0 0 stale_search two_nodes (2 ∷ []) (3 ∷ []) two_nodes-IsMap
      (refl, tt) refl refl (omega arith) refl refl (omega arith) refl
