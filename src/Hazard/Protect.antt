-- ===== src/Hazard/Protect.antt =====
-- `loadAndSetHazard`, and retirements while a hazard pointer refers to a node.
use ccmetrics.Base.{
  occurrences, ℕ, zero, suc, ◌≡◌, ◌⊎◌, ◌<◌, refl, ap, ◌∙◌, List, [], ◌∷◌, map, some, arith, ◌==◌,
  length, Bool-cases, inl, inr, get_elem?, set, not, ◌&&◌,
}
use mathlib.Core.List.{reverse}
use ccmetrics.Hazard.{
  HazardPointer, HazardPointers, Local, load_and_set_hazard, set_hazard, modify, help_records,
  drain, scan_if_full, retire_node, scan, should_scan,
}
use ccmetrics.Hazard.Retire.{ids, Protected, retire_node-Moves, scan_if_full-Moves}
use ccmetrics.Hazard.Allocate.{modify-ids}

-- `v` was read twice in a row.
abbrev pub ReadTwice : ℕ → List ℕ → Type 0
ReadTwice v [] = ⊥
ReadTwice v (x ∷ []) = ⊥
ReadTwice v (x ∷ y ∷ reads) = ((x ≡ v) × (y ≡ v)) ⊎ ReadTwice v reads

get_elem?-set : (xs : List ℕ) (k v : ℕ) → k < length xs → get_elem? (set xs k v) k ≡ some v
get_elem?-set [] k v h = absurd (omega arith)
get_elem?-set (x ∷ xs) zero v h = refl
get_elem?-set (x ∷ xs) (suc k) v h = get_elem?-set xs k v (omega arith)

length-set : (xs : List ℕ) (k v : ℕ) → length (set xs k v) ≡ length xs
length-set [] k v = refl
length-set (x ∷ xs) zero v = refl
length-set (x ∷ xs) (suc k) v = ap suc (length-set xs k v)

-- `loadAndSetHazard` returns a value that it read twice in a row, the second time after it had
-- stored it in slot k of the record, where it still stands. Slot k is one of the record's.
pub load_and_set_hazard_lem :
    (reads : List ℕ) (k : ℕ) (hp : HazardPointer) {v : ℕ} {hp' : HazardPointer}
    → k < length hp.pointers
    → load_and_set_hazard reads k hp ≡ some (v, hp')
    → (get_elem? hp'.pointers k ≡ some v) × ReadTwice v reads × (hp'.id ≡ hp.id)
unfolding load_and_set_hazard set_hazard
load_and_set_hazard_lem [] k hp h e = cc
load_and_set_hazard_lem (x ∷ []) k hp h e = cc
load_and_set_hazard_lem (x ∷ y ∷ reads) k hp h e = elim (Bool-cases (x == y)) [
  | inl same ↦ ground (arith, same, e, get_elem?-set hp.pointers k x h)
  | inr apart ↦
      let (held, read, id) =
        load_and_set_hazard_lem reads k (set_hazard k x hp)
          (omega (arith, length-set hp.pointers k x, h)) (rw apart at e) in
      (held, inr read, id)
]

-- The pointers of all records, which `retireNode` does not touch.
abbrev table : List HazardPointer → List (List ℕ)
table = map (λ hp. hp.pointers)

help_records-table :
    (k n : ℕ) (records : List HazardPointer) (self : ℕ) (rs : List HazardPointer) (l : Local)
    → table (help_records k n records self rs l).0 ≡ table rs
unfolding help_records
help_records-table k n records self [] l = refl
help_records-table k n records self (hp ∷ rest) l =
    elim (Bool-cases (not (hp.id == self) && not hp.active)) [
      | inl e ↦ simp e (
          ap (◌∷◌ hp.pointers) (
            help_records-table k n records self rest
              (drain k n records (reverse hp.retire_list) l)))
      | inr e ↦ simp e (ap (◌∷◌ hp.pointers) (help_records-table k n records self rest l))
    ]

modify-table :
    (i : ℕ) (r : List ℕ) (rs : List HazardPointer)
    → table (modify i (λ hp. record hp { retire_list = r }) rs) ≡ table rs
unfolding modify
modify-table i r [] = refl
modify-table i r (hp ∷ rest) = ground (arith, modify-table i r rest)

scan_if_full-table :
    (k self : ℕ) (s : HazardPointers) (l : Local)
    → table (scan_if_full k self s l).0 ≡ table s.records
unfolding scan_if_full
scan_if_full-table k self s l = elim (Bool-cases (should_scan k s.hp_count l)) [
  | inl e ↦ rw e (help_records-table k s.hp_count s.records self s.records (scan s.records l))
  | inr e ↦ rw e
]

retire_node-table :
    (k self node : ℕ) (s : HazardPointers)
    → table (retire_node k self node s).records ≡ table s.records
unfolding retire_node
retire_node-table k self node s = modify-table self _ _ ∙ scan_if_full-table k self s _

retire_node-ids :
    (k self node : ℕ) (s : HazardPointers) → ids (retire_node k self node s).records ≡ ids s.records
unfolding retire_node
retire_node-ids k self node s =
    modify-ids self _ _ (λ hp. refl) ∙ (scan_if_full-Moves k self s _ 0).2

-- A record of the table, by its place.
get_elem?-table :
    (rs : List HazardPointer) (i : ℕ) {hp : HazardPointer}
    → get_elem? rs i ≡ some hp
    → get_elem? (table rs) i ≡ some hp.pointers
get_elem?-table [] i e = cc
get_elem?-table (r ∷ rs) zero e = ground arith
get_elem?-table (r ∷ rs) (suc i) e = get_elem?-table rs i e

of_table :
    (rs : List HazardPointer) (i : ℕ) {ps : List ℕ}
    → get_elem? (table rs) i ≡ some ps
    → (hp : HazardPointer) × (get_elem? rs i ≡ some hp) × (hp.pointers ≡ ps)
of_table [] i e = cc
of_table (r ∷ rs) zero e = (r, refl, ground arith)
of_table (r ∷ rs) (suc i) e = of_table rs i e

Protected-table :
    (a : ℕ) (rs rs' : List HazardPointer) → table rs' ≡ table rs → Protected a rs → Protected a rs'
Protected-table a rs rs' same (i, j, hp, at, held, n) =
    let (hp', at', same') =
      of_table rs' i (ap (λ t. get_elem? t i) same ∙ get_elem?-table rs i at) in
    (i, j, hp', at', rw same' held, n)

-- A history of retirements: who retires, and which node.
pub retire_nodes : ℕ → List (ℕ × ℕ) → HazardPointers → HazardPointers
retire_nodes k [] s = s
retire_nodes k ((self, node) ∷ rest) s = retire_nodes k rest (retire_node k self node s)

abbrev pub Registered : List HazardPointer → List (ℕ × ℕ) → Type 0
Registered rs [] = Unit {0}
Registered rs ((self, node) ∷ rest) = (occurrences self (ids rs) ≡ 1) × Registered rs rest

Registered-ids :
    (rs rs' : List HazardPointer) (rest : List (ℕ × ℕ))
    → ids rs' ≡ ids rs
    → Registered rs rest
    → Registered rs' rest
Registered-ids rs rs' [] same r = tt
Registered-ids rs rs' ((self, node) ∷ rest) same (one, r) =
    (rw same one, Registered-ids rs rs' rest same r)

-- However many nodes are retired, by whichever threads, a node that a hazard pointer refers to is
-- not deleted, and the hazard pointer still refers to it. Each retiring thread's record is one of
-- the list, once.
pub retire_nodes-Protected :
    (k a : ℕ) (history : List (ℕ × ℕ)) (s : HazardPointers)
    → Registered s.records history
    → Protected a s.records
    → (occurrences a (retire_nodes k history s).freed ≡ occurrences a s.freed)
      × Protected a (retire_nodes k history s).records
unfolding retire_nodes
retire_nodes-Protected k a [] s r p = (refl, p)
retire_nodes-Protected k a ((self, node) ∷ rest) s (one, r) p =
    let s' = retire_node k self node s in
    let (kept, still) =
      retire_nodes-Protected k a rest s'
        (Registered-ids s.records s'.records rest (retire_node-ids k self node s) r)
        (Protected-table a s.records s'.records (retire_node-table k self node s) p) in
    (kept ∙ (retire_node-Moves k self node s a one).1 p, still)
