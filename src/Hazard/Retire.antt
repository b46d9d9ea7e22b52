-- ===== src/Hazard/Retire.antt =====
-- `retireNode` with its `scan` and `helpScan`: which nodes are deleted, and how long a retire list
-- can grow.
use ccmetrics.Base.{
  occurrences, ℕ, zero, suc, ◌+◌, ◌≤◌, ◌≡◌, refl, ap, ◌∙◌, not, ◌&&◌, List, [], ◌∷◌, ◌++◌, map,
  some, arith, ◌==◌, if◌then◌else◌, length, true, Bool-cases, inl, inr, get_elem?, ◌≢◌,
}
use mathlib.Core.List.{reverse}
use ccmetrics.Hazard.{
  HazardPointer, HazardPointers, Local, contains, live_of, live_nodes, scan, push_and_scan,
  should_scan, drain, help_records, modify, retire_list_of, scan_if_full, retire_node,
}
use ccmetrics.Base.{occurrences-append}
use ccmetrics.Hazard.Counting.{occurrences-reverse}
use ccmetrics.Hazard.Sweep.{Swept, sweep-Swept}

-- A hazard pointer of some record refers to the node `a`.
abbrev pub Protected : ℕ → List HazardPointer → Type 0
Protected a records =
    (i : ℕ) × (j : ℕ) × (hp : HazardPointer) × (get_elem? records i ≡ some hp)
    × (get_elem? hp.pointers j ≡ some a)
    × (a ≢ 0)

contains-append : (a : ℕ) (xs ys : List ℕ) → contains a xs ≡ true → contains a (xs ++ ys) ≡ true
unfolding contains
contains-append a [] ys h = ground arith
contains-append a (x ∷ xs) ys h = ground (arith, contains-append a xs ys)

contains-append_right :
    (a : ℕ) (xs ys : List ℕ) → contains a ys ≡ true → contains a (xs ++ ys) ≡ true
unfolding contains
contains-append_right a [] ys h = h
contains-append_right a (x ∷ xs) ys h = ground (arith, contains-append_right a xs ys h)

contains-live_of :
    (a : ℕ) (ps : List ℕ) (j : ℕ) → get_elem? ps j ≡ some a → a ≢ 0 → contains a (live_of ps) ≡ true
unfolding contains live_of
contains-live_of a [] j h n = ground arith
contains-live_of a (p ∷ ps) zero h n = ground arith
contains-live_of a (p ∷ ps) (suc j) h n = ground (arith, contains-live_of a ps j h n)

pub live-Protected :
    (a : ℕ) (records : List HazardPointer)
    → Protected a records
    → contains a (live_nodes records) ≡ true
unfolding live_nodes
live-Protected a [] (i, j, hp, e, f, n) = cc
live-Protected a (r ∷ records) (zero, j, hp, e, f, n) =
    contains-append a (live_of r.pointers) (live_nodes records)
      (contains-live_of a r.pointers j (ground arith) n)
live-Protected a (r ∷ records) (suc i, j, hp, e, f, n) =
    contains-append_right a (live_of r.pointers) (live_nodes records)
      (live-Protected a records (i, j, hp, e, f, n))

-- `scan` splits the retire list.
pub scan-Swept :
    (records : List HazardPointer) (l : Local) (a : ℕ)
    → Swept
        (live_nodes records)
        []
        l.retired
        l.freed
        ((scan records l).retired, (scan records l).freed)
        a
unfolding scan
scan-Swept records l a =
    sweep-Swept (length l.retired) (live_nodes records) [] l.retired l.freed a (omega arith)

-- How often `a` stands on the retire lists of the records other than `self`, and of all of them.
unfoldable pub others : ℕ → ℕ → List HazardPointer → ℕ
others a self [] = 0
others a self (hp ∷ rest) =
    (if hp.id == self then 0 else occurrences a hp.retire_list) + others a self rest

unfoldable pub retired_total : ℕ → List HazardPointer → ℕ
retired_total a [] = 0
retired_total a (hp ∷ rest) = occurrences a hp.retire_list + retired_total a rest

pub retired_total-nil : (a : ℕ) → retired_total a [] ≡ 0
unfolding retired_total
retired_total-nil a = refl

abbrev pub ids : List HazardPointer → List ℕ
ids = map (λ hp. hp.id)

-- The records other than `self`, and the one list of `self`, make up the total.
others-absent :
    (a self : ℕ) (rs : List HazardPointer)
    → occurrences self (ids rs) ≡ 0
    → others a self rs ≡ retired_total a rs
unfolding others retired_total
others-absent a self [] h = refl
others-absent a self (hp ∷ rest) h = ground (arith, others-absent a self rest)

pub others_self :
    (a self : ℕ) (rs : List HazardPointer)
    → occurrences self (ids rs) ≡ 1
    → others a self rs + occurrences a (retire_list_of self rs) ≡ retired_total a rs
unfolding others retired_total retire_list_of
others_self a self [] h = ground arith
others_self a self (hp ∷ rest) h =
    ground (arith, others_self a self rest, others-absent a self rest)

others-modify :
    (a self : ℕ) (r : List ℕ) (rs : List HazardPointer)
    → others a self (modify self (λ hp. record hp { retire_list = r }) rs) ≡ others a self rs
unfolding others modify
others-modify a self r [] = refl
others-modify a self r (hp ∷ rest) = ground (arith, others-modify a self r rest)

-- The same with the new list that `retireNode` stores in `self`.
total-modify-absent :
    (a self : ℕ) (r : List ℕ) (rs : List HazardPointer)
    → occurrences self (ids rs) ≡ 0
    → retired_total a (modify self (λ hp. record hp { retire_list = r }) rs) ≡ others a self rs
unfolding others modify retired_total
total-modify-absent a self r [] h = refl
total-modify-absent a self r (hp ∷ rest) h = ground (arith, total-modify-absent a self r rest)

total-modify :
    (a self : ℕ) (r : List ℕ) (rs : List HazardPointer)
    → occurrences self (ids rs) ≡ 1
    → retired_total a (modify self (λ hp. record hp { retire_list = r }) rs)
      ≡ others a self rs + occurrences a r
unfolding others modify retired_total
total-modify a self r [] h = ground arith
total-modify a self r (hp ∷ rest) h =
    ground (arith, total-modify a self r rest, total-modify-absent a self r rest)

-- From `l` to `l'` the node `a` came `n` times more onto the retire list or among the deleted, and
-- was not deleted if it is live; nothing deleted comes back.
pub record Moves (live : List ℕ) (a n : ℕ) (l l' : Local) : Type 0 where
  pub total :
      occurrences a l'.retired + occurrences a l'.freed
      ≡ occurrences a l.retired + occurrences a l.freed + n
  pub safe : contains a live ≡ true → occurrences a l'.freed ≡ occurrences a l.freed
  pub grows : occurrences a l.freed ≤ occurrences a l'.freed

module _ (k hp_count : ℕ) (records : List HazardPointer) (a : ℕ) where
  abbrev pub live : List ℕ
  live = live_nodes records

  pub scan-Moves : (l : Local) → Moves live a 0 l (scan records l)
  scan-Moves l =
      let (kept, freed) = scan-Swept records l a in
      record {
        total = ground (arith, kept, freed);
        safe = λ e. ground (arith, freed, e);
        grows = ground (arith, freed);
      }

  pub push_and_scan-Moves :
      (node : ℕ) (l : Local)
      → Moves live a (occurrences a (node ∷ [])) l (push_and_scan k hp_count records node l)
  unfolding push_and_scan
  push_and_scan-Moves node l =
      let pushed : Local = record l { retired = l.retired ++ node ∷ [] } in
      let scanned = scan-Moves pushed in
      elim (Bool-cases (should_scan k hp_count pushed)) [
        | inl e ↦ rw e (record {
          total = omega (arith, scanned.total, occurrences-append a l.retired (node ∷ []));
          safe = scanned.safe;
          grows = scanned.grows;
        })
        | inr e ↦ rw e (record {
          total = omega (arith, occurrences-append a l.retired (node ∷ []));
          safe = λ _. refl;
          grows = omega arith;
        })
      ]

  pub drain-Moves :
      (items : List ℕ) (l : Local)
      → Moves live a (occurrences a items) l (drain k hp_count records items l)
  unfolding drain
  drain-Moves [] l = record { total = omega arith; safe = λ e. refl; grows = omega arith }
  drain-Moves (node ∷ items) l =
      let first = push_and_scan-Moves node l in
      let rest = drain-Moves items (push_and_scan k hp_count records node l) in
      record {
        total = omega (arith, first.total, rest.total);
        safe = λ e. rest.safe e ∙ first.safe e;
        grows = omega (arith, first.grows, rest.grows);
      }

  pub help_records-Moves :
      (self : ℕ) (rs : List HazardPointer) (l : Local)
      → let (rs', l') = help_records k hp_count records self rs l in
        (occurrences a l'.retired + occurrences a l'.freed + others a self rs'
          ≡ occurrences a l.retired + occurrences a l.freed + others a self rs)
        × (contains a live ≡ true → occurrences a l'.freed ≡ occurrences a l.freed)
        × (map (λ hp. hp.id) rs' ≡ map (λ hp. hp.id) rs)
  unfolding help_records others
  help_records-Moves self [] l = (refl, λ _. refl, refl)
  help_records-Moves self (hp ∷ rest) l = elim (Bool-cases (not (hp.id == self) && not hp.active)) [
    | inl e ↦
        let items = reverse hp.retire_list in
        let moved = drain-Moves items l in
        let ih = help_records-Moves self rest (drain k hp_count records items l) in
        rw e (
          ground (arith, ih.0, moved.total, occurrences-reverse a hp.retire_list),
          λ c. ih.1 c ∙ moved.safe c,
          ap (◌∷◌ hp.id) ih.2,
        )
    | inr e ↦
        let ih = help_records-Moves self rest l in
        rw e (omega (arith, ih.0), ih.1, ap (◌∷◌ hp.id) ih.2)
  ]

pub scan_if_full-Moves :
    (k self : ℕ) (s : HazardPointers) (l : Local) (a : ℕ)
    → let (rs', l') = scan_if_full k self s l in
      (occurrences a l'.retired + occurrences a l'.freed + others a self rs'
        ≡ occurrences a l.retired + occurrences a l.freed + others a self s.records)
      × (Protected a s.records → occurrences a l'.freed ≡ occurrences a l.freed)
      × (ids rs' ≡ ids s.records)
unfolding scan_if_full
scan_if_full-Moves k self s l a = elim (Bool-cases (should_scan k s.hp_count l)) [
  | inl e ↦
      let scanned = scan-Moves k s.hp_count s.records a l in
      let help = help_records-Moves k s.hp_count s.records a self s.records (scan s.records l) in
      rw e (
        omega (arith, scanned.total, help.0),
        λ p. let c = live-Protected a s.records p in help.1 c ∙ scanned.safe c,
        help.2,
      )
  | inr e ↦ rw e (refl, λ _. refl, refl)
]

pub retire_node-Moves :
    (k self node : ℕ) (s : HazardPointers) (a : ℕ)
    → occurrences self (ids s.records) ≡ 1
    → let s' = retire_node k self node s in
      (retired_total a s'.records + occurrences a s'.freed
        ≡ retired_total a s.records + occurrences a s.freed + (if node == a then 1 else 0))
      × (Protected a s.records → occurrences a s'.freed ≡ occurrences a s.freed)
unfolding retire_node
retire_node-Moves k self node s a one =
    let old = retire_list_of self s.records in
    let pushed : Local = record { retired = old ++ node ∷ []; freed = s.freed } in
    let after = scan_if_full k self s pushed in
    let (total, safe, same) = scan_if_full-Moves k self s pushed a in
    (
      omega (
        arith,
        total,
        others_self a self s.records one,
        occurrences-append a old (node ∷ []),
        total-modify a self after.1.retired after.0 (ap (occurrences self) same ∙ one),
      ),
      safe,
    )

-- `retireNode` neither loses a node nor makes one up: over all retire lists and the deleted nodes
-- each address stands as often as before, and the retired one once more. The calling thread's
-- record is one of the list, once.
pub retire_node-total :
    (k self node : ℕ) (s : HazardPointers) (a : ℕ)
    → occurrences self (ids s.records) ≡ 1
    → retired_total a (retire_node k self node s).records
        + occurrences a (retire_node k self node s).freed
      ≡ retired_total a s.records + occurrences a s.freed + (if node == a then 1 else 0)
retire_node-total k self node s a one = (retire_node-Moves k self node s a one).0
