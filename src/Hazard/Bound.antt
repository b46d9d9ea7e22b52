-- ===== src/Hazard/Bound.antt =====
-- The length of the retire list that `retireNode` leaves.
use ccmetrics.Base.{
  occurrences, ℕ, suc, ◌+◌, ◌*◌, ◌≤◌, ◌<◌, ◌≡◌, refl, ap, List, [], ◌∷◌, ◌++◌, arith, ◌==◌,
  if◌then◌else◌, length, true, not, ◌&&◌, false, Bool-cases, inl, inr, length-append,
}
use mathlib.Core.List.{reverse}
use ccmetrics.Hazard.{
  HazardPointer, HazardPointers, Local, contains, live_of, live_nodes, scan, push_and_scan,
  should_scan, drain, help_records, modify, retire_list_of, retire_node, scan_if_full,
}
use ccmetrics.Base.{occurrences-append}
use ccmetrics.Hazard.Counting.{occurrences-reverse}
use ccmetrics.Hazard.Retire.{
  scan-Swept, scan-Moves, push_and_scan-Moves, drain-Moves, scan_if_full-Moves, others, others_self,
  retired_total, ids,
}

-- Pigeonholes: a list that has nothing more often than another is no longer.
drop_one : ℕ → List ℕ → List ℕ
drop_one x [] = []
drop_one x (y ∷ ys) = if y == x then ys else y ∷ drop_one x ys

occurrences-drop_one :
    (a x : ℕ) (ys : List ℕ)
    → 0 < occurrences x ys
    → occurrences a ys ≡ occurrences a (drop_one x ys) + (if x == a then 1 else 0)
unfolding drop_one
occurrences-drop_one a x [] h = absurd (omega arith)
occurrences-drop_one a x (y ∷ ys) h = ground (arith, occurrences-drop_one a x ys)

length-drop_one :
    (x : ℕ) (ys : List ℕ) → 0 < occurrences x ys → length ys ≡ suc (length (drop_one x ys))
unfolding drop_one
length-drop_one x [] h = absurd (omega arith)
length-drop_one x (y ∷ ys) h = ground (arith, length-drop_one x ys)

length-le_of_count :
    (xs ys : List ℕ) → ((a : ℕ) → occurrences a xs ≤ occurrences a ys) → length xs ≤ length ys
length-le_of_count [] ys h = omega arith
length-le_of_count (x ∷ xs) ys h =
    let here : 0 < occurrences x ys = ground (arith, h x) in
    omega (
      arith,
      length-drop_one x ys here,
      length-le_of_count xs (drop_one x ys)
          (λ a. ground (arith, h a, occurrences-drop_one a x ys here)),
    )

count_contains : (a : ℕ) (xs : List ℕ) → contains a xs ≡ true → 0 < occurrences a xs
unfolding contains
count_contains a [] h = ground arith
count_contains a (x ∷ xs) h = ground (arith, count_contains a xs)

-- Every record has `k` pointers.
abbrev pub HasPointers : ℕ → List HazardPointer → Type 0
HasPointers k [] = Unit {0}
HasPointers k (hp ∷ rest) = (length hp.pointers ≡ k) × HasPointers k rest

length-live_of : (ps : List ℕ) → length (live_of ps) ≤ length ps
unfolding live_of
length-live_of [] = omega arith
length-live_of (p ∷ ps) = ground (arith, length-live_of ps)

length-live_nodes :
    (k : ℕ) (rs : List HazardPointer) → HasPointers k rs → length (live_nodes rs) ≤ length rs * k
unfolding live_nodes
length-live_nodes k [] h = omega arith
length-live_nodes k (hp ∷ rest) h = omega (
  arith,
  length-append (live_of hp.pointers) (live_nodes rest),
  length-live_of hp.pointers,
  length-live_nodes k rest h.1,
)

-- What the bound is about: `k` pointers in each of `hp_count` records, and a list without twins.
abbrev pub Fits : ℕ → ℕ → Local → Type 0
Fits k n l = 4 * length l.retired < 5 * (n * k)

should_scan-Fits : (k n : ℕ) (l : Local) → should_scan k n l ≡ false → Fits k n l
unfolding should_scan
should_scan-Fits k n l e = ground arith

module _ (k : ℕ) (records : List HazardPointer) (wide : HasPointers k records)
    (pos : 0 < length records * k) where
  abbrev n : ℕ
  n = length records

  scan-Fits : (l : Local) → ((a : ℕ) → occurrences a l.retired ≤ 1) → Fits k n (scan records l)
  scan-Fits l once =
      let shorter = length-le_of_count (scan records l).retired (live_nodes records) λ a.
        let (kept, freed) = scan-Swept records l a in
        ground (arith, kept, once a, count_contains a (live_nodes records)) in
      omega (arith, shorter, length-live_nodes k records wide, pos)

  push_and_scan-Fits :
      (node : ℕ) (l : Local)
      → ((a : ℕ) → occurrences a (node ∷ []) + occurrences a l.retired ≤ 1)
      → Fits k n (push_and_scan k n records node l)
  unfolding push_and_scan
  push_and_scan-Fits node l once =
      let pushed : Local = record l { retired = l.retired ++ node ∷ [] } in
      elim (Bool-cases (should_scan k n pushed)) [
        | inl e ↦ rw e (
            scan-Fits pushed
              (λ a. omega (arith, once a, occurrences-append a l.retired (node ∷ []))))
        | inr e ↦ rw e (should_scan-Fits k n pushed e)
      ]

  drain-Fits :
      (items : List ℕ) (l : Local)
      → ((a : ℕ) → occurrences a items + occurrences a l.retired ≤ 1)
      → Fits k n l
      → Fits k n (drain k n records items l)
  unfolding drain
  drain-Fits [] l once fit = fit
  drain-Fits (node ∷ items) l once fit =
      drain-Fits items (push_and_scan k n records node l)
        (λ a.
          let m = push_and_scan-Moves k n records a node l in
          omega (arith, m.total, m.grows, once a))
        (push_and_scan-Fits node l (λ a. omega (arith, once a)))

  help_records-Fits :
      (self : ℕ) (rs : List HazardPointer) (l : Local)
      → ((a : ℕ) → others a self rs + occurrences a l.retired ≤ 1)
      → Fits k n l
      → Fits k n (help_records k n records self rs l).1
  unfolding help_records others
  help_records-Fits self [] l once fit = fit
  help_records-Fits self (hp ∷ rest) l once fit =
      elim (Bool-cases (not (hp.id == self) && not hp.active)) [
        | inl e ↦
            let items = reverse hp.retire_list in
            let apart : (hp.id == self) ≡ false = ground (arith, e) in
            let mine : (a : ℕ)
                → occurrences a items + others a self rest + occurrences a l.retired ≤ 1 =
              λ a. ground (arith, apart, once a, occurrences-reverse a hp.retire_list) in
            rw e (
              help_records-Fits self rest (drain k n records items l)
                (λ a.
                  let m = drain-Moves k n records a items l in
                  omega (arith, m.total, m.grows, mine a))
                (drain-Fits items l (λ a. omega (arith, mine a)) fit))
        | inr e ↦ rw e (help_records-Fits self rest l (λ a. omega (arith, once a)) fit)
      ]

  scan_if_full-Fits :
      (self : ℕ) (s : HazardPointers) (l : Local)
      → s.records ≡ records
      → s.hp_count ≡ n
      → ((a : ℕ) → others a self records + occurrences a l.retired ≤ 1)
      → Fits k n (scan_if_full k self s l).1
  unfolding scan_if_full
  scan_if_full-Fits self s l same counted once =
      rw (same, counted)
        (elim (Bool-cases (should_scan k n l)) [
          | inl e ↦ rw e (
              help_records-Fits self records (scan records l)
                (λ a. let m = scan-Moves k n records a l in omega (arith, m.total, m.grows, once a))
                (scan-Fits l (λ a. omega (arith, once a))))
          | inr e ↦ rw e (should_scan-Fits k n l e)
        ])

retire_list_of-modify :
    (self : ℕ) (r : List ℕ) (rs : List HazardPointer)
    → 0 < occurrences self (ids rs)
    → retire_list_of self (modify self (λ hp. record hp { retire_list = r }) rs) ≡ r
unfolding retire_list_of modify
retire_list_of-modify self r [] h = absurd (omega arith)
retire_list_of-modify self r (hp ∷ rest) h = ground (arith, retire_list_of-modify self r rest)

nonempty-ids : (self : ℕ) (rs : List HazardPointer) → occurrences self (ids rs) ≡ 1 → 0 < length rs
nonempty-ids self [] h = absurd (omega arith)
nonempty-ids self (hp ∷ rest) h = omega arith

mul_pos : (a b : ℕ) → 0 < a → 0 < b → 0 < a * b
mul_pos a b h k = grind arith

-- After `retireNode` the caller's retire list is shorter than 5/4 of the number of all hazard
-- pointers, hp_count * k, whatever it adopted from inactive records. The caller's record is one of
-- the list, once; each record has k pointers, k > 0, and hp_count counts the records; no node was
-- retired twice.
pub retire_node-Fits :
    (k self node : ℕ) (s : HazardPointers)
    → occurrences self (ids s.records) ≡ 1
    → HasPointers k s.records
    → 0 < k
    → s.hp_count ≡ length s.records
    → ((a : ℕ) → retired_total a s.records + (if node == a then 1 else 0) ≤ 1)
    → 4 * length (retire_list_of self (retire_node k self node s).records) < 5 * (s.hp_count * k)
unfolding retire_node
retire_node-Fits k self node s one wide pos counted once =
    let old = retire_list_of self s.records in
    let pushed : Local = record { retired = old ++ node ∷ []; freed = s.freed } in
    let after = scan_if_full k self s pushed in
    let (_, _, same) = scan_if_full-Moves k self s pushed 0 in
    let here : 0 < occurrences self (ids after.0) = rw same (omega arith) in
    let fit =
      scan_if_full-Fits k s.records wide
        (mul_pos (length s.records) k (nonempty-ids self s.records one) pos) self s pushed refl
        counted
        (λ a. omega (
          arith,
          once a,
          others_self a self s.records one,
          occurrences-append a old (node ∷ []),
        )) in
    omega (
      arith,
      fit,
      ap length (retire_list_of-modify self after.1.retired after.0 here),
      ap (λ (c : ℕ). c * k) counted,
    )
