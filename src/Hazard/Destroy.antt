-- ===== src/Hazard/Destroy.antt =====
-- The destructor of `HazardPointers`, once all threads have given up their records.
use ccmetrics.Base.{
  occurrences, ℕ, zero, suc, ◌+◌, ◌≡◌, ◌⊎◌, refl, ap, List, [], ◌∷◌, arith, ◌==◌, false, Bool-cases,
  inl, inr, replicate,
}
use mathlib.Core.List.{reverse}
use ccmetrics.Hazard.{
  HazardPointer, HazardPointers, Local, contains, live_of, live_nodes, drain, retire_list_of,
  help_records, destroy, scan,
}
use ccmetrics.Hazard.Retire.{
  retired_total, retired_total-nil, others, others_self, ids, scan-Swept, help_records-Moves,
}

-- What `retire` leaves behind: an inactive record with no references.
abbrev pub AllRetired : ℕ → List HazardPointer → Type 0
AllRetired k [] = Unit {0}
AllRetired k (hp ∷ rest) = (hp.active ≡ false) × (hp.pointers ≡ replicate k 0) × AllRetired k rest

live_of-replicate : (k : ℕ) → live_of (replicate k 0) ≡ []
unfolding live_of
live_of-replicate zero = refl
live_of-replicate (suc k) = ground (arith, live_of-replicate k)

live_nodes-AllRetired : (k : ℕ) (rs : List HazardPointer) → AllRetired k rs → live_nodes rs ≡ []
unfolding live_nodes
live_nodes-AllRetired k [] h = refl
live_nodes-AllRetired k (hp ∷ rest) (_, e, h) =
    simp (e, live_of-replicate k) (live_nodes-AllRetired k rest h)

scan-none :
    (rs : List HazardPointer) (l : Local) (a : ℕ)
    → live_nodes rs ≡ []
    → occurrences a (scan rs l).freed ≡ occurrences a l.freed + occurrences a l.retired
unfolding contains
scan-none rs l a e = ground (arith, scan-Swept rs l a, e)

others-adopted :
    (k n a : ℕ) (records : List HazardPointer) (self : ℕ) (rs : List HazardPointer) (l : Local)
    → AllRetired k rs
    → others a self (help_records k n records self rs l).0 ≡ 0
unfolding help_records others
others-adopted k n a records self [] l h = refl
others-adopted k n a records self (hp ∷ rest) l (idle, _, h) = elim (Bool-cases (hp.id == self)) [
  | inl e ↦ simp e (omega (arith, others-adopted k n a records self rest l h))
  | inr e ↦
      simp (e, idle)
        (omega (
          arith,
          others-adopted k n a records self rest (drain k n records (reverse hp.retire_list) l) h,
        ))
]

retire_list_of-head :
    (hp : HazardPointer) (rest : List HazardPointer)
    → retire_list_of hp.id (hp ∷ rest) ≡ hp.retire_list
unfolding retire_list_of
retire_list_of-head hp rest = ground arith

destroyed :
    (k a : ℕ) (s : HazardPointers) (rs : List HazardPointer)
    → s.records ≡ rs
    → ((i : ℕ) → (occurrences i (ids rs) ≡ 0) ⊎ (occurrences i (ids rs) ≡ 1))
    → AllRetired k rs
    → occurrences a (destroy k s).freed ≡ occurrences a s.freed + retired_total a rs
unfolding destroy
destroyed k a s [] e once h = rw e (omega (arith, retired_total-nil a))
destroyed k a s (head ∷ rest) e once h =
    let rs = head ∷ rest in
    let l : Local = record { retired = head.retire_list; freed = s.freed } in
    let r = help_records k s.hp_count rs head.id rs l in
    let one : occurrences head.id (ids rs) ≡ 1 = ground (arith, once head.id) in
    rw e (
      omega (
        arith,
        scan-none rs r.1 a (live_nodes-AllRetired k rs h),
        (help_records-Moves k s.hp_count rs a head.id rs l).0,
        others-adopted k s.hp_count a rs head.id rs l h,
        others_self a head.id rs one,
        ap (occurrences a) (retire_list_of-head head rest),
      ))

-- When every thread has retired its record, the destructor deletes every node that is still on a
-- retire list, each as often as it stands there. No two records have one address.
pub destroy_lem :
    (k a : ℕ) (s : HazardPointers)
    → ((i : ℕ) → (occurrences i (ids s.records) ≡ 0) ⊎ (occurrences i (ids s.records) ≡ 1))
    → AllRetired k s.records
    → occurrences a (destroy k s).freed ≡ occurrences a s.freed + retired_total a s.records
destroy_lem k a s once h = destroyed k a s s.records refl once h
