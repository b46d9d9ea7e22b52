-- ===== src/Hazard/Allocate.antt =====
-- `allocate` and `retire` of hazard pointer records: who owns a record, and what stays well formed.
use ccmetrics.Base.{
  occurrences, ℕ, suc, ◌+◌, ◌≡◌, refl, ap, ◌≤◌, List, [], ◌∷◌, some, none, Option, arith, ◌==◌,
  if◌then◌else◌, length, ◌⊎◌, ◌<◌, false, Bool-cases, inl, inr, replicate, length-replicate,
}
use ccmetrics.Hazard.{
  HazardPointer, HazardPointers, behind, claim_inactive, claimed_or_new, push_record, allocate,
  modify, retire,
}
use ccmetrics.Hazard.Retire.{ids}
use ccmetrics.Hazard.Bound.{HasPointers}

-- How many active records have the address `i`.
pub active_count : ℕ → List HazardPointer → ℕ
active_count i [] = 0
active_count i (hp ∷ rest) =
    (if hp.id == i then (if hp.active then 1 else 0) else 0) + active_count i rest

-- `hp_count` counts the records, each has k pointers, and no two have one address.
pub record WellFormed (k : ℕ) (s : HazardPointers) : Type 0 where
  pub counted : s.hp_count ≡ length s.records
  pub wide : HasPointers k s.records
  pub once : (i : ℕ) → (occurrences i (ids s.records) ≡ 0) ⊎ (occurrences i (ids s.records) ≡ 1)

-- What the walk of `allocate` did to the list `rs`, seen at the address `j`.
OnClaim : ℕ → List HazardPointer → ℕ → Option (ℕ × List HazardPointer) → Type 0
OnClaim k rs j none = Unit {0}
OnClaim k rs j (some (i, rs')) =
    (ids rs' ≡ ids rs)
    × (length rs' ≡ length rs)
    × (HasPointers k rs → HasPointers k rs')
    × (active_count j rs' ≡ active_count j rs + (if i == j then 1 else 0))
    × (0 < occurrences i (ids rs))

OnClaim-behind :
    (k : ℕ) (hp : HazardPointer) (rest : List HazardPointer) (j : ℕ)
    (o : Option (ℕ × List HazardPointer))
    → OnClaim k rest j o
    → OnClaim k (hp ∷ rest) j (behind hp o)
unfolding OnClaim behind active_count
OnClaim-behind k hp rest j none c = tt
OnClaim-behind k hp rest j (some (i, rs')) (same, long, wide, act, here) = (
  ap (◌∷◌ hp.id) same,
  ap suc long,
  λ (w, ws). (w, wide ws),
  omega (arith, act),
  omega (arith, here),
)

claim_inactive-OnClaim :
    (k : ℕ) (rs : List HazardPointer) (j : ℕ) → OnClaim k rs j (claim_inactive rs)
unfolding claim_inactive
claim_inactive-OnClaim k [] j = unfold OnClaim in tt
claim_inactive-OnClaim k (hp ∷ rest) j = elim (Bool-cases hp.active) [
  | inl e ↦
      simp e (OnClaim-behind k hp rest j (claim_inactive rest) (claim_inactive-OnClaim k rest j))
  | inr e ↦
      simp e (unfold OnClaim active_count in (refl, refl, λ w. w, ground (arith, e), ground arith))
]

active_count-le : (i : ℕ) (rs : List HazardPointer) → active_count i rs ≤ occurrences i (ids rs)
unfolding active_count
active_count-le i [] = omega arith
active_count-le i (hp ∷ rest) = ground (arith, active_count-le i rest)

-- The thread with the new state owns the record `i`, which nobody owned.
abbrev pub Owns : ℕ → HazardPointers → ℕ × HazardPointers → Type 0
Owns k s (i, s') =
    WellFormed k s'
    × (active_count i s.records ≡ 0)
    × ((j : ℕ) → active_count j s'.records ≡ (if i == j then 1 else active_count j s.records))
    × (s'.freed ≡ s.freed)

push_record-Owns :
    (k fresh : ℕ) (s : HazardPointers)
    → WellFormed k s
    → occurrences fresh (ids s.records) ≡ 0
    → Owns k s (fresh, push_record k fresh s)
unfolding active_count push_record
push_record-Owns k fresh s wf new = (
  record {
    counted = omega (arith, wf.counted);
    wide = (length-replicate k 0, wf.wide);
    once = λ i. ground (arith, wf.once i, new);
  },
  omega (arith, active_count-le fresh s.records),
  λ j. ground (arith, active_count-le fresh s.records),
  refl,
)

claimed_or_new-Owns :
    (k fresh : ℕ) (s : HazardPointers) (o : Option (ℕ × List HazardPointer))
    → WellFormed k s
    → occurrences fresh (ids s.records) ≡ 0
    → ((j : ℕ) → OnClaim k s.records j o)
    → Owns k s (claimed_or_new k fresh s o)
unfolding claimed_or_new OnClaim
claimed_or_new-Owns k fresh s none wf new c = push_record-Owns k fresh s wf new
claimed_or_new-Owns k fresh s (some (i, rs)) wf new c =
    let (same, long, wide, act, here) = c i in
    let before : active_count i s.records ≡ 0 =
      ground (arith, act, wf.once i, active_count-le i rs, ap (occurrences i) same) in
    (
      record {
        counted = omega (arith, wf.counted, long);
        wide = wide wf.wide;
        once = λ j. rw same (wf.once j);
      },
      before,
      λ j. ground (arith, (c j).3, act, before),
      refl,
    )

-- `allocate` returns a record that is active afterwards and was not before, so two threads never
-- hold one record; every other record is as active as it was, nothing is deleted, and the list stays
-- well formed. The address that `new` may return is that of no record.
pub allocate-Owns :
    (k fresh : ℕ) (s : HazardPointers)
    → WellFormed k s
    → occurrences fresh (ids s.records) ≡ 0
    → Owns k s (allocate k fresh s)
unfolding allocate
allocate-Owns k fresh s wf new =
    claimed_or_new-Owns k fresh s (claim_inactive s.records) wf new
      (λ j. claim_inactive-OnClaim k s.records j)

pub modify-ids :
    (i : ℕ) (rs : List HazardPointer) (f : HazardPointer → HazardPointer)
    → ((hp : HazardPointer) → (f hp).id ≡ hp.id)
    → ids (modify i f rs) ≡ ids rs
unfolding modify
modify-ids i [] f h = refl
modify-ids i (hp ∷ rest) f h = ground (arith, h hp, modify-ids i rest f h)

pub length-modify :
    (i : ℕ) (rs : List HazardPointer) (f : HazardPointer → HazardPointer)
    → length (modify i f rs) ≡ length rs
unfolding modify
length-modify i [] f = refl
length-modify i (hp ∷ rest) f = ap suc (length-modify i rest f)

release : ℕ → HazardPointer → HazardPointer
release k hp = record hp { pointers = replicate k 0; active = false }

release-HasPointers :
    (k i : ℕ) (rs : List HazardPointer) → HasPointers k rs → HasPointers k (modify i (release k) rs)
unfolding modify release
release-HasPointers k i [] w = tt
release-HasPointers k i (hp ∷ rest) (w, ws) =
    (ground (arith, length-replicate {A = ℕ} k 0), release-HasPointers k i rest ws)

release-active_count :
    (k i j : ℕ) (rs : List HazardPointer)
    → active_count j (modify i (release k) rs) ≡ (if i == j then 0 else active_count j rs)
unfolding modify release active_count
release-active_count k i j [] = ground arith
release-active_count k i j (hp ∷ rest) = ground (arith, release-active_count k i j rest)

-- `retire` gives up the record `i` and no other, deletes nothing, and keeps the list well formed.
pub retire_lem :
    (k i : ℕ) (s : HazardPointers)
    → WellFormed k s
    → WellFormed k (retire k i s)
      × ((j : ℕ)
          → active_count j (retire k i s).records
            ≡ (if i == j then 0 else active_count j s.records))
      × ((retire k i s).freed ≡ s.freed)
unfolding retire release
retire_lem k i s wf =
    let same = modify-ids i s.records (release k) (λ hp. refl) in
    (
      record {
        counted = omega (arith, wf.counted, length-modify i s.records (release k));
        wide = release-HasPointers k i s.records wf.wide;
        once = λ j. rw same (wf.once j);
      },
      λ j. release-active_count k i j s.records,
      refl,
    )
