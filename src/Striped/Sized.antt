-- ===== src/Striped/Sized.antt =====
-- src/metrics/striped_int64.cc: the constructor of a counter of a given size, which tests use.
use ccmetrics.Base.{
  ℕ, zero, suc, ◌+◌, ◌≤◌, ◌<◌, ◌≡◌, refl, true, List, [], Option, none, some, ltb, if◌then◌else◌,
  length, ap, ◌∙◌, arith, Bool-cases, inl, inr,
}
use ccmetrics.Striped.{slab}
use ccmetrics.Striped.Slots.{length-slab}
use ccmetrics.Striped.Storage.{
  Striped64Storage, expanded, disavow_all, delete_storage, disavowed_all_lem, length-expanded,
  owner-expanded,
}

-- The loop: the storage in `storage`, and the slabs deleted so far. A new slab begins at `at`.
pub grow_to : (fuel k at : ℕ) → Striped64Storage → List ℕ → Option (Striped64Storage × List ℕ)
grow_to zero k at s deleted = none
grow_to (suc fuel) k at s deleted =
    let rest =
      grow_to fuel k (at + length s.slots) (expanded at s)
        (delete_storage (disavow_all s) deleted) in
    if ltb (length s.slots) k then rest else some (s, deleted)

abbrev pub new_striped_storage : Striped64Storage
new_striped_storage = record { clean_created = true; owner = true; slots = slab 0 2 }

-- `Striped64(size_t k)`. The fuel: each round but the last adds a slot or more.
pub sized : ℕ → Option (Striped64Storage × List ℕ)
unfolding grow_to
sized k = grow_to (suc k) k 2 new_striped_storage []

-- A round of the loop with enough slots, and one with too few.
grow_to-enough :
    (fuel k at : ℕ) (s : Striped64Storage) (deleted : List ℕ)
    → k ≤ length s.slots
    → grow_to (suc fuel) k at s deleted ≡ some (s, deleted)
unfolding grow_to
grow_to-enough fuel k at s deleted h = ground (arith, h)

grow_to-few :
    (fuel k at : ℕ) (s : Striped64Storage) (deleted : List ℕ)
    → length s.slots < k
    → grow_to (suc fuel) k at s deleted
      ≡ grow_to fuel k (at + length s.slots) (expanded at s) deleted
unfolding grow_to
grow_to-few fuel k at s deleted h =
    let few : ltb (length s.slots) k ≡ true = ground (arith, h) in
    ap
      (λ b.
        if b
        then grow_to fuel k (at + length s.slots) (expanded at s)
            (delete_storage (disavow_all s) deleted)
        else some (s, deleted))
      few
    ∙ ap (grow_to fuel k (at + length s.slots) (expanded at s)) (disavowed_all_lem s deleted)

grow_to-fits :
    (fuel k at : ℕ) (s : Striped64Storage) (deleted : List ℕ)
    → k ≤ length s.slots + fuel
    → 0 < length s.slots
    → s.owner ≡ true
    → (s' : Striped64Storage) × (grow_to (suc fuel) k at s deleted ≡ some (s', deleted))
      × (k ≤ length s'.slots)
      × (s'.owner ≡ true)
grow_to-fits zero k at s deleted h pos own =
    (s, grow_to-enough zero k at s deleted (omega (arith, h)), omega (arith, h), own)
grow_to-fits (suc fuel) k at s deleted h pos own = elim (Bool-cases (ltb (length s.slots) k)) [
  | inl few ↦
      let longer = length-expanded at s in
      let (s', done, enough, still) =
        grow_to-fits fuel k (at + length s.slots) (expanded at s) deleted
          (omega (arith, h, longer, pos)) (omega (arith, longer, pos)) (owner-expanded at s) in
      (s', grow_to-few (suc fuel) k at s deleted (ground (arith, few)) ∙ done, enough, still)
  | inr enough ↦
      let long : k ≤ length s.slots = ground (arith, enough) in
      (s, grow_to-enough (suc fuel) k at s deleted long, long, own)
]

-- `Striped64(k)` terminates for every `k`, with a storage of `k` slots or more that owns its slabs,
-- and deletes no slab on the way.
pub sized_lem :
    (k : ℕ)
    → (s : Striped64Storage) × (sized k ≡ some (s, [])) × (k ≤ length s.slots) × (s.owner ≡ true)
unfolding sized
sized_lem k =
    let two = length-slab 0 2 in
    grow_to-fits k k 2 new_striped_storage [] (omega (arith, two)) (omega (arith, two)) refl
