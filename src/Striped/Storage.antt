-- ===== src/Striped/Storage.antt =====
-- src/metrics/striped_int64.cc: which Striped64_Storage deletes which slab.
use ccmetrics.Base.{
  ℕ, zero, suc, ◌+◌, ◌-◌, ◌*◌, ◌^◌, ◌≡◌, refl, ◌⊎◌, Bool, true, false, not, ◌&&◌, List, [], ◌∷◌,
  ◌++◌, Option, none, some, leb, if◌then◌else◌, length, get_elem?, arith,
}
use mathlib.Core.Path.{subst, sym}
use ccmetrics.Base.{length-append}
use ccmetrics.Striped.{slab}
use ccmetrics.Striped.Slots.{length-slab}

-- `Striped64_Storage`: `data_` and the flags; `size_` is the length of `slots`.
pub record Striped64Storage : Type 0 where
  pub clean_created : Bool
  pub owner : Bool
  pub slots : List ℕ

-- The constructor from another storage; the new slab begins at the address `at`.
pub expanded : (at : ℕ) → Striped64Storage → Striped64Storage
expanded at other = record {
  clean_created = true;
  owner = true;
  slots = other.slots ++ slab at (length other.slots * 2 - length other.slots);
}

pub disavow : Striped64Storage → Striped64Storage
disavow s = record s { owner = false }

pub disavow_all : Striped64Storage → Striped64Storage
disavow_all s = record s { owner = false; clean_created = false }

-- `delete [] data_[slab]`, unless it is null.
pub delete_slab : Option ℕ → List ℕ → List ℕ
delete_slab none deleted = deleted
delete_slab (some a) deleted = a ∷ deleted

-- The loop of the destructor: the slabs deleted so far, and the last value of `slab`. The fuel is
-- the size of the storage, and `slab` doubles in each round.
pub delete_slabs : (fuel shift at : ℕ) → Striped64Storage → List ℕ → List ℕ × ℕ
unfolding delete_slab
delete_slabs zero shift at s deleted = (deleted, at)
delete_slabs (suc fuel) shift at s deleted =
    let deleted' = if s.owner then delete_slab (get_elem? s.slots at) deleted else deleted in
    let next_slab = 2 ^ (shift + 1) in
    let rest = delete_slabs fuel (shift + 1) next_slab s deleted' in
    if leb (length s.slots) next_slab then (deleted', at) else rest

-- The destructor: the slabs deleted by the end of it, the latest first.
pub delete_storage : Striped64Storage → List ℕ → List ℕ
unfolding delete_slabs delete_slab
delete_storage s deleted =
    let (deleted', last) = delete_slabs (length s.slots) 0 0 s deleted in
    if not s.owner && s.clean_created
    then delete_slab (get_elem? s.slots last) deleted'
    else deleted'

-- Two or four slots, the sizes below STRIPE_LIMIT that a storage grows from.
abbrev pub CanGrow : List ℕ → Type 0
CanGrow slots = (length slots ≡ 2) ⊎ (length slots ≡ 4)

abbrev owned_storage : Bool → List ℕ → Striped64Storage
owned_storage clean slots = record { clean_created = clean; owner = true; slots = slots }

-- What the storages before and after an expansion delete, in both outcomes of the race.
abbrev Deletes : (at : ℕ) → Striped64Storage → List ℕ → Type 0
Deletes at s deleted =
    (delete_storage (disavow_all s) deleted ≡ deleted)
    × (delete_storage (expanded at s) deleted ≡ at ∷ delete_storage s deleted)
    × (delete_storage (disavow (expanded at s)) deleted ≡ at ∷ deleted)

two_slots :
    (at a b : ℕ) (clean : Bool) (deleted : List ℕ)
    → Deletes at (owned_storage clean (a ∷ b ∷ [])) deleted
unfolding delete_storage delete_slabs delete_slab disavow_all disavow expanded slab
two_slots at a b clean deleted = (refl, refl, refl)

four_slots :
    (at a b c d : ℕ) (clean : Bool) (deleted : List ℕ)
    → Deletes at (owned_storage clean (a ∷ b ∷ c ∷ d ∷ [])) deleted
unfolding delete_storage delete_slabs delete_slab disavow_all disavow expanded slab
four_slots at a b c d clean deleted = (refl, refl, refl)

by_slots :
    (at : ℕ) (clean : Bool) (slots deleted : List ℕ)
    → CanGrow slots
    → Deletes at (owned_storage clean slots) deleted
by_slots at clean (a ∷ b ∷ []) deleted h = two_slots at a b clean deleted
by_slots at clean (a ∷ b ∷ c ∷ d ∷ []) deleted h = four_slots at a b c d clean deleted
by_slots at clean [] deleted h = absurd (ground (arith, h))
by_slots at clean (_ ∷ []) deleted h = absurd (ground (arith, h))
by_slots at clean (_ ∷ _ ∷ _ ∷ []) deleted h = absurd (ground (arith, h))
by_slots at clean (_ ∷ _ ∷ _ ∷ _ ∷ _ ∷ rest) deleted h = absurd (ground (arith, h))

-- An expansion of a storage of two or four slots that owns its slabs deletes each slab once, however
-- the race to publish it ends. If it wins, the old storage, which is disavowed, deletes none, and the
-- new one deletes those that the old one would have deleted and the new slab. If it loses, the new
-- storage, which is disavowed, deletes the new slab alone.
pub expanded_ownership :
    (at : ℕ) (s : Striped64Storage) (deleted : List ℕ)
    → CanGrow s.slots
    → s.owner ≡ true
    → (delete_storage (disavow_all s) deleted ≡ deleted)
      × (delete_storage (expanded at s) deleted ≡ at ∷ delete_storage s deleted)
      × (delete_storage (disavow (expanded at s)) deleted ≡ at ∷ deleted)
expanded_ownership at s deleted h owner =
    subst (λ (own : Bool). Deletes at (record s { owner = own }) deleted) (sym owner)
      (by_slots at s.clean_created s.slots deleted h)

disowned_slabs :
    (fuel shift from : ℕ) (s : Striped64Storage) (deleted : List ℕ)
    → s.owner ≡ false
    → (delete_slabs fuel shift from s deleted).0 ≡ deleted
unfolding delete_slabs
disowned_slabs zero shift from s deleted e = refl
disowned_slabs (suc fuel) shift from s deleted e =
    ground (arith, e, disowned_slabs fuel (shift + 1) (2 ^ (shift + 1)) s deleted e)

-- A storage that is disavowed altogether deletes nothing.
pub disavowed_all_lem :
    (s : Striped64Storage) (deleted : List ℕ) → delete_storage (disavow_all s) deleted ≡ deleted
unfolding delete_storage disavow_all
disavowed_all_lem s deleted = disowned_slabs (length s.slots) 0 0 _ deleted refl

pub length-expanded :
    (from : ℕ) (s : Striped64Storage) → length (expanded from s).slots ≡ length s.slots * 2
unfolding expanded
length-expanded from s =
    let n = length s.slots in
    omega (arith, length-append s.slots (slab from (n * 2 - n)), length-slab from (n * 2 - n))

pub owner-expanded : (from : ℕ) (s : Striped64Storage) → (expanded from s).owner ≡ true
unfolding expanded
owner-expanded from s = refl
