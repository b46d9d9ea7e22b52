-- ===== src/Aligned.antt =====
-- src/cache_aligned.h: values with a cache line of their own. An address is a number, 0 is nullptr, and
-- `posix_memalign` is a parameter, from the alignment and the size to the result and the pointer.
pub mod Lines
mod Tests
use ccmetrics.Base.{
  ℕ, ◌+◌, ◌-◌, ◌*◌, ◌/◌, ◌≡◌, Bool, List, [], ◌∷◌, Option, none, some, ◌==◌, ltb, if◌then◌else◌,
}

-- `CACHE_LINE_SIZE`.
abbrev pub line_size : ℕ
line_size = 64

-- The length of `pad`, of a value of `t` bytes.
abbrev pub pad : ℕ → ℕ
pad t = if ltb t line_size then line_size - t else 1

-- The size of `CacheAligned<T>`: its members, rounded up to the alignment of the type.
abbrev pub size_of : ℕ → ℕ
size_of t = (t + pad t + (line_size - 1)) / line_size * line_size

-- `allocateAligned`, with what `posix_memalign` answers; `none` is `std::bad_alloc`.
abbrev pub allocate_aligned : (ℕ → ℕ → ℕ × ℕ) → (size alignment : ℕ) → Option ℕ
allocate_aligned memalign size alignment =
    let (rc, p) = memalign alignment size in
    if rc == 0 then if p == 0 then none else some p else none

-- The blocks that are allocated.
pub record Block : Type 0 where
  pub address : ℕ
  pub size : ℕ

abbrev pub allocated : (size : ℕ) → List Block → Option ℕ → Option (ℕ × List Block)
allocated size heap none = none
allocated size heap (some p) = some (p, record { address = p; size = size } ∷ heap)

-- `new CacheAligned<T>[n]`, of a trivially destructible type, so that the array has no other header, and of
-- a size that a std::size_t holds.
abbrev pub new_array : (ℕ → ℕ → ℕ × ℕ) → (t n : ℕ) → List Block → Option (ℕ × List Block)
new_array memalign t n heap =
    allocated (n * size_of t) heap (allocate_aligned memalign (n * size_of t) line_size)

-- `mkAligned`.
abbrev pub mk_aligned : (ℕ → ℕ → ℕ × ℕ) → (t : ℕ) → List Block → Option (ℕ × List Block)
mk_aligned memalign t heap = new_array memalign t 1 heap

-- `deallocateAligned`: `free` of nullptr does nothing, and of an address that is no block has no result.
abbrev pub deallocate_aligned : ℕ → List Block → Option (List Block)
deallocate_aligned p [] = if p == 0 then some [] else none
deallocate_aligned p (b ∷ heap) =
    let rest = deallocate_aligned p heap in
    if p == 0
    then some (b ∷ heap)
    else if b.address == p
    then some heap
    else elim rest [ none ↦ none | some heap' ↦ some (b ∷ heap') ]

-- `freeAlgined`: `data` is the first member, so the address is that of the whole.
abbrev pub free_algined : ℕ → List Block → Option (List Block)
free_algined t heap = deallocate_aligned t heap

-- The address of byte `a` of element `i` of an array at `p`.
abbrev pub byte_at : (p t i a : ℕ) → ℕ
byte_at p t i a = p + i * size_of t + a
