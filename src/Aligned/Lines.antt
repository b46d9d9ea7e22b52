-- ===== src/Aligned/Lines.antt =====
-- src/cache_aligned.h: which cache lines the elements of an array take.
use ccmetrics.Base.{
  ℕ, suc, ◌+◌, ◌*◌, ◌/◌, ◌%◌, ◌≤◌, ◌<◌, ◌≡◌, ◌≢◌, ◌⊎◌, inl, inr, refl, sym, ap, true, Bool-cases,
  List, ◌∷◌, Option, none, some, ◌==◌, if◌then◌else◌, arith,
}
use native.Mathlib.Nat.{mul-le-mul_right, suc-mul, mul_assoc}
use ccmetrics.Aligned.{line_size, pad, size_of, allocated, Block, new_array, free_algined, byte_at}

-- An element takes whole lines.
lines_of : (t : ℕ) → (lines : ℕ) × (size_of t ≡ lines * 64) × (t ≤ lines * 64)
lines_of t = ((t + pad t + 63) / 64, refl, ground arith)

-- `i` elements and one more are at most `j`.
elements-le : (lines i j : ℕ) → i < j → i * (lines * 64) + lines * 64 ≤ j * (lines * 64)
elements-le lines i j less =
    let both = mul-le-mul_right (lines * 64) less in
    let one_more : suc i * (lines * 64) ≡ i * (lines * 64) + lines * 64 = suc-mul i (lines * 64) in
    omega (arith, both, one_more)

line-lt :
    (lines i j q t a b : ℕ)
    → t ≤ lines * 64
    → i < j
    → a < t
    → b < t
    → (q * 64 + i * (lines * 64) + a) / 64 < (q * 64 + j * (lines * 64) + b) / 64
line-lt lines i j q t a b fits less in_a in_b =
    let il : i * (lines * 64) ≡ i * lines * 64 = sym (mul_assoc i lines 64) in
    let jl : j * (lines * 64) ≡ j * lines * 64 = sym (mul_assoc j lines 64) in
    omega (arith, elements-le lines i j less, il, jl)

-- What `posix_memalign` promises: a success returns a multiple of the alignment.
abbrev pub IsMemalign : (ℕ → ℕ → ℕ × ℕ) → Type 0
IsMemalign memalign =
    (alignment size : ℕ)
    → (memalign alignment size).0 ≡ 0
    → (memalign alignment size).1 % alignment ≡ 0

-- Two bytes of different elements of the array stand in different cache lines, and inside the block.
abbrev pub IsUnshared : (p t n : ℕ) → Type 0
IsUnshared p t n =
    (i j a b : ℕ)
    → i < j
    → j < n
    → a < t
    → b < t
    → (byte_at p t i a / line_size < byte_at p t j b / line_size)
      × (byte_at p t j b < p + n * size_of t)

aligned-IsUnshared : (p t n : ℕ) → p % 64 ≡ 0 → IsUnshared p t n
aligned-IsUnshared p t n at i j a b less fits in_a in_b =
    let (lines, size, holds) = lines_of t in
    let whole : p ≡ p / 64 * 64 = omega (arith, at) in
    let apart = line-lt lines i j (p / 64) t a b holds less in_a in_b in
    let inside = elements-le lines j n fits in
    let at_i : i * size_of t ≡ i * (lines * 64) = ap (λ a. i * a) size in
    let at_j : j * size_of t ≡ j * (lines * 64) = ap (λ a. j * a) size in
    let at_n : n * size_of t ≡ n * (lines * 64) = ap (λ a. n * a) size in
    (omega (arith, apart, whole, at_i, at_j), omega (arith, inside, at_j, at_n, holds, in_b))

-- For every answer of `posix_memalign` that keeps its promise, `new CacheAligned<T>[n]` throws, and then
-- the call has failed or its pointer is null, or returns an array no two elements of which share a cache
-- line, with every element inside its block; and to free its address gives back the heap as it was.
pub new_array-IsUnshared :
    (memalign : ℕ → ℕ → ℕ × ℕ) (t n : ℕ) (heap : List Block)
    → IsMemalign memalign
    → ((new_array memalign t n heap ≡ none)
        × (((memalign line_size (n * size_of t)).0 ≢ 0)
            ⊎ ((memalign line_size (n * size_of t)).1 ≡ 0)))
      ⊎ ((p : ℕ) × (heap' : List Block) × (new_array memalign t n heap ≡ some (p, heap'))
          × IsUnshared p t n
          × (free_algined p heap' ≡ some heap))
new_array-IsUnshared memalign t n heap promise =
    let rc = (memalign line_size (n * size_of t)).0 in
    let p = (memalign line_size (n * size_of t)).1 in
    let size = n * size_of t in
    let finish = allocated size heap in
    let answer : Option ℕ = if rc == 0 then if p == 0 then none else some p else none in
    elim (Bool-cases (rc == 0)) [
      | inr e ↦
          let fails : answer ≡ none = rw e refl in inl (ap finish fails, inl (ground (arith, e)))
      | inl e ↦ elim (Bool-cases (p == 0)) [
        | inl z ↦
            let fails : answer ≡ none = rw e (rw z refl) in
            inl (ap finish fails, inr (ground (arith, z)))
        | inr z ↦
            let returns : answer ≡ some p = rw e (rw z refl) in
            let same : (p == p) ≡ true = ground arith in
            let block : Block = record { address = p; size = size } in
            inr (
              p,
              block ∷ heap,
              ap finish returns,
              aligned-IsUnshared p t n (promise line_size size (ground (arith, e))),
              rw z (rw same refl),
            )
      ]
    ]
