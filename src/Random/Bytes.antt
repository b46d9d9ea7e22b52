-- ===== src/Random/Bytes.antt =====
-- The bytes that `generate` writes, read as little-endian numbers.
use ccmetrics.Base.{
  ℕ, zero, suc, ◌+◌, ◌*◌, ◌/◌, ◌%◌, ◌^◌, ◌≡◌, refl, ap, List, [], ◌∷◌, arith, length,
}
use native.Mathlib.Nat.{pow-succ', mod-add-div, div-div-eq-div-mul}
use ccmetrics.Random.{fill, generate}

-- Reading bytes as a little-endian number.
abbrev pub little_endian : List ℕ → ℕ
little_endian [] = 0
little_endian (b ∷ bs) = b + 256 * little_endian bs

-- The lowest digit of a number modulo `256 * n`, and the rest.
mod-256-mul : (r n : ℕ) → r % (256 * n) ≡ r % 256 + 256 * (r / 256 % n)
mod-256-mul r n = omega (
  arith,
  mod-add-div r (256 * n),
  mod-add-div (r / 256) n,
  ap (λ (q : ℕ). n * q) (div-div-eq-div-mul r 256 n),
)

little_endian-fill : (width r : ℕ) → little_endian (fill width r) ≡ r % 256 ^ width
unfolding fill
little_endian-fill zero r = omega arith
little_endian-fill (suc width) r =
    rw (pow-succ' 256 width)
      (omega (arith, mod-256-mul r (256 ^ width), little_endian-fill width (r / 256)))

length-fill : (width r : ℕ) → length (fill width r) ≡ width
unfolding fill
length-fill zero r = refl
length-fill (suc width) r = ap suc (length-fill width (r / 256))

-- What one element holds after `generate`, for the draw that it was given.
abbrev pub Holds : ℕ → ℕ → List ℕ → Type 0
Holds width r bytes = (length bytes ≡ width) × (little_endian bytes ≡ r % 256 ^ width)

-- The elements of a range against the draws, one by one.
abbrev pub Filled : ℕ → List ℕ → List (List ℕ) → Type 0
Filled width [] [] = Unit {0}
Filled width [] (_ ∷ _) = ⊥
Filled width (_ ∷ _) [] = ⊥
Filled width (r ∷ draws) (bytes ∷ range) = Holds width r bytes × Filled width draws range

-- `generate` fills a range element by element: each element is exactly `width` bytes, and read as a
-- little-endian number they are its draw modulo 256 ^ width, so 8-byte elements hold whole draws.
pub generate-Filled : (width : ℕ) (draws : List ℕ) → Filled width draws (generate width draws)
unfolding generate
generate-Filled width [] = tt
generate-Filled width (r ∷ draws) =
    ((length-fill width r, little_endian-fill width r), generate-Filled width draws)
