-- ===== src/Aligned/Tests.antt =====
-- Tests of the cache lines, and the theorem at a concrete input.
use ccmetrics.Base.{ℕ, ◌*◌, ◌≡◌, ◌≢◌, ◌⊎◌, refl, List, [], ◌∷◌, none, some}
use native.Mathlib.Nat.{mul-mod_left}
use ccmetrics.Aligned.{line_size, size_of, Block, new_array, free_algined}
use ccmetrics.Aligned.Lines.{IsMemalign, IsUnshared, new_array-IsUnshared}

-- A counter of 8 bytes has one line; a value of a whole line gets a byte of padding, and so another line.
size_test : (size_of 8 ≡ 64) × (size_of 64 ≡ 128)
size_test = (refl, refl)

-- Every request is answered with the address 128 times the alignment.
abbrev memalign : ℕ → ℕ → ℕ × ℕ
memalign alignment size = (0, 128 * alignment)

memalign-IsMemalign : IsMemalign memalign
memalign-IsMemalign alignment size _ = mul-mod_left 128 alignment

abbrev one_block : List Block
one_block = record { address = 640; size = 64 } ∷ []

free_test : free_algined 640 one_block ≡ some []
free_test = refl

new_array-IsUnshared_example :
    ((new_array memalign 8 4 one_block ≡ none)
      × (((memalign line_size (4 * size_of 8)).0 ≢ 0)
          ⊎ ((memalign line_size (4 * size_of 8)).1 ≡ 0)))
    ⊎ ((p : ℕ) × (heap' : List Block) × (new_array memalign 8 4 one_block ≡ some (p, heap'))
        × IsUnshared p 8 4
        × (free_algined p heap' ≡ some one_block))
new_array-IsUnshared_example = new_array-IsUnshared memalign 8 4 one_block memalign-IsMemalign
