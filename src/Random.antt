-- ===== src/Random.antt =====
-- src/thread_local_random.{h,cc}: per-thread random sources seeded from one evolving counter.
pub mod Seeds
pub mod Bytes
mod Tests
use ccmetrics.Base.{ℕ, zero, suc, ◌+◌, ◌/◌, ◌%◌, ◌^◌, List, [], ◌∷◌}

-- `advanceSeed`: the shared uint32_t counter goes up by the constant and the new value is the seed.
pub advance_seed : ℕ → ℕ
advance_seed seed = (seed + 0x6a09e667) % 2 ^ 32

-- The value of `seeder_` after `n` sources were constructed, from the initial seed.
pub seed_after : ℕ → ℕ → ℕ
seed_after initial zero = initial
seed_after initial (suc n) = advance_seed (seed_after initial n)

-- The inner loop of `generate`: `width` bytes of `r`, the lowest first.
pub fill : ℕ → ℕ → List ℕ
fill zero r = []
fill (suc width) r = r % 256 ∷ fill width (r / 256)

-- `generate` over a range of elements `width` bytes wide. `draws` is what the uniform distribution
-- on uint64_t returns, a draw for each element.
pub generate : ℕ → List ℕ → List (List ℕ)
generate width [] = []
generate width (r ∷ draws) = fill width r ∷ generate width draws
