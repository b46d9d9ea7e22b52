-- ===== src/Random/Seeds.antt =====
-- The seeds of the sources of different threads.
use ccmetrics.Base.{ℕ, zero, suc, ◌+◌, ◌*◌, ◌%◌, ◌^◌, ◌<◌, ◌≡◌, arith}
use ccmetrics.Random.{advance_seed, seed_after}

-- The counter after `n` steps in closed form.
pub seed_after-eq :
    (initial n : ℕ) → initial < 2 ^ 32 → seed_after initial n ≡ (initial + n * 0x6a09e667) % 2 ^ 32
unfolding seed_after advance_seed
seed_after-eq initial zero h = omega arith
seed_after-eq initial (suc n) h = omega (arith, seed_after-eq initial n h)

-- Two sources constructed within one round of 2 ^ 32 constructions have different seeds: if the
-- seeds of the m-th and the n-th source are equal, with m and n below 2 ^ 32 and the initial seed
-- a uint32_t, then m is n.
pub seed_after_injective :
    (initial m n : ℕ)
    → initial < 2 ^ 32
    → m < 2 ^ 32
    → n < 2 ^ 32
    → seed_after initial m ≡ seed_after initial n
    → m ≡ n
seed_after_injective initial m n h hm hn e =
    omega (arith, seed_after-eq initial m h, seed_after-eq initial n h)
