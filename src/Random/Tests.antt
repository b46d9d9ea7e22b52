-- ===== src/Random/Tests.antt =====
-- Tests of the random source, and its theorems at concrete inputs.
use ccmetrics.Base.{◌≡◌, refl, [], ◌∷◌}
use ccmetrics.Random.{fill}

fill_test : fill 4 0x01020304 ≡ 4 ∷ 3 ∷ 2 ∷ 1 ∷ []
unfolding fill
fill_test = refl
