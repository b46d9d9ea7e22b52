-- ===== src/Hazard/Counting.antt =====
-- The multiset laws of the vector idioms.
use ccmetrics.Base.{occurrences, ℕ, ◌≡◌, refl, List, [], ◌∷◌, arith, length}
use ccmetrics.Base.{occurrences-append}
use mathlib.Core.List.{reverse, reverse-cons}
use ccmetrics.Hazard.{swap_pop}

pub occurrences-reverse : (a : ℕ) (xs : List ℕ) → occurrences a (reverse xs) ≡ occurrences a xs
occurrences-reverse a [] = refl
occurrences-reverse a (x ∷ xs) =
    rw (reverse-cons x xs)
      (omega (arith, occurrences-append a (reverse xs) (x ∷ []), occurrences-reverse a xs))

pub length-swap_pop : (xs : List ℕ) → length (swap_pop xs) ≡ length xs
unfolding swap_pop
length-swap_pop [] = refl
length-swap_pop (x ∷ []) = refl
length-swap_pop (x ∷ y ∷ rest) = ground (arith, length-swap_pop (y ∷ rest))

pub occurrences-swap_pop : (a : ℕ) (xs : List ℕ) → occurrences a (swap_pop xs) ≡ occurrences a xs
unfolding swap_pop
occurrences-swap_pop a [] = refl
occurrences-swap_pop a (x ∷ []) = refl
occurrences-swap_pop a (x ∷ y ∷ rest) =
    ground (arith, length-swap_pop (y ∷ rest), occurrences-swap_pop a (y ∷ rest))
