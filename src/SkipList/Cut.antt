-- ===== src/SkipList/Cut.antt =====
-- The list at level 0 cut at a key, and the abstract operations on its entries.
use ccmetrics.Base.{
  ℕ, ◌≡◌, refl, sym, ap, Bool, true, false, List, [], ◌∷◌, ◌++◌, Option, none, some, if◌then◌else◌,
  Bool-cases, inl, inr, arith,
}
use mathlib.Core.Path.{subst}
use ccmetrics.SkipList.{SkipList}
use ccmetrics.SkipList.Shape.{entries_of}
use ccmetrics.SkipList.Found.{AreBelow, Stops, hits}
use ccmetrics.SkipMap

-- The value at the front.
abbrev pub front_value : {K V : Type 0} → SkipList K V → List ℕ → Option V
front_value s [] = none
front_value s (c ∷ cs) = some (s.val c)

module _ {K V : Type 0} (lt : K → K → Bool) (s : SkipList K V) (key : K) where
  pub cut :
      (cs : List ℕ) → (xs ys : List ℕ) × (cs ≡ xs ++ ys) × AreBelow lt s key xs × Stops lt s key ys
  cut [] = ([], [], refl, tt, tt)
  cut (c ∷ cs) = elim (Bool-cases (lt (s.key c) key)) [
    | inl e ↦
        (let (xs, ys, split, below, stops) = cut cs in
          (c ∷ xs, ys, ap (λ l. c ∷ l) split, (e, below), stops))
    | inr e ↦ ([], c ∷ cs, refl, tt, e)
  ]

  -- What holds of every list cut at the key holds of every list.
  pub by_cut :
      (P : List ℕ → Type 0)
      → ((xs ys : List ℕ) → AreBelow lt s key xs → Stops lt s key ys → P (xs ++ ys))
      → (cs : List ℕ) → P cs
  by_cut P step cs =
      let (xs, ys, split, below, stops) = cut cs in subst P (sym split) (step xs ys below stops)

  pub insert-cut-miss :
      (value : V) (xs ys : List ℕ)
      → AreBelow lt s key xs
      → Stops lt s key ys
      → hits lt s key ys ≡ false
      → SkipMap.insert lt key value (entries_of s (xs ++ ys))
        ≡ (entries_of s xs ++ (key, value) ∷ entries_of s ys, true)
  unfolding SkipMap.insert
  insert-cut-miss value [] [] below stops miss = refl
  insert-cut-miss value [] (y ∷ ys) below stops miss = ground (arith, stops, miss)
  insert-cut-miss value (x ∷ xs) ys (b, below) stops miss =
      ground (arith, b, insert-cut-miss value xs ys below stops miss)

  pub insert-cut-hit :
      (value : V) (xs ys : List ℕ)
      → AreBelow lt s key xs
      → Stops lt s key ys
      → hits lt s key ys ≡ true
      → SkipMap.insert lt key value (entries_of s (xs ++ ys)) ≡ (entries_of s (xs ++ ys), false)
  unfolding SkipMap.insert
  insert-cut-hit value [] [] below stops hit = ground (arith, hit)
  insert-cut-hit value [] (y ∷ ys) below stops hit = ground (arith, stops, hit)
  insert-cut-hit value (x ∷ xs) ys (b, below) stops hit =
      ground (arith, b, insert-cut-hit value xs ys below stops hit)

  pub erase-cut-miss :
      (xs ys : List ℕ)
      → AreBelow lt s key xs
      → Stops lt s key ys
      → hits lt s key ys ≡ false
      → SkipMap.erase lt key (entries_of s (xs ++ ys)) ≡ (entries_of s (xs ++ ys), false)
  unfolding SkipMap.erase
  erase-cut-miss [] [] below stops miss = refl
  erase-cut-miss [] (y ∷ ys) below stops miss = ground (arith, stops, miss)
  erase-cut-miss (x ∷ xs) ys (b, below) stops miss =
      ground (arith, b, erase-cut-miss xs ys below stops miss)

  pub erase-cut-hit :
      (xs : List ℕ) (c : ℕ) (ys : List ℕ)
      → AreBelow lt s key xs
      → Stops lt s key (c ∷ ys)
      → hits lt s key (c ∷ ys) ≡ true
      → SkipMap.erase lt key (entries_of s (xs ++ c ∷ ys)) ≡ (entries_of s (xs ++ ys), true)
  unfolding SkipMap.erase
  erase-cut-hit [] c ys below stops hit = ground (arith, stops, hit)
  erase-cut-hit (x ∷ xs) c ys (b, below) stops hit =
      ground (arith, b, erase-cut-hit xs c ys below stops hit)

  pub find-cut :
      (xs ys : List ℕ)
      → AreBelow lt s key xs
      → Stops lt s key ys
      → SkipMap.find lt key (entries_of s (xs ++ ys))
        ≡ (if hits lt s key ys then front_value s ys else none)
  unfolding SkipMap.find
  find-cut [] [] below stops = refl
  find-cut [] (y ∷ ys) below stops = ground (arith, stops)
  find-cut (x ∷ xs) ys (b, below) stops = ground (arith, b, find-cut xs ys below stops)

  pub exists-cut :
      (xs ys : List ℕ)
      → AreBelow lt s key xs
      → Stops lt s key ys
      → SkipMap.exists lt key (entries_of s (xs ++ ys)) ≡ hits lt s key ys
  unfolding SkipMap.exists
  exists-cut xs [] below stops = ground (arith, find-cut xs [] below stops)
  exists-cut xs (y ∷ ys) below stops = ground (arith, find-cut xs (y ∷ ys) below stops)
