-- ===== src/SkipList/Keys.antt =====
-- The keys of a list of nodes, behind a change of the map elsewhere.
use ccmetrics.Base.{ℕ, ◌≤◌, ◌≡◌, refl, ap, ◌∙◌, Bool, not, List, [], ◌∷◌, occurrences, arith}
use ccmetrics.SkipList.{SkipList}
use ccmetrics.SkipList.Found.{AreBelow, Stops, hits}

module _ {K V : Type 0} (lt : K → K → Bool) where
  -- The tests on the keys read only the keys of the nodes.
  pub AreBelow-frame :
      (s s' : SkipList K V) (key : K) (xs : List ℕ)
      → ((x : ℕ) → 1 ≤ occurrences x xs → s'.key x ≡ s.key x)
      → AreBelow lt s key xs
      → AreBelow lt s' key xs
  AreBelow-frame s s' key [] same p = p
  AreBelow-frame s s' key (x ∷ xs) same (e, p) = (
    ap (λ k. lt k key) (same x (ground arith)) ∙ e,
    AreBelow-frame s s' key xs (λ y inside. same y (omega (arith, inside))) p,
  )

  pub Stops-frame :
      (s s' : SkipList K V) (key : K) (ys : List ℕ)
      → ((x : ℕ) → 1 ≤ occurrences x ys → s'.key x ≡ s.key x)
      → Stops lt s key ys
      → Stops lt s' key ys
  Stops-frame s s' key [] same p = p
  Stops-frame s s' key (y ∷ ys) same p = ap (λ k. lt k key) (same y (ground arith)) ∙ p

  pub hits-frame :
      (s s' : SkipList K V) (key : K) (ys : List ℕ)
      → ((x : ℕ) → 1 ≤ occurrences x ys → s'.key x ≡ s.key x)
      → hits lt s' key ys ≡ hits lt s key ys
  hits-frame s s' key [] same = refl
  hits-frame s s' key (y ∷ ys) same = ap (λ k. not (lt key k)) (same y (ground arith))
