-- ===== src/SkipList/Paths.antt =====
-- Lists of nodes behind a change of a pointer.
use ccmetrics.Base.{
  ℕ, ◌≤◌, ◌≡◌, ◌∙◌, false, List, [], ◌∷◌, ◌++◌, ◌==◌, Bool-cases, inl, inr, occurrences, arith,
}
use ccmetrics.SkipList.{Link, null, SkipList}
use ccmetrics.SkipList.Walks.{Alive}
use ccmetrics.SkipList.Shape.{head_link, last, Leads, AllAlive}

pub occurrences-last : (a : ℕ) (xs : List ℕ) → 1 ≤ occurrences (last a xs) (a ∷ xs)
occurrences-last a [] = ground arith
occurrences-last a (x ∷ xs) = omega (arith, occurrences-last x xs)

pub occurrences-apart :
    (a b : ℕ) (xs : List ℕ) → occurrences a xs ≡ 0 → 1 ≤ occurrences b xs → (a == b) ≡ false
occurrences-apart a b [] out inside = ground (arith, inside)
occurrences-apart a b (x ∷ xs) out inside = elim (Bool-cases (x == b)) [
  | inl e ↦ ground (arith, out, e)
  | inr e ↦ occurrences-apart a b xs (omega (arith, out)) (ground (arith, inside, e))
]

module _ {K V : Type 0} (s s' : SkipList K V) where
  -- A path reads only the pointers of its nodes.
  pub Leads-frame :
      (a : ℕ) (cs : List ℕ) (l : Link)
      → ((x : ℕ) → 1 ≤ occurrences x (a ∷ cs) → s'.next x 0 ≡ s.next x 0)
      → Leads s a cs l
      → Leads s' a cs l
  Leads-frame a [] l same e = same a (ground arith) ∙ e
  Leads-frame a (c ∷ cs) l same (e, p) =
      (same a (ground arith) ∙ e, Leads-frame c cs l (λ x h. same x (omega (arith, h))) p)

  -- Another node takes the place of the first.
  pub Leads-moved :
      (a b : ℕ) (cs : List ℕ)
      → s'.next b 0 ≡ head_link cs null
      → ((x : ℕ) → 1 ≤ occurrences x cs → s'.next x 0 ≡ s.next x 0)
      → Leads s a cs null
      → Leads s' b cs null
  Leads-moved a b [] at same e = at
  Leads-moved a b (c ∷ cs) at same (e, p) = (at, Leads-frame c cs null same p)

  -- The last node of the path gets another pointer.
  pub Leads-reroute :
      (a : ℕ) (xs : List ℕ) (l l' : Link)
      → ((x : ℕ) → occurrences x (a ∷ xs) ≤ 1)
      → ((x : ℕ) → 1 ≤ occurrences x (a ∷ xs) → (x == last a xs) ≡ false → s'.next x 0 ≡ s.next x 0)
      → s'.next (last a xs) 0 ≡ l'
      → Leads s a xs l
      → Leads s' a xs l'
  Leads-reroute a [] l l' once same at p = at
  Leads-reroute a (x ∷ xs) l l' once same at (e, p) = (
    same a (ground arith) (
          occurrences-apart a (last x xs) (x ∷ xs) (ground (arith, once a)) (occurrences-last x xs))
        ∙ e,
    Leads-reroute x xs l l' (λ y. omega (arith, once y)) (λ y h. same y (omega (arith, h))) at p,
  )

  pub AllAlive-frame :
      (cs : List ℕ)
      → ((x : ℕ) → 1 ≤ occurrences x cs → Alive s x → Alive s' x)
      → AllAlive s cs
      → AllAlive s' cs
  AllAlive-frame [] same p = p
  AllAlive-frame (c ∷ cs) same (e, p) =
      (same c (ground arith) e, AllAlive-frame cs (λ x h. same x (omega (arith, h))) p)

pub AllAlive-join :
    {K V : Type 0} (s : SkipList K V) (xs ys : List ℕ)
    → AllAlive s xs
    → AllAlive s ys
    → AllAlive s (xs ++ ys)
AllAlive-join s [] ys p q = q
AllAlive-join s (x ∷ xs) ys (e, p) q = (e, AllAlive-join s xs ys p q)
