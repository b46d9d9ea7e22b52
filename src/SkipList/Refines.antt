-- ===== src/SkipList/Refines.antt =====
-- Each operation of the skip list beside the abstract map of src/concurrent_skip_list_map.h, in a map
-- that no other operation is at work on.
use ccmetrics.Base.{
  ℕ, suc, ◌≤◌, ◌≡◌, refl, sym, ap, ◌∙◌, Bool, true, false, List, [], ◌∷◌, ◌++◌, update, length,
  length-append, occurrences, occurrences-append, Bool-cases, inl, inr, arith,
}
use ccmetrics.SkipList.{Link, SkipList, Run, ok}
use ccmetrics.SkipList.Update.{insert, erase, random_level, clamped}
use ccmetrics.SkipList.Shape.{IsMap, IsMap-height, entries_of}
use ccmetrics.SkipList.Found.{AreBelow, Stops, hits}
use ccmetrics.SkipList.Grown.{grown, fresh, IsMap-grown}
use ccmetrics.SkipList.Inserted.{
  clamped-low, entries_of-append, entries_of-frame, insert-hit, insert-miss,
}
use ccmetrics.SkipList.Shrunk.{shrunk, IsMap-shrunk}
use ccmetrics.SkipList.Erased.{erase-hit, erase-miss}
use ccmetrics.SkipList.Cut.{by_cut, insert-cut-miss, insert-cut-hit, erase-cut-miss, erase-cut-hit}
use ccmetrics.SkipMap
use mathlib.Core.Path.{subst}

-- What an operation leaves: a map with these entries, with at most `bound` nodes.
abbrev pub Holds : {K V : Type 0} → SkipList K V → List (K × V) → (bound : ℕ) → Type 0
Holds s entries bound =
    (cs : List ℕ) × IsMap s cs × (entries_of s cs ≡ entries) × (length cs ≤ bound)

-- One operation returns what the abstract map returns, and leaves what it leaves.
abbrev pub Refines :
    {K V A : Type 0} → Run K V A → (abstract : List (K × V) × A) → (bound : ℕ) → Type 0
Refines {K} {V} r abstract bound =
    (s' : SkipList K V) × (r ≡ ok abstract.1 s') × Holds s' abstract.0 bound

update-same : {A : Type 0} (f : ℕ → A) (n : ℕ) (a : A) → update f n a n ≡ a
update-same f n a = ground arith

module _ {K V : Type 0} (lt : K → K → Bool) (fuel : ℕ) (key : K) (s : SkipList K V) where
  module _ (xs ys : List ℕ) (m : IsMap s (xs ++ ys)) (below : AreBelow lt s key xs)
      (stops : Stops lt s key ys) (enough : length (xs ++ ys) ≤ fuel) where
    short : length xs ≤ fuel
    short = omega (arith, enough, length-append xs ys)

    entries_of-grown :
        (level height : ℕ) (value : V) (h : ℕ → Link) (lc : ℕ → ℕ)
        → entries_of (grown s xs ys level height key value h lc) (xs ++ s.next_address ∷ ys)
          ≡ entries_of s xs ++ (key, value) ∷ entries_of s ys
    entries_of-grown level height value h lc =
        let n = s.next_address in
        let s' = grown s xs ys level height key value h lc in
        let same : (x : ℕ)
            → 1 ≤ occurrences x (xs ++ ys)
            → (s'.key x ≡ s.key x) × (s'.val x ≡ s.val x) =
          λ x inside.
            let old = fresh s xs ys m x (ground (arith, inside)) in
            (ground (arith, old), ground (arith, old)) in
        let front =
          entries_of-frame s s' xs
            (λ x inside. same x (omega (arith, inside, occurrences-append x xs ys))) in
        let back =
          entries_of-frame s s' ys
            (λ x inside. same x (omega (arith, inside, occurrences-append x xs ys))) in
        entries_of-append s' xs (n ∷ ys)
        ∙ ap (λ l. l ++ (s'.key n, s'.val n) ∷ entries_of s' ys) front
        ∙ ap (λ k. entries_of s xs ++ (k, s'.val n) ∷ entries_of s' ys) (update-same s.key n key)
        ∙ ap (λ v. entries_of s xs ++ (key, v) ∷ entries_of s' ys) (update-same s.val n value)
        ∙ ap (λ l. entries_of s xs ++ (key, value) ∷ l) back

    insert-hit-Refines :
        (r : ℕ) (value : V)
        → hits lt s key ys ≡ true
        → Refines
            (insert lt (suc fuel) r key value s)
            (entries_of s (xs ++ ys), false)
            (suc (length (xs ++ ys)))
    insert-hit-Refines r value hit =
        let (h, e) = insert-hit lt fuel r key value s xs ys m below stops short hit in
        (
          _,
          e,
          (
            xs ++ ys,
            IsMap-height s (xs ++ ys) _ h (clamped-low r s.height m.low).1 m,
            refl,
            omega arith,
          ),
        )

    insert-miss-Refines :
        (r : ℕ) (value : V)
        → hits lt s key ys ≡ false
        → Refines
            (insert lt (suc fuel) r key value s)
            (entries_of s xs ++ (key, value) ∷ entries_of s ys, true)
            (suc (length (xs ++ ys)))
    insert-miss-Refines r value miss =
        let (h, lc, counts, e) = insert-miss lt fuel r key value s xs ys m below stops short miss in
        let n = s.next_address in
        let (level, height) = clamped (random_level r) s.height in
        let s' = grown s xs ys level height key value h lc in
        (
          s',
          e,
          (
            xs ++ n ∷ ys,
            IsMap-grown s xs ys m level height key value h lc (clamped-low r s.height m.low).1
                counts,
            entries_of-grown level height value h lc,
            omega (arith, length-append xs (n ∷ ys), length-append xs ys),
          ),
        )

    erase-miss-Refines :
        hits lt s key ys ≡ false
        → Refines (erase lt (suc fuel) key s) (entries_of s (xs ++ ys), false) (length (xs ++ ys))
    erase-miss-Refines miss =
        let (h, e) = erase-miss lt fuel key s xs below short ys m stops miss in
        (_, e, (xs ++ ys, IsMap-height s (xs ++ ys) s.height h m.low m, refl, omega arith))

  module _ (xs : List ℕ) (c : ℕ) (ys : List ℕ) (m : IsMap s (xs ++ c ∷ ys))
      (below : AreBelow lt s key xs) (stops : Stops lt s key (c ∷ ys))
      (enough : length (xs ++ c ∷ ys) ≤ fuel) where
    erase-hit-Refines :
        hits lt s key (c ∷ ys) ≡ true
        → Refines
            (erase lt (suc fuel) key s)
            (entries_of s (xs ++ ys), true)
            (length (xs ++ c ∷ ys))
    erase-hit-Refines hit =
        let (next, h, marks, e) =
          erase-hit lt fuel key s xs below (omega (arith, enough, length-append xs (c ∷ ys))) c ys m
            stops hit in
        (
          shrunk s xs c next h,
          e,
          (
            xs ++ ys,
            IsMap-shrunk s xs c ys m next h marks,
            entries_of-frame s (shrunk s xs c next h) (xs ++ ys) (λ x inside. (refl, refl)),
            omega (arith, length-append xs (c ∷ ys), length-append xs ys),
          ),
        )

  -- `insert` is the insertion of the abstract map.
  pub insert-Refines :
      (r : ℕ) (value : V) (cs : List ℕ)
      → IsMap s cs
      → length cs ≤ fuel
      → Refines
          (insert lt (suc fuel) r key value s)
          (SkipMap.insert lt key value (entries_of s cs))
          (suc (length cs))
  insert-Refines r value =
      by_cut lt s key
        (λ cs.
          IsMap s cs
          → length cs ≤ fuel
          → Refines (insert lt (suc fuel) r key value s)
              (SkipMap.insert lt key value (entries_of s cs)) (suc (length cs)))
        (λ xs ys below stops m enough.
          let goal = λ (p : List (K × V) × Bool).
            Refines (insert lt (suc fuel) r key value s) p (suc (length (xs ++ ys))) in
          elim (Bool-cases (hits lt s key ys)) [
            | inl hit ↦
                subst goal (sym (insert-cut-hit lt s key value xs ys below stops hit))
                  (insert-hit-Refines xs ys m below stops enough r value hit)
            | inr miss ↦
                subst goal (sym (insert-cut-miss lt s key value xs ys below stops miss))
                  (insert-miss-Refines xs ys m below stops enough r value miss)
          ])

  erase-found-Refines :
      (xs ys : List ℕ)
      → IsMap s (xs ++ ys)
      → AreBelow lt s key xs
      → Stops lt s key ys
      → length (xs ++ ys) ≤ fuel
      → hits lt s key ys ≡ true
      → Refines
          (erase lt (suc fuel) key s)
          (SkipMap.erase lt key (entries_of s (xs ++ ys)))
          (length (xs ++ ys))
  erase-found-Refines xs [] m below stops enough hit = ground (arith, hit)
  erase-found-Refines xs (c ∷ ys) m below stops enough hit =
      subst (λ p. Refines (erase lt (suc fuel) key s) p (length (xs ++ c ∷ ys)))
        (sym (erase-cut-hit lt s key xs c ys below stops hit))
        (erase-hit-Refines xs c ys m below stops enough hit)

  -- `erase` is the erasure of the abstract map.
  pub erase-Refines :
      (cs : List ℕ)
      → IsMap s cs
      → length cs ≤ fuel
      → Refines (erase lt (suc fuel) key s) (SkipMap.erase lt key (entries_of s cs)) (length cs)
  erase-Refines =
      by_cut lt s key
        (λ cs.
          IsMap s cs
          → length cs ≤ fuel
          → Refines (erase lt (suc fuel) key s) (SkipMap.erase lt key (entries_of s cs))
              (length cs))
        (λ xs ys below stops m enough. elim (Bool-cases (hits lt s key ys)) [
          | inl hit ↦ erase-found-Refines xs ys m below stops enough hit
          | inr miss ↦
              subst (λ p. Refines (erase lt (suc fuel) key s) p (length (xs ++ ys)))
                (sym (erase-cut-miss lt s key xs ys below stops miss))
                (erase-miss-Refines xs ys m below stops enough miss)
        ])
