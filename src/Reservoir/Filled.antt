-- ===== src/Reservoir/Filled.antt =====
-- src/metrics/exponential_reservoir.cc: a new reservoir that values are entered into, over its skip list.
use ccmetrics.Base.{
  ℕ, suc, ◌+◌, ◌≤◌, ◌≡◌, refl, sym, ap, ◌∙◌, List, [], ◌∷◌, Option, none, some, length, arith,
}
use ccmetrics.Double.{Double, IsOrdered}
use ccmetrics.SkipList.{SkipList, Cmd, and_then, pure, ◌>>=◌}
use ccmetrics.SkipList.Traverse.{new_map}
use ccmetrics.SkipList.Sequence.{new_map-IsMap}
use ccmetrics.SkipList.Shape.{IsMap, entries_of}
use ccmetrics.SkipList.Refines.{Refines}
use ccmetrics.Reservoir.{size_limit, put}
use ccmetrics.Reservoir.Bounded.{put-total}
use ccmetrics.Reservoir.Concrete.{put_run, put-Refines, done-Refines}

-- An entry, with the number that `randomLevel` draws for its node.
pub record Draw (F : Type 0) : Type 0 where
  pub level : ℕ
  pub priority : F
  pub sample : ℕ

-- The entries one after the other: by the abstract map, and by calls of the skip list.
module _ (d : Double) (alpha : d.F) where
  abbrev pub puts : (count : ℕ) → List (Draw d.F) → List (d.F × ℕ) → Option (List (d.F × ℕ))
  puts count [] m = some m
  puts count (x ∷ xs) m = elim (put d alpha count x.priority x.sample m) [
    | none ↦ none
    | some m' ↦ puts (count + 1) xs m'
  ]

  abbrev pub put_runs : (fuel count : ℕ) → List (Draw d.F) → Cmd d.F ℕ Unit
  put_runs fuel count [] = pure tt
  put_runs fuel count (x ∷ xs) =
      put_run d alpha fuel x.level count x.priority x.sample >>= λ _. put_runs fuel (count + 1) xs

-- The calls succeed, as the abstract map says, within `kSize` entries.
abbrev pub Fills :
    (d : Double) (alpha : d.F) (fuel count : ℕ)
    → List (Draw d.F)
    → SkipList d.F ℕ
    → List (d.F × ℕ)
    → (bound : ℕ) → Type 0
Fills d alpha fuel count xs s entries bound =
    (m : List (d.F × ℕ)) × (puts d alpha count xs entries ≡ some m)
    × Refines (put_runs d alpha fuel count xs s) (m, tt) bound
    × (length m ≤ size_limit)

module _ (d : Double) (alpha : d.F) (o : IsOrdered d) (fuel : ℕ) where
  put_runs-Fills :
      (xs : List (Draw d.F)) (count : ℕ) (s : SkipList d.F ℕ) (cs : List ℕ) (bound : ℕ)
      → IsMap s cs
      → length (entries_of s cs) ≤ size_limit
      → length (entries_of s cs) ≤ count
      → length cs + length xs ≤ bound
      → bound ≤ fuel
      → Fills d alpha (suc fuel) count xs s (entries_of s cs) bound
  put_runs-Fills [] count s cs bound m full counted short enough = (
    entries_of s cs,
    refl,
    done-Refines s cs tt bound (entries_of s cs) m (omega (arith, short)) refl,
    full,
  )
  put_runs-Fills (x ∷ xs) count s cs bound m full counted short enough =
      let (m1, got, full1, counted1) =
        put-total d alpha o count x.priority x.sample (entries_of s cs) full counted in
      let (s1, e1, (cs1, is1, held1, short1)) =
        put-Refines d alpha fuel x.level count x.priority x.sample s cs m1 m
          (omega (arith, short, enough)) got in
      let (m2, got2, (s2, e2, held2), full2) =
        put_runs-Fills xs (count + 1) s1 cs1 bound is1 (omega (arith, ap length held1, full1))
          (omega (arith, ap length held1, counted1)) (omega (arith, short1, short)) enough in
      let onward : Option (List (d.F × ℕ)) → Option (List (d.F × ℕ)) =
        λ r. elim r [ none ↦ none | some m' ↦ puts d alpha (count + 1) xs m' ] in
      let all = ap onward got ∙ ap (puts d alpha (count + 1) xs) (sym held1) ∙ got2 in
      let calls = ap (λ t. and_then t (λ _. put_runs d alpha (suc fuel) (count + 1) xs)) e1 ∙ e2 in
      (m2, all, (s2, calls, held2), full2)

  -- Values entered into a new reservoir, with any priorities and any levels drawn, by one thread and
  -- before the first rescaling: the calls of the skip list, with more fuel than there are values,
  -- never use a freed node and never run out of fuel, they leave in it what the abstract map has, and
  -- that is at most `kSize` entries.
  pub put_runs-new_map :
      (xs : List (Draw d.F))
      → length xs ≤ fuel
      → Fills d alpha (suc fuel) 0 xs (new_map d.zero_f 0) [] (length xs)
  put_runs-new_map xs enough =
      put_runs-Fills xs 0 (new_map d.zero_f 0) [] (length xs) (new_map-IsMap d.lt d.zero_f 0)
        (omega arith) (omega arith) (omega arith) enough
