-- ===== src/Reservoir/Concrete.antt =====
-- src/metrics/exponential_reservoir.cc over the skip list of src/concurrent_skip_list_map.h, by one thread.
use ccmetrics.Base.{
  ℕ, zero, suc, ◌≤◌, ◌≡◌, refl, sym, ap, ◌∙◌, Bool, false, List, [], ◌∷◌, some, ltb, length,
  Bool-cases, inl, inr, if◌then◌else◌, if-both, arith,
}
use mathlib.Core.Path.{subst}
use ccmetrics.Double.{Double}
use ccmetrics.SkipMap
use ccmetrics.SkipList.{SkipList, Run, Cmd, out_of_fuel, and_then, pure, ◌>>=◌}
use ccmetrics.SkipList.Update.{insert, erase}
use ccmetrics.SkipList.Traverse.{first_key}
use ccmetrics.SkipList.Walks.{with_hazard}
use ccmetrics.SkipList.Shape.{IsMap, IsMap-height, entries_of}
use ccmetrics.SkipList.Traversed.{first_key-result}
use ccmetrics.SkipList.Refines.{Refines, insert-Refines, erase-Refines}
use ccmetrics.Reservoir.{size_limit, rounds, evict, replace_first, put}

-- The loop of `update` that evicts, and what stands around it, as calls of the skip list, each
-- with the fuel `fuel`; `r` is the number that `randomLevel` draws.
module _ (d : Double) (alpha : d.F) (fuel : ℕ) where
  abbrev pub evict_run : ℕ → d.F → Cmd d.F ℕ Unit
  evict_run zero first = λ s. out_of_fuel
  evict_run (suc n) first =
      let again = first_key d.zero_f >>= evict_run n in
      erase d.lt fuel first >>= λ done. if done then pure tt else again

  abbrev pub replace_run : (r : ℕ) → d.F → ℕ → Cmd d.F ℕ Unit
  replace_run r priority value = first_key d.zero_f >>= λ first.
      if d.lt first priority
      then (insert d.lt fuel r priority value >>= λ done.
          if done then evict_run (rounds d alpha) first else pure tt)
      else pure tt

  abbrev pub put_run : (r count : ℕ) → d.F → ℕ → Cmd d.F ℕ Unit
  put_run r count priority value =
      if ltb count size_limit
      then (insert d.lt fuel r priority value >>= λ _. pure tt)
      else replace_run r priority value

-- One call after the other.
pub then-Refines :
    {A B : Type 0} {K V : Type 0} (r : Run K V A) (f : A → Cmd K V B) (p : List (K × V) × A)
    (q : List (K × V) × B) (bound bound' : ℕ)
    → Refines r p bound
    → ((s : SkipList K V) (cs : List ℕ)
        → IsMap s cs
        → entries_of s cs ≡ p.0
        → length cs ≤ bound
        → Refines (f p.1 s) q bound')
    → Refines (and_then r f) q bound'
then-Refines r f p q bound bound' (s, e, (cs, m, held, short)) next =
    subst (λ t. Refines (and_then t f) q bound') (sym e) (next s cs m held short)

pub done-Refines :
    {K V A : Type 0} (s : SkipList K V) (cs : List ℕ) (a : A) (bound : ℕ) (entries : List (K × V))
    → IsMap s cs
    → length cs ≤ bound
    → entries_of s cs ≡ entries
    → Refines (pure a s) (entries, a) bound
done-Refines s cs a bound entries m short held = (s, refl, (cs, m, held, short))

first_key-Refines :
    {K V : Type 0} (default : K) (s : SkipList K V) (cs : List ℕ)
    → IsMap s cs
    → Refines
        (first_key default s)
        (entries_of s cs, SkipMap.first_key default (entries_of s cs))
        (length cs)
first_key-Refines default s cs m =
    let (h, e) = first_key-result default cs s m in
    (with_hazard s h, e, (cs, IsMap-height s cs s.height h m.low m, refl, omega arith))

-- An erasure that finds nothing changes nothing.
erase-kept :
    {K V : Type 0} (lt : K → K → Bool) (k : K) (m : List (K × V))
    → (SkipMap.erase lt k m).1 ≡ false
    → (SkipMap.erase lt k m).0 ≡ m
unfolding SkipMap.erase
erase-kept lt k [] none_there = refl
erase-kept {K} {V} lt k ((j, w) ∷ m) none_there =
    let kept = λ (q : List (K × V) × Bool). q.1 ≡ false → q.0 ≡ (j, w) ∷ m in
    if-both kept (lt j k) (λ _ h. ap (λ l. (j, w) ∷ l) (erase-kept lt k m h))
      (λ _. if-both kept (lt k j) (λ _ _. refl) (λ _ h. absurd (ground (arith, h)))) none_there

module _ (d : Double) (alpha : d.F) (fuel : ℕ) where
  evict-Refines :
      (n : ℕ) (first : d.F) (s : SkipList d.F ℕ) (cs : List ℕ) (bound : ℕ) (m' : List (d.F × ℕ))
      → IsMap s cs
      → length cs ≤ bound
      → bound ≤ fuel
      → evict d alpha n first (entries_of s cs) ≡ some m'
      → Refines (evict_run d alpha (suc fuel) n first s) (m', tt) bound
  unfolding evict
  evict-Refines zero first s cs bound m' m short enough e = absurd cc
  evict-Refines (suc n) first s cs bound m' m short enough e =
      let entries = entries_of s cs in
      let p = SkipMap.erase d.lt first entries in
      let later = evict d alpha n (SkipMap.first_key d.zero_f entries) entries in
      let again = first_key d.zero_f >>= evict_run d alpha (suc fuel) n in
      then-Refines (erase d.lt (suc fuel) first s) (λ done. if done then pure tt else again) p
        (m', tt) (length cs) bound
        (erase-Refines d.lt fuel first s cs m (omega (arith, short, enough)))
        (λ s1 cs1 m1 held1 short1. elim (Bool-cases p.1) [
          | inl gone ↦
              let whole : some p.0 ≡ some m' =
                ap (λ b. if b then some p.0 else later) (sym gone) ∙ e in
              let same : p.0 ≡ m' = cc in
              subst (λ b. Refines ((if b then pure tt else again) s1) (m', tt) bound) (sym gone)
                (done-Refines s1 cs1 tt bound m' m1 (omega (arith, short, short1)) (held1 ∙ same))
          | inr kept ↦
              let next : later ≡ some m' = ap (λ b. if b then some p.0 else later) (sym kept) ∙ e in
              let unchanged = held1 ∙ erase-kept d.lt first entries kept in
              subst (λ b. Refines ((if b then pure tt else again) s1) (m', tt) bound) (sym kept)
                (then-Refines (first_key d.zero_f s1) (evict_run d alpha (suc fuel) n)
                  (entries_of s1 cs1, SkipMap.first_key d.zero_f (entries_of s1 cs1)) (m', tt)
                  (length cs1) bound (first_key-Refines d.zero_f s1 cs1 m1)
                  (λ s2 cs2 m2 held2 short2.
                    evict-Refines n (SkipMap.first_key d.zero_f (entries_of s1 cs1)) s2 cs2 bound m'
                      m2 (omega (arith, short, short1, short2)) enough
                      ((λ i.
                          evict d alpha n (SkipMap.first_key d.zero_f (unchanged i))
                            ((held2 ∙ unchanged) i))
                        ∙ next)))
        ])

  -- The insertion of an entry, in the map that is there.
  insert-here :
      (r : ℕ) (priority : d.F) (value : ℕ) (s : SkipList d.F ℕ) (cs : List ℕ)
      (entries : List (d.F × ℕ))
      → IsMap s cs
      → entries_of s cs ≡ entries
      → length cs ≤ fuel
      → Refines
          (insert d.lt (suc fuel) r priority value s)
          (SkipMap.insert d.lt priority value entries)
          (suc (length cs))
  insert-here r priority value s cs entries m held enough =
      subst
        (λ es.
          Refines (insert d.lt (suc fuel) r priority value s)
            (SkipMap.insert d.lt priority value es) (suc (length cs)))
        held (insert-Refines d.lt fuel priority s r value cs m enough)

  insert-then :
      (r : ℕ) (priority : d.F) (value : ℕ) (s : SkipList d.F ℕ) (cs : List ℕ)
      (entries : List (d.F × ℕ)) (first : d.F) (bound : ℕ) (m' : List (d.F × ℕ))
      → IsMap s cs
      → entries_of s cs ≡ entries
      → suc (length cs) ≤ bound
      → bound ≤ fuel
      → (if (SkipMap.insert d.lt priority value entries).1
          then evict d alpha (rounds d alpha) first (SkipMap.insert d.lt priority value entries).0
          else some (SkipMap.insert d.lt priority value entries).0)
        ≡ some m'
      → Refines
          (and_then
            (insert d.lt (suc fuel) r priority value s)
            (λ done. if done then evict_run d alpha (suc fuel) (rounds d alpha) first else pure tt))
          (m', tt)
          bound
  insert-then r priority value s cs entries first bound m' m held short enough e =
      let q = SkipMap.insert d.lt priority value entries in
      let out = evict d alpha (rounds d alpha) first q.0 in
      let loop = evict_run d alpha (suc fuel) (rounds d alpha) first in
      then-Refines (insert d.lt (suc fuel) r priority value s)
        (λ done. if done then loop else pure tt) q (m', tt) (suc (length cs)) bound
        (insert-here r priority value s cs entries m held (omega (arith, short, enough)))
        (λ s1 cs1 m1 held1 short1. elim (Bool-cases q.1) [
          | inl new ↦
              let goes : out ≡ some m' = ap (λ b. if b then out else some q.0) (sym new) ∙ e in
              subst (λ b. Refines ((if b then loop else pure tt) s1) (m', tt) bound) (sym new)
                (evict-Refines (rounds d alpha) first s1 cs1 bound m' m1
                  (omega (arith, short, short1)) enough
                  (ap (λ es. evict d alpha (rounds d alpha) first es) held1 ∙ goes))
          | inr old ↦
              let whole : some q.0 ≡ some m' =
                ap (λ b. if b then out else some q.0) (sym old) ∙ e in
              let same : q.0 ≡ m' = cc in
              subst (λ b. Refines ((if b then loop else pure tt) s1) (m', tt) bound) (sym old)
                (done-Refines s1 cs1 tt bound m' m1 (omega (arith, short, short1)) (held1 ∙ same))
        ])

  replace-Refines :
      (r : ℕ) (priority : d.F) (value : ℕ) (s : SkipList d.F ℕ) (cs : List ℕ) (m' : List (d.F × ℕ))
      → IsMap s cs
      → suc (length cs) ≤ fuel
      → replace_first d alpha priority value (entries_of s cs) ≡ some m'
      → Refines (replace_run d alpha (suc fuel) r priority value s) (m', tt) (suc (length cs))
  unfolding replace_first
  replace-Refines r priority value s cs m' m enough e =
      let entries = entries_of s cs in
      let first = SkipMap.first_key d.zero_f entries in
      let q = SkipMap.insert d.lt priority value entries in
      let out = if q.1 then evict d alpha (rounds d alpha) first q.0 else some q.0 in
      let yes_run = λ (f : d.F). insert d.lt (suc fuel) r priority value >>= λ done.
      if done then evict_run d alpha (suc fuel) (rounds d alpha) f else pure tt in
      then-Refines (first_key d.zero_f s) (λ f. if d.lt f priority then yes_run f else pure tt)
        (entries, first) (m', tt) (length cs) (suc (length cs)) (first_key-Refines d.zero_f s cs m)
        (λ s1 cs1 m1 held1 short1. elim (Bool-cases (d.lt first priority)) [
          | inl above ↦
              let goes : out ≡ some m' =
                ap (λ b. if b then out else some entries) (sym above) ∙ e in
              subst
                (λ b.
                  Refines ((if b then yes_run first else pure tt) s1) (m', tt) (suc (length cs)))
                (sym above)
                (insert-then r priority value s1 cs1 entries first (suc (length cs)) m' m1 held1
                  (omega (arith, short1)) enough goes)
          | inr below ↦
              let whole : some entries ≡ some m' =
                ap (λ b. if b then out else some entries) (sym below) ∙ e in
              let same : entries ≡ m' = cc in
              subst
                (λ b.
                  Refines ((if b then yes_run first else pure tt) s1) (m', tt) (suc (length cs)))
                (sym below)
                (done-Refines s1 cs1 tt (suc (length cs)) m' m1 (omega (arith, short1))
                  (held1 ∙ same))
        ])

  pub put-Refines :
      (r count : ℕ) (priority : d.F) (value : ℕ) (s : SkipList d.F ℕ) (cs : List ℕ)
      (m' : List (d.F × ℕ))
      → IsMap s cs
      → suc (length cs) ≤ fuel
      → put d alpha count priority value (entries_of s cs) ≡ some m'
      → Refines (put_run d alpha (suc fuel) r count priority value s) (m', tt) (suc (length cs))
  unfolding put
  put-Refines r count priority value s cs m' m enough e =
      let q = SkipMap.insert d.lt priority value (entries_of s cs) in
      let out = replace_first d alpha priority value (entries_of s cs) in
      let run = insert d.lt (suc fuel) r priority value >>= λ _. pure tt in
      let replace = replace_run d alpha (suc fuel) r priority value in
      elim (Bool-cases (ltb count size_limit)) [
        | inl room ↦
            let whole : some q.0 ≡ some m' = ap (λ b. if b then some q.0 else out) (sym room) ∙ e in
            let same : q.0 ≡ m' = cc in
            subst (λ b. Refines ((if b then run else replace) s) (m', tt) (suc (length cs)))
              (sym room)
              (then-Refines (insert d.lt (suc fuel) r priority value s) (λ _. pure tt) q (m', tt)
                (suc (length cs)) (suc (length cs))
                (insert-here r priority value s cs (entries_of s cs) m refl (omega (arith, enough)))
                (λ s1 cs1 m1 held1 short1.
                  done-Refines s1 cs1 tt (suc (length cs)) m' m1 short1 (held1 ∙ same)))
        | inr full ↦
            let goes : out ≡ some m' = ap (λ b. if b then some q.0 else out) (sym full) ∙ e in
            subst (λ b. Refines ((if b then run else replace) s) (m', tt) (suc (length cs)))
              (sym full) (replace-Refines r priority value s cs m' m enough goes)
      ]
