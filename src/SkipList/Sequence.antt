-- ===== src/SkipList/Sequence.antt =====
-- Sequences of operations of ConcurrentSkipListMap, by one thread.
use ccmetrics.Base.{
  ℕ, suc, ◌+◌, ◌≤◌, ◌≡◌, refl, ap, ◌∙◌, Bool, ◌&&◌, List, [], ◌∷◌, map, Option, ltb, leb,
  if◌then◌else◌, length, occurrences, arith,
}
use ccmetrics.SkipList.{Link, null, marked_null, SkipList, Run, Cmd, ok, and_then, pure, ◌>>=◌}
use ccmetrics.SkipList.Update.{find_value, exists, insert, erase}
use ccmetrics.SkipList.Traverse.{new_map, first_key, values, entries, destroy}
use ccmetrics.SkipList.Walks.{with_hazard}
use ccmetrics.SkipList.Shape.{Leads, IsMap, IsMap-height, entries_of}
use ccmetrics.SkipList.Looked.{find_value-result, exists-result}
use ccmetrics.SkipList.Traversed.{first_key-result, values-result, entries-result}
use ccmetrics.SkipList.Freed.{destroy-result}
use ccmetrics.SkipList.Refines.{Refines, insert-Refines, erase-Refines}
use ccmetrics.SkipMap
use mathlib.Core.Path.{subst}

-- A call; `r` is the number that `randomLevel` draws.
pub data Op (K V : Type 0) : Type 0 where
  insert_op : (r : ℕ) → K → V → Op K V
  erase_op : K → Op K V
  find_op : K → Op K V
  exists_op : K → Op K V
  first_key_op : Op K V
  values_op : Op K V
  entries_op : Op K V

-- What a call returns.
pub data Outcome (K V : Type 0) : Type 0 where
  done : Bool → Outcome K V
  looked_up : Option V → Outcome K V
  first : K → Outcome K V
  listed_values : List V → Outcome K V
  listed : List (K × V) → Outcome K V

module _ {K V : Type 0} (lt : K → K → Bool) (default : K) where
  abbrev pub run_op : ℕ → Op K V → Cmd K V (Outcome K V)
  run_op fuel (insert_op r k v) = do b ← insert lt fuel r k v; pure (done b)
  run_op fuel (erase_op k) = do b ← erase lt fuel k; pure (done b)
  run_op fuel (find_op k) = do v ← find_value lt fuel k; pure (looked_up v)
  run_op fuel (exists_op k) = do b ← exists lt fuel k; pure (done b)
  run_op fuel first_key_op = do k ← first_key default; pure (first k)
  run_op fuel values_op = do l ← values fuel; pure (listed_values l)
  run_op fuel entries_op = do l ← entries fuel; pure (listed l)

  abbrev pub run_ops : ℕ → List (Op K V) → Cmd K V (List (Outcome K V))
  run_ops fuel [] = pure []
  run_ops fuel (op ∷ ops) = do o ← run_op fuel op; os ← run_ops fuel ops; pure (o ∷ os)

  -- The same calls of the abstract map.
  abbrev pub abstract_op : Op K V → List (K × V) → List (K × V) × Outcome K V
  abstract_op (insert_op r k v) m = let (m', b) = SkipMap.insert lt k v m in (m', done b)
  abstract_op (erase_op k) m = let (m', b) = SkipMap.erase lt k m in (m', done b)
  abstract_op (find_op k) m = (m, looked_up (SkipMap.find lt k m))
  abstract_op (exists_op k) m = (m, done (SkipMap.exists lt k m))
  abstract_op first_key_op m = (m, first (SkipMap.first_key default m))
  abstract_op values_op m = (m, listed_values (map (λ e. e.1) m))
  abstract_op entries_op m = (m, listed m)

  abbrev pub abstract_ops : List (Op K V) → List (K × V) → List (K × V) × List (Outcome K V)
  abstract_ops [] m = (m, [])
  abstract_ops (op ∷ ops) m =
      let (m', o) = abstract_op op m in let (m'', os) = abstract_ops ops m' in (m'', o ∷ os)

Refines-map :
    {K V A B : Type 0} (f : A → B) (r : Run K V A) (p : List (K × V) × A) (bound bound' : ℕ)
    → bound ≤ bound'
    → Refines r p bound
    → Refines (and_then r (λ a. pure (f a))) (p.0, f p.1) bound'
Refines-map f r p bound bound' wide (s', e, (cs, m, held, short)) =
    (s', ap (λ t. and_then t (λ a. pure (f a))) e, (cs, m, held, omega (arith, wide, short)))

-- A call that leaves only hazards behind.
Refines-read :
    {K V A B : Type 0} (f : A → B) (r : Run K V A) (a : A) (s : SkipList K V) (cs : List ℕ)
    → IsMap s cs
    → (h : ℕ → Link) × (r ≡ ok a (with_hazard s h))
    → Refines (and_then r (λ a. pure (f a))) (entries_of s cs, f a) (suc (length cs))
Refines-read f r a s cs m (h, e) = (
  with_hazard s h,
  ap (λ t. and_then t (λ a. pure (f a))) e,
  (cs, IsMap-height s cs s.height h m.low m, refl, omega arith),
)

module _ {K V : Type 0} (lt : K → K → Bool) (default : K) where
  pub run_op-Refines :
      (fuel : ℕ) (op : Op K V) (s : SkipList K V) (cs : List ℕ)
      → IsMap s cs
      → length cs ≤ fuel
      → Refines
          (run_op lt default (suc fuel) op s)
          (abstract_op lt default op (entries_of s cs))
          (suc (length cs))
  run_op-Refines fuel (insert_op r k v) s cs m enough =
      Refines-map done (insert lt (suc fuel) r k v s) (SkipMap.insert lt k v (entries_of s cs)) _ _
        (omega arith) (insert-Refines lt fuel k s r v cs m enough)
  run_op-Refines fuel (erase_op k) s cs m enough =
      Refines-map done (erase lt (suc fuel) k s) (SkipMap.erase lt k (entries_of s cs)) (length cs)
        _ (omega arith) (erase-Refines lt fuel k s cs m enough)
  run_op-Refines fuel (find_op k) s cs m enough =
      Refines-read looked_up _ _ s cs m (find_value-result lt fuel k s cs m enough)
  run_op-Refines fuel (exists_op k) s cs m enough =
      Refines-read done _ _ s cs m (exists-result lt fuel k s cs m enough)
  run_op-Refines fuel first_key_op s cs m enough =
      Refines-read first _ _ s cs m (first_key-result default cs s m)
  run_op-Refines fuel values_op s cs m enough =
      Refines-read listed_values _ _ s cs m (values-result s fuel cs m enough)
  run_op-Refines fuel entries_op s cs m enough =
      Refines-read listed _ _ s cs m (entries-result s fuel cs m enough)

  pub run_ops-Refines :
      (fuel : ℕ) (ops : List (Op K V)) (s : SkipList K V) (cs : List ℕ)
      → IsMap s cs
      → length cs + length ops ≤ fuel
      → Refines
          (run_ops lt default (suc fuel) ops s)
          (abstract_ops lt default ops (entries_of s cs))
          (length cs + length ops)
  run_ops-Refines fuel [] s cs m enough = (s, refl, (cs, m, refl, omega arith))
  run_ops-Refines fuel (op ∷ ops) s cs m enough =
      let (s1, e1, (cs1, m1, held1, short1)) =
        run_op-Refines fuel op s cs m (omega (arith, enough)) in
      let (s2, e2, (cs2, m2, held2, short2)) =
        subst
          (λ entries.
            Refines (run_ops lt default (suc fuel) ops s1) (abstract_ops lt default ops entries)
              (length cs1 + length ops))
          held1 (run_ops-Refines fuel ops s1 cs1 m1 (omega (arith, enough, short1))) in
      let o = (abstract_op lt default op (entries_of s cs)).1 in
      (
        s2,
        ap (λ t. and_then t (λ o. run_ops lt default (suc fuel) ops >>= λ os. pure (o ∷ os))) e1
            ∙ ap (λ t. and_then t (λ os. pure (o ∷ os))) e2,
        (cs2, m2, held2, omega (arith, short1, short2)),
      )

  pub new_map-IsMap : (v : V) → IsMap (new_map default v) []
  new_map-IsMap v = record {
    path = refl;
    once = λ x. ground arith;
    alive = (refl, tt);
    named = λ x above. ground (arith, above);
    owned = λ x. ground arith;
    linked = λ x inside. omega (arith, inside);
    low = omega arith;
    tall = refl;
    bare = λ i. ground arith;
  }

  -- A sequence of calls on a new map returns what the abstract map returns, from the empty map on, and
  -- leaves a map with the same entries, when the fuel is more than the number of the calls.
  pub new_map-Refines :
      (fuel : ℕ) (ops : List (Op K V)) (v : V)
      → length ops ≤ fuel
      → Refines
          (run_ops lt default (suc fuel) ops (new_map default v))
          (abstract_ops lt default ops [])
          (length ops)
  new_map-Refines fuel ops v enough =
      let (s, e, (cs, m, held, short)) =
        run_ops-Refines fuel ops (new_map default v) [] (new_map-IsMap v) (omega (arith, enough)) in
      (s, e, (cs, m, held, omega (arith, short)))

  -- Behind a sequence of calls on a new map the index pointers of the head are still the marked null
  -- pointers of the constructor, and each node of the list is linked at one level: the index levels
  -- are never built.
  pub index-new_map :
      (fuel : ℕ) (ops : List (Op K V)) (v : V)
      → length ops ≤ fuel
      → (s : SkipList K V) × (cs : List ℕ) × (run_ops lt default (suc fuel) ops (new_map default v)
          ≡ ok (abstract_ops lt default ops []).1 s)
        × Leads s s.head cs null
        × ((i : ℕ) → s.next s.head (suc i) ≡ marked_null)
        × ((x : ℕ) → 1 ≤ occurrences x cs → s.link_count x ≡ 1)
  index-new_map fuel ops v enough =
      let (s, e, (cs, m, held, short)) = new_map-Refines fuel ops v enough in
      (s, cs, e, m.path, m.bare, m.linked)

  -- When the map is destroyed behind a sequence of calls, each node that was ever made, the head among
  -- them, has either been freed or been retired, and only once, and no other address has.
  pub destroy-new_map :
      (fuel : ℕ) (ops : List (Op K V)) (v : V)
      → length ops ≤ fuel
      → (s s' : SkipList K V) × (run_ops lt default (suc fuel) ops (new_map default v)
          ≡ ok (abstract_ops lt default ops []).1 s)
        × (destroy (suc (suc fuel)) s ≡ ok tt s')
        × ((x : ℕ)
            → occurrences x s'.freed + occurrences x s'.retired
              ≡ (if leb 1 x && ltb x s.next_address then 1 else 0))
  destroy-new_map fuel ops v enough =
      let (s, e, (cs, m, held, short)) = new_map-Refines fuel ops v enough in
      let (s', e', freed, retired) = destroy-result fuel cs s m (omega (arith, short, enough)) in
      (s, s', e, e', λ x. omega (arith, freed x, m.owned x, ap (occurrences x) retired))
