-- ===== src/SkipList/Withdrawn.antt =====
-- A node that `insert` made and withdraws.
use ccmetrics.Base.{ℕ, suc, ◌≤◌, ◌<◌, ◌≡◌, false, List, ◌∷◌, update, occurrences, arith}
use ccmetrics.SkipList.{Link, null, marked_null, SkipList, ok, free_node}
use ccmetrics.SkipList.Update.{withdraw}
use ccmetrics.SkipList.Walks.{Alive}
use ccmetrics.SkipList.Shape.{Leads, AllAlive, IsMap}
use ccmetrics.SkipList.Paths.{Leads-frame, AllAlive-frame}
use ccmetrics.SkipList.Linked.{with_new}

abbrev pub without_hazards : (ℕ → Link) → ℕ → Link
without_hazards h = update (update (update (update h 0 null) 1 null) 2 null) 3 null

module _ {K V : Type 0} where
  -- The state behind a publication that failed: the new node points to `cur`, and nothing to it.
  abbrev pub with_private : SkipList K V → (level : ℕ) → K → V → (cur : Link) → SkipList K V
  with_private s level key value cur =
      let s1 = with_new s level key value in
      let n = s.next_address in record s1 { next = update s1.next n (update (s1.next n) 0 cur) }

  pub withdraw-eq :
      (n : ℕ) (s : SkipList K V)
      → Alive s n
      → withdraw n s
        ≡ ok false (record s {
          hazard = without_hazards s.hazard;
          node_height = update s.node_height n 0;
          freed = n ∷ s.freed;
        })
  unfolding withdraw free_node
  withdraw-eq n s here = ground arith

  -- The state behind the withdrawal.
  abbrev pub withdrawn :
      SkipList K V → (level : ℕ) → K → V → (cur : Link) → (ℕ → Link) → SkipList K V
  withdrawn s level key value cur h =
      let s1 = with_private s level key value cur in
      record s1 {
        hazard = h;
        node_height = update s1.node_height s.next_address 0;
        freed = s.next_address ∷ s.freed;
      }

  module _ (s : SkipList K V) (cs : List ℕ) (m : IsMap s cs) (level : ℕ) (key : K) (value : V)
      (cur : Link) where
    pub old : (x : ℕ) → 1 ≤ occurrences x (s.head ∷ cs) → x < s.next_address
    old x inside = ground (arith, m.named x, inside)

    pub private-Leads : Leads (with_private s level key value cur) s.head cs null
    private-Leads =
        Leads-frame s (with_private s level key value cur) s.head cs null
          (λ x inside. ground (arith, old x inside)) m.path

    pub private-AllAlive : AllAlive (with_private s level key value cur) (s.head ∷ cs)
    private-AllAlive =
        AllAlive-frame s (with_private s level key value cur) (s.head ∷ cs)
          (λ x inside here. ground (arith, old x inside, here)) m.alive

    pub private-bare :
        (i : ℕ) → (with_private s level key value cur).next s.head (suc i) ≡ marked_null
    private-bare i = ground (arith, m.bare i, old s.head (ground arith))

    pub same_keys :
        (x : ℕ) → 1 ≤ occurrences x cs → (with_private s level key value cur).key x ≡ s.key x
    same_keys x inside = ground (arith, old x (omega (arith, inside)))

    pub same_values :
        (x : ℕ) → 1 ≤ occurrences x cs → (with_private s level key value cur).val x ≡ s.val x
    same_values x inside = ground (arith, old x (omega (arith, inside)))

    pub IsMap-withdrawn : (h : ℕ → Link) → IsMap (withdrawn s level key value cur h) cs
    IsMap-withdrawn h = record {
      path = private-Leads;
      once = m.once;
      alive =
          AllAlive-frame s (withdrawn s level key value cur h) (s.head ∷ cs)
            (λ x inside here. ground (arith, old x inside, here)) m.alive;
      named = λ x above. m.named x (omega (arith, above));
      owned = λ x. ground (arith, m.owned x, m.named x, old s.head (ground arith));
      linked = λ x inside. ground (arith, m.linked x inside, old x (omega (arith, inside)));
      low = m.low;
      tall = ground (arith, m.tall, old s.head (ground arith));
      bare = private-bare;
    }
