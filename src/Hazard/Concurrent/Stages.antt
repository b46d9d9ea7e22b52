-- ===== src/Hazard/Concurrent/Stages.antt =====
-- What becomes of a node, and what holds in every reachable state.
use ccmetrics.Base.{
  ℕ, ◌≤◌, ◌<◌, ◌≡◌, Bool, true, false, ◌&&◌, ◌||◌, List, [], ◌∷◌, ◌==◌, if◌then◌else◌, occurrences,
  Bool-cases, sym, ap, ◌∙◌, inl, inr, arith,
}
use ccmetrics.Hazard.{contains}
use ccmetrics.Hazard.Concurrent.{State, Pc, loading, announcing, checking, retiring, scanning}

-- A node is in a cell, on its way to a retire list, on one, or deleted.
pub data Stage : Type 0 where
  unused : Stage
  linked : (c : ℕ) → Stage
  pending : (r : ℕ) → Stage
  listed : (r : ℕ) → Stage
  deleted : Stage

abbrev pub is_listed : ℕ → Stage → Bool
is_listed r unused = false
is_listed r (linked c) = false
is_listed r (pending q) = false
is_listed r (listed q) = q == r
is_listed r deleted = false

abbrev pub is_deleted : Stage → Bool
is_deleted deleted = true
is_deleted unused = false
is_deleted (linked c) = false
is_deleted (pending q) = false
is_deleted (listed q) = false

abbrev pub is_unused : Stage → Bool
is_unused unused = true
is_unused deleted = false
is_unused (linked c) = false
is_unused (pending q) = false
is_unused (listed q) = false

abbrev pub one_if : Bool → ℕ
one_if b = if b then 1 else 0

abbrev pub has_slot : ℕ → ℕ → List (ℕ × ℕ) → Bool
has_slot r k [] = false
has_slot r k ((q, j) ∷ todo) = ((q == r) && (j == k)) || has_slot r k todo

-- Behind a slot, the higher slots of its record are still to be loaded.
abbrev pub IsClosed : (n : ℕ) → List (ℕ × ℕ) → Type 0
IsClosed n [] = Unit {0}
IsClosed n ((r, j) ∷ todo) = ((k : ℕ) → j < k → k < n → has_slot r k todo ≡ true) × IsClosed n todo

pub higher-IsClosed :
    (n : ℕ) (todo : List (ℕ × ℕ)) (r j k : ℕ)
    → IsClosed n todo
    → has_slot r j todo ≡ true
    → j < k
    → k < n
    → has_slot r k todo ≡ true
higher-IsClosed n [] r j k closed h below fits = absurd (ground (arith, h))
higher-IsClosed n ((q, i) ∷ todo) r j k (here, closed) h below fits =
    let rest = higher-IsClosed n todo r j k closed in
    elim (Bool-cases ((q == r) && (i == j))) [
      | inl e ↦
          let same : q ≡ r = ground (arith, e) in
          let found : has_slot r k todo ≡ true =
            ap (λ a. has_slot a k todo) (sym same) ∙ here k (ground (arith, e, below)) fits in
          ground (arith, found)
      | inr e ↦ ground (arith, rest (ground (arith, h, e)) below fits)
    ]

-- A held node of the own retire list has been seen, or its slot is still to be loaded.
abbrev pub Covers : State → (ℕ → Stage) → (i : ℕ) → List (ℕ × ℕ) → List ℕ → Type 0
Covers s stage i todo live =
    (r k : ℕ)
    → s.held r k ≡ true
    → is_listed i (stage (s.pointers r k)) ≡ true
    → contains (s.pointers r k) live || has_slot r k todo ≡ true

abbrev pub IsRecord : State → ℕ → Type 0
IsRecord s r = 1 ≤ occurrences r s.records

-- What the place of a thread says.
abbrev pub Agrees : (n : ℕ) → State → (ℕ → Stage) → ℕ → Pc → Type 0
Agrees n s stage r (loading once c k) = (k < n) × IsRecord s r
Agrees n s stage r (announcing once c k cur) = (k < n) × IsRecord s r
Agrees n s stage r (checking once c k cur) = (k < n) × IsRecord s r × (s.pointers r k ≡ cur)
Agrees n s stage r (retiring node) = stage node ≡ pending r
Agrees n s stage r (scanning todo live back) = IsClosed n todo × Covers s stage r todo live
Agrees n s stage r _ = Unit {0}

pub record Inv (n : ℕ) (s : State) (stage : ℕ → Stage) : Type 0 where
  pub in_cell : (c : ℕ) → (s.cell c == 0) ≡ false → stage (s.cell c) ≡ linked c
  pub fresh : (node : ℕ) → s.next_node ≤ node → stage node ≡ unused
  pub positive : 1 ≤ s.next_node
  pub null : stage 0 ≡ unused
  pub in_list :
      (r node : ℕ) → occurrences node (s.retire_list r) ≡ one_if (is_listed r (stage node))
  pub gone : (node : ℕ) → occurrences node s.freed ≡ one_if (is_deleted (stage node))
  pub used :
      (r k : ℕ)
      → s.held r k ≡ true
      → (k < n)
        × IsRecord s r
        × (is_unused (stage (s.pointers r k)) ≡ false)
        × (is_deleted (stage (s.pointers r k)) ≡ false)
  pub owners : (r : ℕ) → s.owned r ≡ true → IsRecord s r
  pub places : (r : ℕ) → Agrees n s stage r (s.pc r)
