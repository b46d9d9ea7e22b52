-- ===== src/Hazard/Concurrent/Keeps.antt =====
-- What a step of one thread leaves of the others.
use ccmetrics.Base.{
  ℕ, ◌<◌, ◌≡◌, ◌⊎◌, inl, inr, refl, sym, ap, ◌∙◌, Bool, true, false, ◌&&◌, ◌||◌, List, ◌==◌, update,
  if◌then◌else◌, Bool-cases, arith,
}
use mathlib.Core.Path.{subst}
use ccmetrics.Hazard.{contains}
use ccmetrics.Hazard.Concurrent.{
  State, goto, with_slot, with_held, Pc, ready, loading, announcing, checking, retiring, testing,
  reading_head, scanning, help_head, helping, draining,
}
use ccmetrics.Hazard.Concurrent.Stages.{
  Stage, pending, is_listed, has_slot, IsClosed, higher-IsClosed, Covers, IsRecord, Agrees,
}

-- A slot that is held was held before, or has its node from a lower slot of its record that was.
abbrev pub WasHeld : (n : ℕ) → (s s' : State) → (q k : ℕ) → Type 0
WasHeld n s s' q k =
    (j : ℕ) × ((j ≡ k) ⊎ ((j < k) × (k < n)))
    × (s.held q j ≡ true)
    × (s.pointers q j ≡ s'.pointers q k)

-- A step of thread `r`, as the others see it.
pub record Keeps (n : ℕ) (s s' : State) (stage stage' : ℕ → Stage) (r : ℕ) : Type 0 where
  pub slots : (q k : ℕ) → (q == r) ≡ false → s'.pointers q k ≡ s.pointers q k
  pub records : (q : ℕ) → IsRecord s q → IsRecord s' q
  pub still_pending :
      (q node : ℕ) → (q == r) ≡ false → stage node ≡ pending q → stage' node ≡ pending q
  pub still_listed :
      (q node : ℕ)
      → (q == r) ≡ false
      → is_listed q (stage' node) ≡ true
      → is_listed q (stage node) ≡ true
  pub still_held :
      (i q k : ℕ)
      → (i == r) ≡ false
      → s'.held q k ≡ true
      → is_listed i (stage' (s'.pointers q k)) ≡ true
      → WasHeld n s s' q k

module _ {n : ℕ} {s s' : State} {stage stage' : ℕ → Stage} {r : ℕ}
    (keeps : Keeps n s s' stage stage' r) where
  Covers-Keeps :
      (i : ℕ) (todo : List (ℕ × ℕ)) (live : List ℕ)
      → (i == r) ≡ false
      → IsClosed n todo
      → Covers s stage i todo live
      → Covers s' stage' i todo live
  Covers-Keeps i todo live other closed covers q k held on =
      let (j, place, before, same) = keeps.still_held i q k other held on in
      let on_before : is_listed i (stage (s.pointers q j)) ≡ true =
        ap (λ node. is_listed i (stage node)) same
        ∙ keeps.still_listed i (s'.pointers q k) other on in
      let seen : contains (s'.pointers q k) live || has_slot q j todo ≡ true =
        ap (λ node. contains node live || has_slot q j todo) (sym same)
        ∙ covers q j before on_before in
      elim place [
        | inl e ↦ ap (λ m. contains (s'.pointers q k) live || has_slot q m todo) (sym e) ∙ seen
        | inr (below, fits) ↦ ground (arith, seen, higher-IsClosed n todo q j k closed, below, fits)
      ]

  pub Agrees-Keeps :
      (i : ℕ) (p : Pc) → (i == r) ≡ false → Agrees n s stage i p → Agrees n s' stage' i p
  Agrees-Keeps i ready other a = tt
  Agrees-Keeps i (loading once c k) other (fits, rec) = (fits, keeps.records i rec)
  Agrees-Keeps i (announcing once c k cur) other (fits, rec) = (fits, keeps.records i rec)
  Agrees-Keeps i (checking once c k cur) other (fits, rec, at) =
      (fits, keeps.records i rec, keeps.slots i k other ∙ at)
  Agrees-Keeps i (retiring node) other a = keeps.still_pending i node other a
  Agrees-Keeps i (testing back) other a = tt
  Agrees-Keeps i (reading_head back) other a = tt
  Agrees-Keeps i (scanning todo live back) other (closed, covers) =
      (closed, Covers-Keeps i todo live other closed covers)
  Agrees-Keeps i help_head other a = tt
  Agrees-Keeps i (helping rest) other a = tt
  Agrees-Keeps i (draining target rest) other a = tt

  -- The places of all threads behind the step.
  pub places-Keeps :
      ((q : ℕ) → Agrees n s stage q (s.pc q))
      → ((q : ℕ) → (q == r) ≡ false → s'.pc q ≡ s.pc q)
      → Agrees n s' stage' r (s'.pc r)
      → (q : ℕ) → Agrees n s' stage' q (s'.pc q)
  places-Keeps places same own q = elim (Bool-cases (q == r)) [
    | inl e ↦ subst (λ i. Agrees n s' stage' i (s'.pc i)) (ground (arith, e)) own
    | inr e ↦
        subst (λ p. Agrees n s' stage' q p) (sym (same q e)) (Agrees-Keeps q (s.pc q) e (places q))
  ]

-- A step that keeps the slots of every record.
pub same-Keeps :
    {n : ℕ} {s s' : State} {stage stage' : ℕ → Stage} {r : ℕ}
    → ((q k : ℕ) → s'.pointers q k ≡ s.pointers q k)
    → ((q k : ℕ) → s'.held q k ≡ true → s.held q k ≡ true)
    → ((q : ℕ) → IsRecord s q → IsRecord s' q)
    → ((q node : ℕ) → (q == r) ≡ false → stage node ≡ pending q → stage' node ≡ pending q)
    → ((q node : ℕ)
        → (q == r) ≡ false
        → is_listed q (stage' node) ≡ true
        → is_listed q (stage node) ≡ true)
    → Keeps n s s' stage stage' r
same-Keeps at kept records pend on = record {
  slots = λ q k _. at q k;
  records = records;
  still_pending = pend;
  still_listed = on;
  still_held = λ i q k other held there. (k, inl refl, kept q k held, sym (at q k));
}

-- A slot of one record, changed.
pub update-slot {ℓ} :
    {A : Type ℓ} (f : ℕ → ℕ → A) (r k : ℕ) (a : A) (q j : ℕ)
    → update f r (update (f r) k a) q j ≡ (if (q == r) && (j == k) then a else f q j)
update-slot f r k a q j = elim (Bool-cases (q == r)) [
  | inl e ↦
      let same : r ≡ q = ground (arith, e) in rw e (ap (λ i. if j == k then a else f i j) same)
  | inr e ↦ ground (arith, e)
]

-- A lower slot of record `r` that is held and has the node.
abbrev pub HeldBelow : (n : ℕ) → State → (r k node : ℕ) → Type 0
HeldBelow n s r k node = (j : ℕ) × (j < k) × (k < n) × (s.held r j ≡ true) × (s.pointers r j ≡ node)

-- A step that sets a slot of the own record.
pub slot-Keeps :
    {n : ℕ} {s : State} {stage : ℕ → Stage} {r : ℕ} (k node : ℕ) {held : Bool} (p : Pc)
    → ((i : ℕ) → held ≡ true → is_listed i (stage node) ≡ true → HeldBelow n s r k node)
    → Keeps n s (goto (with_slot s r k node held) r p) stage stage r
slot-Keeps {n} {s} {stage} {r} k node {held} p below = record {
  slots = λ q j other. ground (arith, other);
  records = λ q rec. rec;
  still_pending = λ q a other e. e;
  still_listed = λ q a other e. e;
  still_held = λ i q j other on listed.
      let at = update-slot s.pointers r k node q j in
      let holds : (if (q == r) && (j == k) then held else s.held q j) ≡ true =
        sym (update-slot s.held r k held q j) ∙ on in
      elim (Bool-cases ((q == r) && (j == k))) [
        | inl e ↦
            let same : r ≡ q = ground (arith, e) in
            let here : update s.pointers r (update (s.pointers r) k node) q j ≡ node =
              ground (arith, at, e) in
            let (j', less, fits, held_there, node_there) =
              below i (ground (arith, holds, e))
                (ap (λ a. is_listed i (stage a)) (sym here) ∙ listed) in
            (
              j',
              inr (ground (arith, less, e), ground (arith, fits, e)),
              subst (λ i. s.held i j' ≡ true) same held_there,
              ap (λ i. s.pointers i j') (sym same) ∙ node_there ∙ sym here,
            )
        | inr e ↦ (j, inl refl, ground (arith, holds, e), ground (arith, at, e))
      ];
}

-- A step that only says whether a slot of the own record is held.
pub held-Keeps :
    {n : ℕ} {s : State} {stage : ℕ → Stage} {r : ℕ} (k : ℕ) (held : Bool) (p : Pc)
    → ((i : ℕ) → held ≡ true → is_listed i (stage (s.pointers r k)) ≡ false)
    → Keeps n s (goto (with_held s r k held) r p) stage stage r
held-Keeps {n} {s} {stage} {r} k held p safe = record {
  slots = λ q j other. refl;
  records = λ q rec. rec;
  still_pending = λ q a other e. e;
  still_listed = λ q a other e. e;
  still_held = λ i q j other on listed.
      let holds : (if (q == r) && (j == k) then held else s.held q j) ≡ true =
        sym (update-slot s.held r k held q j) ∙ on in
      elim (Bool-cases ((q == r) && (j == k))) [
        | inl e ↦
            let own : r ≡ q = ground (arith, e) in
            let slot : k ≡ j = ground (arith, e) in
            let at : s.pointers r k ≡ s.pointers q j =
              ap (λ a. s.pointers a k) own ∙ ap (s.pointers q) slot in
            absurd (
              ground (
                arith,
                safe i (ground (arith, holds, e)),
                ap (λ a. is_listed i (stage a)) at,
                listed,
              ))
        | inr e ↦ (j, inl refl, ground (arith, holds, e), refl)
      ];
}
