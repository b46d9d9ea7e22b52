-- ===== src/Hazard/Concurrent/Exchange.antt =====
-- A client exchanges a cell, and is then about to retire the old node.
use ccmetrics.Base.{
  ℕ, ◌+◌, ◌≤◌, ◌<◌, ◌≡◌, refl, sym, ap, ◌∙◌, false, not, ◌&&◌, ◌==◌, inl, inr, if◌then◌else◌,
  if-both, update, Bool-cases, arith,
}
use mathlib.Core.Path.{subst}
use ccmetrics.Hazard.Concurrent.{State, Pc, ready, retiring, goto, replaced, removed}
use ccmetrics.Hazard.Concurrent.Stages.{
  Stage, unused, linked, pending, is_listed, is_unused, is_deleted, one_if, Agrees, Inv,
}
use ccmetrics.Hazard.Concurrent.Keeps.{Keeps, places-Keeps, same-Keeps}

-- The stages when `old` leaves the cell `c` and `new` enters it; 0 is no node.
abbrev exchange_stage : (ℕ → Stage) → (r c old new : ℕ) → ℕ → Stage
exchange_stage stage r c old new node =
    if (node == old) && not (old == 0)
    then pending r
    else if (node == new) && not (new == 0)
    then linked c
    else stage node

exchange-old :
    (stage : ℕ → Stage) (r c old new : ℕ)
    → (old == 0) ≡ false
    → exchange_stage stage r c old new old ≡ pending r
exchange-old stage r c old new real =
    if-both (λ a. a ≡ pending r) ((old == old) && not (old == 0)) (λ _. refl)
      (λ e. absurd (ground (arith, e, real)))

module _ {n : ℕ} {s : State} {stage : ℕ → Stage} (inv : Inv n s stage) where
  -- The node of cell `c` goes out, and a new one, or null, goes in.
  module _ (r c new next : ℕ) (old_linked : (s.cell c == 0) ≡ false → stage (s.cell c) ≡ linked c)
      (new_unused : (new == 0) ≡ false → stage new ≡ unused) (new_next : new < next)
      (le_next : s.next_node ≤ next) where
    abbrev after : ℕ → Stage
    after = exchange_stage stage r c (s.cell c) new

    abbrev exchanged : Pc → State
    exchanged p = goto (record s { cell = update s.cell c new; next_node = next }) r p

    -- The three cases of a node.
    after-all :
        (P : Stage → Type 0) (node : ℕ)
        → (node ≡ s.cell c → stage node ≡ linked c → P (pending r))
        → (node ≡ new → stage node ≡ unused → P (linked c))
        → P (stage node)
        → P (after node)
    after-all P node out in_ other =
        if-both P ((node == s.cell c) && not (s.cell c == 0))
          (λ e.
            let at : node ≡ s.cell c = ground (arith, e) in
            out at (ap stage at ∙ old_linked (ground (arith, e))))
          (λ _.
            if-both P ((node == new) && not (new == 0))
              (λ e.
                let at : node ≡ new = ground (arith, e) in
                in_ at (ap stage at ∙ new_unused (ground (arith, e))))
              (λ _. other))

    -- What is said of a stage is said afterwards, if the two changes keep it.
    after-same :
        {A : Type 0} (f : Stage → A) (node : ℕ)
        → f (pending r) ≡ f (linked c)
        → f (linked c) ≡ f unused
        → f (after node) ≡ f (stage node)
    after-same f node out in_ =
        after-all (λ a. f a ≡ f (stage node)) node (λ _ e. out ∙ sym (ap f e))
          (λ _ e. in_ ∙ sym (ap f e)) refl

    after-pending : (q node : ℕ) → stage node ≡ pending q → after node ≡ pending q
    after-pending q node p =
        after-all (λ a. a ≡ pending q) node (λ _ e. absurd cc) (λ _ e. absurd cc) p

    after-linked : (q node : ℕ) → (q == c) ≡ false → stage node ≡ linked q → after node ≡ linked q
    after-linked q node other l =
        after-all (λ a. a ≡ linked q) node (λ _ e. absurd (ground arith)) (λ _ e. absurd cc) l

    after-fresh : (node : ℕ) → next ≤ node → after node ≡ unused
    after-fresh node late =
        after-all (λ a. a ≡ unused) node
          (λ at e. absurd (ground (arith, at, late, le_next, inv.fresh node, e)))
          (λ at _. absurd (omega (arith, at, late, new_next)))
          (inv.fresh node (omega (arith, late, le_next)))

    after-new : (new == 0) ≡ false → after new ≡ linked c
    after-new real =
        if-both (λ a. a ≡ linked c) ((new == s.cell c) && not (s.cell c == 0))
          (λ e.
            let at : new ≡ s.cell c = ground (arith, e) in
            let out = ap stage at ∙ old_linked (ground (arith, e)) in
            let unlinked = new_unused real in absurd cc)
          (λ _.
            if-both (λ a. a ≡ linked c) ((new == new) && not (new == 0)) (λ _. refl)
              (λ e. absurd (ground (arith, e, real))))

    after-null : after 0 ≡ unused
    after-null =
        if-both (λ a. a ≡ unused) ((0 == s.cell c) && not (s.cell c == 0))
          (λ e. absurd (ground (arith, e)))
          (λ _.
            if-both (λ a. a ≡ unused) ((0 == new) && not (new == 0))
              (λ e. absurd (ground (arith, e))) (λ _. inv.null))

    cell-exchanged :
        (q : ℕ) → (update s.cell c new q == 0) ≡ false → after (update s.cell c new q) ≡ linked q
    cell-exchanged q real = elim (Bool-cases (q == c)) [
      | inl e ↦
          let at : c ≡ q = ground (arith, e) in
          let here : new ≡ update s.cell c new q = ground (arith, e) in
          subst (λ a. after a ≡ linked q) here
            (after-new (ground (arith, here, real)) ∙ ap linked at)
      | inr e ↦
          let here : s.cell q ≡ update s.cell c new q = ground (arith, e) in
          subst (λ a. after a ≡ linked q) here
            (after-linked q (s.cell q) e (inv.in_cell q (ground (arith, here, real))))
    ]

    exchange-Keeps : (p : Pc) → Keeps n s (exchanged p) stage after r
    exchange-Keeps p =
        same-Keeps (λ q k. refl) (λ q k h. h) (λ q h. h) (λ q a o. after-pending q a)
          (λ q a o h. sym (after-same (is_listed q) a refl refl) ∙ h)

    exchange-Inv : (p : Pc) → Agrees n (exchanged p) after r p → Inv n (exchanged p) after
    exchange-Inv p own = record {
      in_cell = λ q. cell-exchanged q;
      fresh = after-fresh;
      positive = omega (arith, inv.positive, le_next);
      null = after-null;
      in_list =
          λ q node. inv.in_list q node ∙ ap one_if (sym (after-same (is_listed q) node refl refl));
      gone = λ node. inv.gone node ∙ ap one_if (sym (after-same is_deleted node refl refl));
      used = λ q k on.
          let (fits, rec, known, alive) = inv.used q k on in
          (
            fits,
            rec,
            after-all (λ a. is_unused a ≡ false) (s.pointers q k) (λ _ _. refl) (λ _ _. refl) known,
            after-same is_deleted (s.pointers q k) refl refl ∙ alive,
          );
      owners = inv.owners;
      places =
          places-Keeps (exchange-Keeps p) inv.places (λ q other. rw other refl)
            (subst (λ p'. Agrees n (exchanged p) after r p') (ground arith) own);
    }

  -- A new node for null or for a node.
  pub replaced-Inv :
      (r c : ℕ) → Inv n (replaced s r c) (exchange_stage stage r c (s.cell c) s.next_node)
  replaced-Inv r c =
      let p = if s.cell c == 0 then ready else retiring (s.cell c) in
      let old = s.cell c in
      let own : Agrees n (replaced s r c) (exchange_stage stage r c old s.next_node) r p =
        if-both (Agrees n (replaced s r c) (exchange_stage stage r c old s.next_node) r) (old == 0)
          (λ _. tt) (λ real. exchange-old stage r c old s.next_node real) in
      exchange-Inv r c s.next_node (s.next_node + 1) (inv.in_cell c)
        (λ _. inv.fresh s.next_node (omega arith)) (omega arith) (omega arith) p own

  pub removed-Inv :
      (r c : ℕ)
      → (s.cell c == 0) ≡ false
      → Inv n (removed s r c) (exchange_stage stage r c (s.cell c) 0)
  removed-Inv r c real =
      exchange-Inv r c 0 s.next_node (inv.in_cell c) (λ h. absurd (ground (arith, h)))
        (omega (arith, inv.positive)) (omega arith) (retiring (s.cell c))
        (exchange-old stage r c (s.cell c) 0 real)
