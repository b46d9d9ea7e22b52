-- ===== src/Hazard/Concurrent/Readers.antt =====
-- The steps of a thread that only reads: `loadAndSetHazard`, `setHazard` and `clearHazard`, and the
-- moves from one place to another.
use ccmetrics.Base.{
  ℕ, ◌<◌, ◌≡◌, refl, sym, ap, ◌∙◌, Bool, true, false, not, ◌&&◌, ◌==◌, inl, inr, if◌then◌else◌,
  update, Bool-cases, if-both, arith,
}
use mathlib.Core.Path.{subst}
use ccmetrics.Hazard.Concurrent.{
  State, Pc, ready, loading, checking, goto, with_slot, with_held, check,
}
use ccmetrics.Hazard.Concurrent.Stages.{
  Stage, linked, is_listed, is_unused, is_deleted, IsRecord, Agrees, Inv,
}
use ccmetrics.Hazard.Concurrent.Keeps.{
  Keeps, places-Keeps, same-Keeps, slot-Keeps, held-Keeps, HeldBelow, update-slot,
}

-- What a held slot needs.
abbrev pub Holds : (n : ℕ) → State → (ℕ → Stage) → (r k node : ℕ) → Type 0
Holds n s stage r k node =
    (k < n) × IsRecord s r × (is_unused (stage node) ≡ false) × (is_deleted (stage node) ≡ false)

abbrev moved : State → (pointers : ℕ → ℕ → ℕ) → (held : ℕ → ℕ → Bool) → (r : ℕ) → Pc → State
moved s pointers held r p = record s { pointers = pointers; held = held; pc = update s.pc r p }

module _ {n : ℕ} {s : State} {stage : ℕ → Stage} (inv : Inv n s stage) where
  elsewhere : (r : ℕ) (p : Pc) (q : ℕ) → (q == r) ≡ false → update s.pc r p q ≡ s.pc q
  elsewhere r p q other = rw other refl

  here : (r : ℕ) (p : Pc) → update s.pc r p r ≡ p
  here r p = ground arith

  -- A step of thread `r` that changes slots and its place at most.
  move-Inv :
      (pointers : ℕ → ℕ → ℕ) (held : ℕ → ℕ → Bool) (r : ℕ) (p : Pc)
      → Keeps n s (moved s pointers held r p) stage stage r
      → ((q k : ℕ) → held q k ≡ true → Holds n s stage q k (pointers q k))
      → Agrees n (moved s pointers held r p) stage r p
      → Inv n (moved s pointers held r p) stage
  move-Inv pointers held r p keeps used own = record {
    in_cell = inv.in_cell;
    fresh = inv.fresh;
    positive = inv.positive;
    null = inv.null;
    in_list = inv.in_list;
    gone = inv.gone;
    used = used;
    owners = inv.owners;
    places =
        places-Keeps keeps inv.places (elsewhere r p)
          (subst (λ p'. Agrees n (moved s pointers held r p) stage r p') (sym (here r p)) own);
  }

  -- Thread `r` goes to another place.
  pub go-Inv : (r : ℕ) (p : Pc) → Agrees n (goto s r p) stage r p → Inv n (goto s r p) stage
  go-Inv r p =
      move-Inv s.pointers s.held r p
        (same-Keeps (λ q k. refl) (λ q k h. h) (λ q h. h) (λ q a o h. h) (λ q a o h. h)) inv.used

  -- It sets one of its slots.
  pub set-Inv :
      (r k node : ℕ) (held : Bool) (p : Pc)
      → (held ≡ true → HeldBelow n s r k node)
      → Agrees n (goto (with_slot s r k node held) r p) stage r p
      → Inv n (goto (with_slot s r k node held) r p) stage
  set-Inv r k node held p below =
      move-Inv (update s.pointers r (update (s.pointers r) k node))
        (update s.held r (update (s.held r) k held)) r p (slot-Keeps k node p (λ i h _. below h))
        (λ q j on.
          let at = update-slot s.pointers r k node q j in
          let holds : (if (q == r) && (j == k) then held else s.held q j) ≡ true =
            sym (update-slot s.held r k held q j) ∙ on in
          let now = update s.pointers r (update (s.pointers r) k node) q j in
          elim (Bool-cases ((q == r) && (j == k))) [
            | inl e ↦
                let is_new : node ≡ now = sym (ground (arith, at, e)) in
                let (j', less, fits, held_there, node_there) = below (ground (arith, holds, e)) in
                let own : r ≡ q = ground (arith, e) in
                let fits_here : j < n = ground (arith, fits, e) in
                let (_, used, unused, alive) = inv.used r j' held_there in
                subst (Holds n s stage q j) is_new (
                  fits_here,
                  subst (IsRecord s) own used,
                  ground (arith, unused, ap (λ a. is_unused (stage a)) node_there),
                  ground (arith, alive, ap (λ a. is_deleted (stage a)) node_there),
                )
            | inr e ↦
                let is_old : s.pointers q j ≡ now = sym (ground (arith, at, e)) in
                subst (Holds n s stage q j) is_old (inv.used q j (ground (arith, holds, e)))
          ])

  -- It says whether it holds the node that a slot already has.
  pub hold-Inv :
      (r k : ℕ) (held : Bool) (p : Pc)
      → (held ≡ true
          → Holds n s stage r k (s.pointers r k)
            × ((i : ℕ) → is_listed i (stage (s.pointers r k)) ≡ false))
      → Agrees n (goto (with_held s r k held) r p) stage r p
      → Inv n (goto (with_held s r k held) r p) stage
  hold-Inv r k held p safe =
      move-Inv s.pointers (update s.held r (update (s.held r) k held)) r p
        (held-Keeps k held p (λ i h. (safe h).1 i))
        (λ q j on.
          let holds : (if (q == r) && (j == k) then held else s.held q j) ≡ true =
            sym (update-slot s.held r k held q j) ∙ on in
          elim (Bool-cases ((q == r) && (j == k))) [
            | inl e ↦
                let own : r ≡ q = ground (arith, e) in
                let slot : k ≡ j = ground (arith, e) in
                subst (λ a. Holds n s stage a j (s.pointers a j)) own
                  (subst (λ a. Holds n s stage r a (s.pointers r a)) slot
                    (safe (ground (arith, holds, e))).0)
            | inr e ↦ inv.used q j (ground (arith, holds, e))
          ])

  -- The second load of `loadAndSetHazard`: what is in a cell is on no retire list.
  pub check-Inv :
      (r : ℕ) (once : Bool) (c k cur : ℕ)
      → s.pc r ≡ checking once c k cur
      → Inv n (check s r once c k cur) stage
  check-Inv r once c k cur at =
      let (fits, rec, slot) = subst (λ p. Agrees n s stage r p) at (inv.places r) in
      if-both (λ t. Inv n t stage) (s.cell c == cur)
        (λ same.
          hold-Inv r k (not (cur == 0)) ready
            (λ real.
              let link : stage (s.pointers r k) ≡ linked c =
                ap stage slot
                ∙ ap stage (ground (arith, same))
                ∙ inv.in_cell c (ground (arith, same, real)) in
              ((fits, rec, ap is_unused link, ap is_deleted link), λ i. ap (is_listed i) link))
            tt)
        (λ _.
          if-both (λ t. Inv n t stage) once
            (λ _. set-Inv r k 0 false ready (λ h. absurd (ground (arith, h))) tt)
            (λ _. go-Inv r (loading once c k) (fits, rec)))
