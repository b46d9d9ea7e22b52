-- ===== src/Hazard/Concurrent/Writers.antt =====
-- The steps of the list of records.
use ccmetrics.Base.{
  ℕ, suc, ◌≡◌, refl, sym, ap, ◌∙◌, Bool, true, false, ◌==◌, inl, inr, update, Bool-cases, arith,
}
use mathlib.Core.Path.{subst}
use ccmetrics.Hazard.Concurrent.{State, ready, pushed}
use ccmetrics.Hazard.Concurrent.Stages.{Stage, is_unused, is_deleted, IsRecord, Agrees, Inv}
use ccmetrics.Hazard.Concurrent.Keeps.{Keeps, places-Keeps, Agrees-Keeps, same-Keeps}

-- Another row of a changed table.
row-old :
    {A : Type 0} (f : ℕ → ℕ → A) (r : ℕ) (g : ℕ → A) (q k : ℕ)
    → (q == r) ≡ false
    → update f r g q k ≡ f q k
row-old f r g q k other = rw other refl

-- A new record holds nothing, so a held slot is an old one.
held-pushed :
    (s : State) (r q k : ℕ)
    → (pushed s r).held q k ≡ true
    → (s.held q k ≡ true) × ((pushed s r).pointers q k ≡ s.pointers q k)
held-pushed s r q k on = elim (Bool-cases (q == r)) [
  | inl e ↦ absurd (ground (arith, on, e))
  | inr e ↦ (sym (row-old s.held r (λ _. false) q k e) ∙ on, row-old s.pointers r (λ _. 0) q k e)
]

push-Keeps : {n : ℕ} {s : State} {stage : ℕ → Stage} (r : ℕ) → Keeps n s (pushed s r) stage stage r
push-Keeps {n} {s} {stage} r = record {
  slots = λ q k other. row-old s.pointers r (λ _. 0) q k other;
  records = λ q rec. ground (arith, rec);
  still_pending = λ q a other e. e;
  still_listed = λ q a other e. e;
  still_held = λ i q k other on there.
      let (before, same) = held-pushed s r q k on in (k, inl refl, before, sym same);
}

module _ {n : ℕ} {s : State} {stage : ℕ → Stage} (inv : Inv n s stage) where
  steady :
      (hp_count : ℕ) (active owned : ℕ → Bool) (r : ℕ)
      → Keeps n s (record s { hp_count = hp_count; active = active; owned = owned }) stage stage r
  steady hp_count active owned r =
      same-Keeps (λ q k. refl) (λ q k h. h) (λ q h. h) (λ q a o h. h) (λ q a o h. h)

  -- The flags of the records, and the count, may change; the owner of a record is one in the list.
  pub flags-Inv :
      (hp_count : ℕ) (active owned : ℕ → Bool)
      → ((r : ℕ) → owned r ≡ true → IsRecord s r)
      → Inv n (record s { hp_count = hp_count; active = active; owned = owned }) stage
  flags-Inv hp_count active owned owners = record {
    in_cell = inv.in_cell;
    fresh = inv.fresh;
    positive = inv.positive;
    null = inv.null;
    in_list = inv.in_list;
    gone = inv.gone;
    used = inv.used;
    owners = owners;
    places = λ q.
        Agrees-Keeps (steady hp_count active owned (suc q)) q (s.pc q) (ground arith)
          (inv.places q);
  }

  -- A new record holds nothing.
  pub push-Inv : (r : ℕ) → s.pc r ≡ ready → Inv n (pushed s r) stage
  push-Inv r at = record {
    in_cell = inv.in_cell;
    fresh = inv.fresh;
    positive = inv.positive;
    null = inv.null;
    in_list = inv.in_list;
    gone = inv.gone;
    used = λ q k on.
        let (before, same) = held-pushed s r q k on in
        let (fits, rec, known, alive) = inv.used q k before in
        (
          fits,
          ground (arith, rec),
          ap (λ a. is_unused (stage a)) same ∙ known,
          ap (λ a. is_deleted (stage a)) same ∙ alive,
        );
    owners = λ q own. ground (arith, own, inv.owners q);
    places =
        places-Keeps {s = s} (push-Keeps r) inv.places (λ q other. refl)
          (subst (λ p. Agrees n (pushed s r) stage r p) (sym at) tt);
  }
