-- ===== src/Hazard/Concurrent/Scans.antt =====
-- `scan`: what it has loaded covers what is held, and so it deletes nothing that is held.
use ccmetrics.Base.{
  ℕ, zero, suc, ◌+◌, ◌≤◌, ◌<◌, ◌≡◌, refl, sym, ap, ◌∙◌, true, false, not, ◌&&◌, ◌||◌, ◌==◌, inl,
  inr, List, [], ◌∷◌, length, leb, ltb, occurrences, if◌then◌else◌, if-both, update, Bool-cases,
  arith,
}
use mathlib.Core.Path.{subst}
use ccmetrics.Hazard.{contains, sweep}
use ccmetrics.Hazard.Sweep.{Swept, sweep-Swept}
use ccmetrics.Hazard.Concurrent.{
  State, Pc, Back, to_help, to_drain, slots_from, slots_of, delete_dead, resume,
}
use ccmetrics.Hazard.Concurrent.Stages.{
  Stage, deleted, unused, linked, pending, listed, is_listed, is_unused, is_deleted, one_if,
  has_slot, IsClosed, Covers, Agrees, Inv,
}
use ccmetrics.Hazard.Concurrent.Keeps.{Keeps, places-Keeps, same-Keeps}

has_slot-slots_from :
    (k n r q j : ℕ) (rest : List (ℕ × ℕ))
    → has_slot q j (slots_from k n r rest)
      ≡ ((r == q) && (leb k j && ltb j (k + n))) || has_slot q j rest
has_slot-slots_from k zero r q j rest = ground arith
has_slot-slots_from k (suc n) r q j rest = ground (arith, has_slot-slots_from (suc k) n r q j rest)

has_slot-slots_of :
    (n q j : ℕ) (records : List ℕ)
    → 1 ≤ occurrences q records
    → j < n
    → has_slot q j (slots_of n records) ≡ true
has_slot-slots_of n q j [] rec fits = absurd (omega (arith, rec))
has_slot-slots_of n q j (r ∷ records) rec fits =
    let rest = has_slot-slots_of n q j records in
    has_slot-slots_from 0 n r q j (slots_of n records) ∙ ground (arith, rec, fits, rest)

slots_from-IsClosed :
    (m k n r : ℕ) (rest : List (ℕ × ℕ))
    → k + n ≡ m
    → IsClosed m rest
    → IsClosed m (slots_from k n r rest)
slots_from-IsClosed m k zero r rest fits closed = closed
slots_from-IsClosed m k (suc n) r rest fits closed = (
  λ j above below. has_slot-slots_from (suc k) n r r j rest ∙ ground (arith, above, below, fits),
  slots_from-IsClosed m (suc k) n r rest (omega (arith, fits)) closed,
)

pub slots_of-IsClosed : (n : ℕ) (records : List ℕ) → IsClosed n (slots_of n records)
slots_of-IsClosed n [] = tt
slots_of-IsClosed n (r ∷ records) =
    slots_from-IsClosed n 0 n r (slots_of n records) (omega arith) (slots_of-IsClosed n records)

own_place : (s : State) (r : ℕ) (p : Pc) → p ≡ update s.pc r p r
own_place s r p = ground arith

resume-Agrees :
    (n : ℕ) (s : State) (stage : ℕ → Stage) (r : ℕ) (back : Back) → Agrees n s stage r (resume back)
resume-Agrees n s stage r to_help = tt
resume-Agrees n s stage r (to_drain q rest) = tt

-- A node is on one list.
pub one-list :
    (q r : ℕ) (st : Stage) → is_listed q st ≡ true → is_listed r st ≡ true → (q == r) ≡ true
one-list q r unused a b = absurd (ground (arith, a))
one-list q r (linked c) a b = absurd (ground (arith, a))
one-list q r (pending p) a b = absurd (ground (arith, a))
one-list q r (listed p) a b = ground (arith, a, b)
one-list q r deleted a b = absurd (ground (arith, a))

pub listed-alive : (r : ℕ) (st : Stage) → is_listed r st ≡ true → is_deleted st ≡ false
listed-alive r unused on = refl
listed-alive r (linked c) on = refl
listed-alive r (pending p) on = refl
listed-alive r (listed p) on = refl
listed-alive r deleted on = absurd (ground (arith, on))

module _ {n : ℕ} {s : State} {stage : ℕ → Stage} (inv : Inv n s stage) where
  -- Before the first load, every held slot is still to be loaded.
  pub slots_of-Covers : (r : ℕ) → Covers s stage r (slots_of n s.records) []
  unfolding contains
  slots_of-Covers r q k held on =
      let (fits, rec, _, _) = inv.used q k held in has_slot-slots_of n q k s.records rec fits

  listed-real : (i node : ℕ) → is_listed i (stage node) ≡ true → (node == 0) ≡ false
  listed-real i node on = elim (Bool-cases (node == 0)) [
    | inl e ↦
        let at : node ≡ 0 = ground (arith, e) in
        let off : is_listed i (stage node) ≡ false =
          ap (λ a. is_listed i (stage a)) at ∙ ap (is_listed i) inv.null in
        absurd (ground (arith, on, off))
    | inr e ↦ e
  ]

  -- A load.
  pub load-Covers :
      (i q k : ℕ) (todo : List (ℕ × ℕ)) (live : List ℕ)
      → Covers s stage i ((q, k) ∷ todo) live
      → Covers s stage i todo (if s.pointers q k == 0 then live else s.pointers q k ∷ live)
  unfolding contains
  load-Covers i q k todo live covers q' k' held on =
      let node = s.pointers q' k' in
      let before = covers q' k' held on in
      let real : (node == 0) ≡ false = listed-real i node on in
      elim (Bool-cases ((q == q') && (k == k'))) [
        | inl e ↦
            let record_at : q ≡ q' = ground (arith, e) in
            let slot_at : k ≡ k' = ground (arith, e) in
            let same : s.pointers q k ≡ node =
              ap (λ a. s.pointers a k) record_at ∙ ap (s.pointers q') slot_at in
            ground (arith, same, real)
        | inr e ↦ ground (arith, before, e)
      ]

  -- Phase 2, by thread `r`, which has loaded all slots.
  module _ (r : ℕ) (live : List ℕ) (back : Back) (covers : Covers s stage r [] live) where
    abbrev after : ℕ → Stage
    after node =
        if is_listed r (stage node) && not (contains node live) then deleted else stage node

    after-all :
        (P : Stage → Type 0) (node : ℕ)
        → (is_listed r (stage node) ≡ true → contains node live ≡ false → P deleted)
        → P (stage node)
        → P (after node)
    after-all P node dead other =
        if-both P (is_listed r (stage node) && not (contains node live))
          (λ e. dead (ground (arith, e)) (ground (arith, e))) (λ _. other)

    -- A stage other than a listed one stays.
    after-stays :
        (st : Stage) (node : ℕ) → is_listed r st ≡ false → stage node ≡ st → after node ≡ st
    after-stays st node off at =
        after-all (λ a. a ≡ st) node (λ on _. absurd (ground (arith, on, off, ap (is_listed r) at)))
          at

    listed-after :
        (q node : ℕ)
        → is_listed q (after node)
          ≡ is_listed q (stage node) && (not (q == r) || contains node live)
    listed-after q node =
        let one = one-list q r (stage node) in
        let same : (q == r) ≡ true → is_listed q (stage node) ≡ is_listed r (stage node) =
          λ e. ap (λ a. is_listed a (stage node)) (ground (arith, e)) in
        if-both
          (λ a. is_listed q a ≡ is_listed q (stage node) && (not (q == r) || contains node live))
          (is_listed r (stage node) && not (contains node live)) (λ e. ground (arith, e, one))
          (λ e. ground (arith, e, same))

    deleted-after :
        (node : ℕ)
        → is_deleted (after node)
          ≡ is_deleted (stage node) || (is_listed r (stage node) && not (contains node live))
    deleted-after node =
        if-both
          (λ a.
            is_deleted a
            ≡ is_deleted (stage node) || (is_listed r (stage node) && not (contains node live)))
          (is_listed r (stage node) && not (contains node live)) (λ e. ground (arith, e))
          (λ e. ground (arith, e))

    -- No slot holds what is deleted.
    held-after : (q k : ℕ) → s.held q k ≡ true → is_deleted (after (s.pointers q k)) ≡ false
    held-after q k held =
        let (_, _, _, alive) = inv.used q k held in
        deleted-after (s.pointers q k) ∙ ground (arith, alive, covers q k held)

    deletes-Keeps : Keeps n s (delete_dead s r live back) stage after r
    deletes-Keeps =
        same-Keeps (λ q k. refl) (λ q k h. h) (λ q h. h) (λ q a o. after-stays (pending q) a refl)
          (λ q a o h. ground (arith, h, listed-after q a))

    swept :
        (a : ℕ)
        → Swept live []
            (s.retire_list r)
            s.freed
            (sweep (length (s.retire_list r)) live [] (s.retire_list r) s.freed)
            a
    swept a =
        sweep-Swept (length (s.retire_list r)) live [] (s.retire_list r) s.freed a (omega arith)

    -- What is left on the lists is what the stages say.
    in_list-deletes :
        (q a : ℕ)
        → occurrences a ((delete_dead s r live back).retire_list q) ≡ one_if (is_listed q (after a))
    in_list-deletes q a =
        let (kept, _) = swept a in
        let listed_now = listed-after q a in
        elim (Bool-cases (q == r)) [
          | inl e ↦
              let own : r ≡ q = ground (arith, e) in
              let on = ap (λ i. occurrences a (s.retire_list i)) own ∙ inv.in_list q a in
              rw e (kept ∙ ground (arith, on, listed_now, e))
          | inr e ↦ rw e (inv.in_list q a ∙ ap one_if (sym (listed_now ∙ ground (arith, e))))
        ]

    gone-deletes :
        (a : ℕ) → occurrences a (delete_dead s r live back).freed ≡ one_if (is_deleted (after a))
    gone-deletes a =
        let (_, dropped) = swept a in
        dropped
        ∙ ground (arith, inv.gone a, inv.in_list r a, deleted-after a, listed-alive r (stage a))

    pub deletes-Inv : Inv n (delete_dead s r live back) after
    deletes-Inv = record {
      in_cell = λ c real. after-stays (linked c) (s.cell c) refl (inv.in_cell c real);
      fresh = λ a late. after-stays unused a refl (inv.fresh a late);
      positive = inv.positive;
      null = after-stays unused 0 refl inv.null;
      in_list = in_list-deletes;
      gone = gone-deletes;
      used = λ q k held.
          let (fits, rec, known, alive) = inv.used q k held in
          (
            fits,
            rec,
            after-all (λ a. is_unused a ≡ false) (s.pointers q k) (λ _ _. refl) known,
            held-after q k held,
          );
      owners = inv.owners;
      places =
          places-Keeps deletes-Keeps inv.places (λ q other. rw other refl)
            (subst (λ p. Agrees n (delete_dead s r live back) after r p)
              (own_place s r (resume back))
              (resume-Agrees n (delete_dead s r live back) after r back));
    }
