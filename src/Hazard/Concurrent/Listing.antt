-- ===== src/Hazard/Concurrent/Listing.antt =====
-- A node goes on the retire list of a thread, from `retireNode` or from another list.
use ccmetrics.Base.{
  ℕ, ◌+◌, ◌≤◌, ◌≡◌, refl, sym, ap, ◌∙◌, true, ◌&&◌, ◌==◌, ◌⊎◌, inl, inr, Option, none, some, List,
  [], ◌∷◌, ◌++◌, occurrences, occurrences-append, if-both, update, Bool-cases, arith,
}
use mathlib.Core.Path.{subst}
use ccmetrics.Hazard.Concurrent.{State, Back, testing, to_help, to_drain, goto, pop_back, drain_one}
use ccmetrics.Hazard.Concurrent.Stages.{
  Stage, deleted, unused, linked, pending, listed, is_listed, is_unused, is_deleted, one_if, Agrees,
  Inv,
}
use ccmetrics.Hazard.Concurrent.Keeps.{Keeps, places-Keeps, same-Keeps}

-- One element more, in the list of thread `r`.
occurrences-push :
    (lists : ℕ → List ℕ) (r node q a : ℕ)
    → occurrences a (update lists r (lists r ++ node ∷ []) q)
      ≡ occurrences a (lists q) + one_if ((q == r) && (a == node))
occurrences-push lists r node q a = elim (Bool-cases (q == r)) [
  | inl e ↦
      let same : r ≡ q = ground (arith, e) in
      rw e (
        rw (occurrences-append a (lists r) (node ∷ []))
          (ground (arith, ap (λ i. occurrences a (lists i)) same)))
  | inr e ↦ rw e (omega arith)
]

-- What `pop_back` returns of a vector.
abbrev pub PopsTo : ℕ → List ℕ → Option (List ℕ × ℕ) → Type 0
PopsTo a xs none = occurrences a xs ≡ 0
PopsTo a xs (some (init, last)) = occurrences a xs ≡ occurrences a init + one_if (a == last)

pub pop_back-PopsTo : (a : ℕ) (xs : List ℕ) → PopsTo a xs (pop_back xs)
pop_back-PopsTo a [] = refl
pop_back-PopsTo a (x ∷ xs) = cons_popped (pop_back xs) (pop_back-PopsTo a xs)
  where
    cons_popped :
        (o : Option (List ℕ × ℕ))
        → PopsTo a xs o
        → PopsTo a
            (x ∷ xs)
            (elim o [ none ↦ some ([], x) | some (init, last) ↦ some (x ∷ init, last) ])
    cons_popped none h = ground (arith, h)
    cons_popped (some (init, last)) h = omega (arith, h)

is_listed-listed : (q : ℕ) (st : Stage) → is_listed q st ≡ true → st ≡ listed q
is_listed-listed q unused h = absurd (ground (arith, h))
is_listed-listed q (linked c) h = absurd (ground (arith, h))
is_listed-listed q (pending r) h = absurd (ground (arith, h))
is_listed-listed q (listed r) h = ap listed (ground (arith, h))
is_listed-listed q deleted h = absurd (ground (arith, h))

module _ {n : ℕ} {s : State} {stage : ℕ → Stage} (inv : Inv n s stage) where
  module _ (r node : ℕ) (lists : ℕ → List ℕ) (back : Back)
      (before : (stage node ≡ pending r) ⊎ ((q : ℕ) × (stage node ≡ listed q)))
      (on : (q a : ℕ)
        → occurrences a (lists q) ≡ one_if (is_listed q (update stage node (listed r) a))) where
    abbrev after : ℕ → Stage
    after = update stage node (listed r)

    abbrev moved_to : State
    moved_to = goto (record s { retire_list = lists }) r (testing back)

    after-all :
        (P : Stage → Type 0) (a : ℕ)
        → ((q : ℕ) → stage a ≡ listed q → P (listed r))
        → (stage a ≡ pending r → P (listed r))
        → P (stage a)
        → P (after a)
    after-all P a was_listed was_pending other =
        if-both P (a == node)
          (λ e.
            let at : a ≡ node = ground (arith, e) in
            elim before [
              | inl p ↦ was_pending (ap stage at ∙ p)
              | inr (q, l) ↦ was_listed q (ap stage at ∙ l)
            ])
          (λ _. other)

    after-same :
        {A : Type 0} (f : Stage → A) (a : ℕ)
        → ((q : ℕ) → f (listed r) ≡ f (listed q))
        → f (listed r) ≡ f (pending r)
        → f (after a) ≡ f (stage a)
    after-same f a same_list same_pending =
        after-all (λ b. f b ≡ f (stage a)) a (λ q e. same_list q ∙ sym (ap f e))
          (λ e. same_pending ∙ sym (ap f e)) refl

    after-linked : (c a : ℕ) → stage a ≡ linked c → after a ≡ linked c
    after-linked c a l = after-all (λ b. b ≡ linked c) a (λ q e. absurd cc) (λ e. absurd cc) l

    after-unused : (a : ℕ) → stage a ≡ unused → after a ≡ unused
    after-unused a l = after-all (λ b. b ≡ unused) a (λ q e. absurd cc) (λ e. absurd cc) l

    own_place : testing back ≡ update s.pc r (testing back) r
    own_place = ground arith

    listing-Keeps : Keeps n s moved_to stage after r
    listing-Keeps =
        same-Keeps (λ q k. refl) (λ q k h. h) (λ q h. h)
          (λ q a o h.
            after-all (λ b. b ≡ pending q) a (λ q' e. absurd cc) (λ e. absurd (ground (arith, o)))
              h)
          (λ q a o.
            after-all (λ b. is_listed q b ≡ true → is_listed q (stage a) ≡ true) a
              (λ q' _ on_r. absurd (ground (arith, o, on_r)))
              (λ _ on_r. absurd (ground (arith, o, on_r))) (λ h. h))

    pub listing-Inv : Inv n moved_to after
    listing-Inv = record {
      in_cell = λ c real. after-linked c (s.cell c) (inv.in_cell c real);
      fresh = λ a late. after-unused a (inv.fresh a late);
      positive = inv.positive;
      null = after-unused 0 inv.null;
      in_list = on;
      gone = λ a. inv.gone a ∙ ap one_if (sym (after-same is_deleted a (λ _. refl) refl));
      used = λ q k held.
          let (fits, rec, known, alive) = inv.used q k held in
          (
            fits,
            rec,
            after-same is_unused (s.pointers q k) (λ _. refl) refl ∙ known,
            after-same is_deleted (s.pointers q k) (λ _. refl) refl ∙ alive,
          );
      owners = inv.owners;
      places =
          places-Keeps listing-Keeps inv.places (λ q other. rw other refl)
            (subst (λ p. Agrees n moved_to after r p) own_place tt);
    }

  pub retired-Inv :
      (r node : ℕ)
      → stage node ≡ pending r
      → Inv n
          (goto
            (record s { retire_list = update s.retire_list r (s.retire_list r ++ node ∷ []) })
            r
            (testing to_help))
          (update stage node (listed r))
  retired-Inv r node at =
      listing-Inv r node (update s.retire_list r (s.retire_list r ++ node ∷ [])) to_help (inl at)
        (λ q a.
          occurrences-push s.retire_list r node q a
          ∙ if-both
              (λ st.
                occurrences a (s.retire_list q) + one_if ((q == r) && (a == node))
                ≡ one_if (is_listed q st))
              (a == node)
              (λ e.
                let here : a ≡ node = ground (arith, e) in
                let absent : occurrences a (s.retire_list q) ≡ 0 =
                  inv.in_list q a ∙ ap (λ st. one_if (is_listed q st)) (ap stage here ∙ at) in
                ground (arith, absent, e))
              (λ e. ground (arith, inv.in_list q a, e)))

  -- Record `q` has lost the element `last`.
  occurrences-shorter :
      (q last q' a : ℕ) (init : List ℕ)
      → ((b : ℕ) → PopsTo b (s.retire_list q) (some (init, last)))
      → occurrences a (update s.retire_list q init q') + one_if ((q' == q) && (a == last))
        ≡ occurrences a (s.retire_list q')
  occurrences-shorter q last q' a init popped = elim (Bool-cases (q' == q)) [
    | inl e ↦
        let same : q ≡ q' = ground (arith, e) in
        rw e (sym (popped a) ∙ ap (λ i. occurrences a (s.retire_list i)) same)
    | inr e ↦ rw e (omega arith)
  ]

  -- The last element of the list of record `q` goes over to the own list.
  pub popped-Inv :
      (r q : ℕ) (rest : List ℕ) (init : List ℕ) (last : ℕ)
      → ((b : ℕ) → PopsTo b (s.retire_list q) (some (init, last)))
      → Inv n (drain_one s r q rest (some (init, last))) (update stage last (listed r))
  popped-Inv r q rest init last popped =
      let shorter = update s.retire_list q init in
      let stands : 1 ≤ occurrences last (s.retire_list q) = ground (arith, popped last) in
      let at : stage last ≡ listed q =
        is_listed-listed q (stage last) (ground (arith, stands, inv.in_list q last)) in
      listing-Inv r last (update shorter r (shorter r ++ last ∷ [])) (to_drain q rest) (inr (q, at))
        (λ q' a.
          let less = occurrences-shorter q last q' a init popped in
          occurrences-push shorter r last q' a
          ∙ if-both
              (λ st.
                occurrences a (shorter q') + one_if ((q' == r) && (a == last))
                ≡ one_if (is_listed q' st))
              (a == last)
              (λ e.
                let here : a ≡ last = ground (arith, e) in
                let all : occurrences a (s.retire_list q') ≡ one_if (q == q') =
                  inv.in_list q' a ∙ ap (λ st. one_if (is_listed q' st)) (ap stage here ∙ at) in
                ground (arith, less, all, e))
              (λ e. ground (arith, less, inv.in_list q' a, e)))
