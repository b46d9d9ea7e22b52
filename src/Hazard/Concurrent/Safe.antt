-- ===== src/Hazard/Concurrent/Safe.antt =====
-- Every reachable state, and what this means for a reader.
use ccmetrics.Base.{
  ℕ, ◌+◌, ◌≤◌, ◌≡◌, refl, sym, ap, ◌∙◌, Bool, true, false, ◌||◌, ◌==◌, inl, inr, List, [], ◌∷◌,
  Option, none, some, occurrences, if◌then◌else◌, if-both, update, Bool-cases, arith,
}
use mathlib.Core.Path.{subst}
use ccmetrics.Hazard.{should_scan}
use ccmetrics.Hazard.Concurrent.{
  State, Pc, Back, ready, loading, announcing, checking, retiring, testing, reading_head, scanning,
  help_head, helping, draining, to_help, to_drain, goto, without_scan, help, drain_one, pop_back,
  slots_of, step, init, Step, run, push, count, claim, release, begin, clear, copy, replace, remove,
  Reach, start, later,
}
use ccmetrics.Hazard.Concurrent.Stages.{
  Stage, unused, linked, is_listed, is_unused, is_deleted, one_if, IsRecord, Agrees, Inv,
}
use ccmetrics.Hazard.Concurrent.Readers.{go-Inv, set-Inv, check-Inv}
use ccmetrics.Hazard.Concurrent.Writers.{flags-Inv, push-Inv}
use ccmetrics.Hazard.Concurrent.Exchange.{replaced-Inv, removed-Inv}
use ccmetrics.Hazard.Concurrent.Listing.{retired-Inv, popped-Inv, PopsTo, pop_back-PopsTo}
use ccmetrics.Hazard.Concurrent.Scans.{
  slots_of-Covers, slots_of-IsClosed, load-Covers, deletes-Inv, one-list, listed-alive,
}

abbrev Sound : ℕ → State → Type 0
Sound n s = (stage : ℕ → Stage) × Inv n s stage

init-Inv : (n : ℕ) → Inv n init (λ _. unused)
init-Inv n = record {
  in_cell = λ c real. absurd (ground (arith, real));
  fresh = λ _ _. refl;
  positive = omega arith;
  null = refl;
  in_list = λ _ _. refl;
  gone = λ _. refl;
  used = λ q k on. absurd (ground (arith, on));
  owners = λ q on. absurd (ground (arith, on));
  places = λ _. tt;
}

module _ {n : ℕ} {s : State} {stage : ℕ → Stage} (inv : Inv n s stage) where
  testing-Sound :
      (r : ℕ) (back : Back) (full : Bool)
      → Sound n (goto s r (if full then reading_head back else without_scan back))
  testing-Sound r back true = (stage, go-Inv inv r (reading_head back) tt)
  testing-Sound r to_help false = (stage, go-Inv inv r ready tt)
  testing-Sound r (to_drain q rest) false = (stage, go-Inv inv r (draining q rest) tt)

  -- The thread locks or unlocks a record and goes on.
  lock-Sound :
      (r q : ℕ) (b : Bool) (p : Pc)
      → Agrees n (goto (record s { active = update s.active q b }) r p) stage r p
      → Sound n (goto (record s { active = update s.active q b }) r p)
  lock-Sound r q b p = λ own.
      (stage, go-Inv (flags-Inv inv s.hp_count (update s.active q b) s.owned inv.owners) r p own)

  help-Sound : (r q : ℕ) (rest : List ℕ) → Sound n (help s r q rest)
  help-Sound r q rest =
      if-both (Sound n) ((q == r) || s.active q) (λ _. (stage, go-Inv inv r (helping rest) tt))
        (λ _. lock-Sound r q true (draining q rest) tt)

  drain-Sound :
      (r q : ℕ) (rest : List ℕ) (o : Option (List ℕ × ℕ))
      → ((a : ℕ) → PopsTo a (s.retire_list q) o)
      → Sound n (drain_one s r q rest o)
  drain-Sound r q rest none _ = lock-Sound r q false (helping rest) tt
  drain-Sound r q rest (some (init, last)) popped = (_, popped-Inv inv r q rest init last popped)

  -- One step of a thread.
  step-Sound : (r : ℕ) (p : Pc) → s.pc r ≡ p → Sound n (step n s r p)
  step-Sound r ready at = (stage, inv)
  step-Sound r (loading once c k) at =
      let (fits, rec) = subst (Agrees n s stage r) at (inv.places r) in
      (stage, go-Inv inv r (announcing once c k (s.cell c)) (fits, rec))
  step-Sound r (announcing once c k cur) at =
      let (fits, rec) = subst (Agrees n s stage r) at (inv.places r) in
      (
        stage,
        set-Inv inv r k cur false (checking once c k cur) (λ h. absurd (ground (arith, h)))
            (fits, rec, ground arith),
      )
  step-Sound r (checking once c k cur) at = (stage, check-Inv inv r once c k cur at)
  step-Sound r (retiring node) at =
      (_, retired-Inv inv r node (subst (Agrees n s stage r) at (inv.places r)))
  step-Sound r (testing back) at =
      testing-Sound r back
        (should_scan n s.hp_count (record { retired = s.retire_list r; freed = s.freed }))
  step-Sound r (reading_head back) at = (
    stage,
    go-Inv inv r (scanning (slots_of n s.records) [] back)
        (slots_of-IsClosed n s.records, slots_of-Covers inv r),
  )
  step-Sound r (scanning [] live back) at =
      let (_, covers) = subst (Agrees n s stage r) at (inv.places r) in
      (_, deletes-Inv inv r live back covers)
  step-Sound r (scanning ((q, k) ∷ todo) live back) at =
      let ((_, closed), covers) = subst (Agrees n s stage r) at (inv.places r) in
      (
        stage,
        go-Inv inv r
            (scanning todo (if s.pointers q k == 0 then live else s.pointers q k ∷ live) back)
            (closed, load-Covers inv r q k todo live covers),
      )
  step-Sound r help_head at = (stage, go-Inv inv r (helping s.records) tt)
  step-Sound r (helping []) at = (stage, go-Inv inv r ready tt)
  step-Sound r (helping (q ∷ rest)) at = help-Sound r q rest
  step-Sound r (draining q rest) at =
      drain-Sound r q rest (pop_back (s.retire_list q)) (λ a. pop_back-PopsTo a (s.retire_list q))

  -- One step of any kind.
  Step-Sound : {t : State} → Step n s t → Sound n t
  Step-Sound (run r) = step-Sound r (s.pc r) refl
  Step-Sound (push r new at) = (stage, push-Inv inv r at)
  Step-Sound count = (stage, flags-Inv inv (s.hp_count + 1) s.active s.owned inv.owners)
  Step-Sound (claim r rec idle) = (
    stage,
    flags-Inv inv s.hp_count (update s.active r true) (update s.owned r true) (λ q own.
        elim (Bool-cases (q == r)) [
          | inl e ↦ subst (IsRecord s) (ground (arith, e)) rec
          | inr e ↦ inv.owners q (ground (arith, own, e))
        ]),
  )
  Step-Sound (release r own at _) = (
    stage,
    flags-Inv inv s.hp_count (update s.active r false) (update s.owned r false)
        (λ q own. inv.owners q (ground (arith, own))),
  )
  Step-Sound (begin r once c k own at fits) =
      (stage, go-Inv inv r (loading once c k) (fits, inv.owners r own))
  Step-Sound (clear r k own at) =
      (stage, set-Inv inv r k 0 false ready (λ h. absurd (ground (arith, h))) tt)
  Step-Sound (copy r j k own at held below fits) =
      (stage, set-Inv inv r k (s.pointers r j) true ready (λ _. (j, below, fits, held, refl)) tt)
  Step-Sound (replace r c own at) = (_, replaced-Inv inv r c)
  Step-Sound (remove r c own at real) = (_, removed-Inv inv r c real)

Reach-Sound : (n : ℕ) (s : State) → Reach n s → Sound n s
Reach-Sound n s start = (_, init-Inv n)
Reach-Sound n s (later {s = before} path last) =
    let (_, inv) = Reach-Sound n before path in Step-Sound inv last

-- In every state that is reachable, the node of a slot that a thread relies on is not null and has not
-- been deleted, whatever the other threads have done since it was confirmed.
pub held-undeleted :
    (n : ℕ) (s : State) (r k : ℕ)
    → Reach n s
    → s.held r k ≡ true
    → ((s.pointers r k == 0) ≡ false) × (occurrences (s.pointers r k) s.freed ≡ 0)
held-undeleted n s r k path held =
    let (stage, inv) = Reach-Sound n s path in
    let (_, _, known, alive) = inv.used r k held in
    let real : (s.pointers r k == 0) ≡ false = elim (Bool-cases (s.pointers r k == 0)) [
      | inl e ↦
          let at : s.pointers r k ≡ 0 = ground (arith, e) in
          let null = ap (λ a. is_unused (stage a)) at ∙ ap is_unused inv.null in
          absurd (ground (arith, known, null))
      | inr e ↦ e
    ] in
    (real, inv.gone (s.pointers r k) ∙ ap one_if alive)

-- In every state that is reachable, a node stands once at most on the retire lists of two different
-- threads and among the deleted nodes together, and while a cell contains it, and it is not null,
-- it stands on no such list and has not been deleted.
pub deleted-once :
    (n : ℕ) (s : State) (q r node : ℕ)
    → Reach n s
    → (q == r) ≡ false
    → (occurrences node (s.retire_list q)
          + occurrences node (s.retire_list r)
          + occurrences node s.freed
        ≤ 1)
      × ((c : ℕ)
          → s.cell c ≡ node
          → (node == 0) ≡ false
          → occurrences node (s.retire_list q)
              + occurrences node (s.retire_list r)
              + occurrences node s.freed
            ≡ 0)
deleted-once n s q r node path other =
    let (stage, inv) = Reach-Sound n s path in
    let on_q = inv.in_list q node in
    let on_r = inv.in_list r node in
    let gone = inv.gone node in
    (
      ground (
        arith,
        on_q,
        on_r,
        gone,
        other,
        one-list q r (stage node),
        listed-alive q (stage node),
        listed-alive r (stage node),
      ),
      λ c at real.
          let st : stage node ≡ linked c =
            ap stage (sym at) ∙ inv.in_cell c (ground (arith, at, real)) ∙ refl in
          ground
            (arith, on_q, on_r, gone, ap (is_listed q) st, ap (is_listed r) st, ap is_deleted st),
    )
