-- ===== src/Striped/Safe.antt =====
-- The invariant of the hazards in the states that the threads and the scans reach.
use ccmetrics.Base.{
  ℕ, ◌≡◌, ◌≢◌, refl, ap, Option, ◌∷◌, Bool, true, false, some, none, ◌==◌, ==_iff, ◌&&◌, ◌||◌,
  arith, Bool-cases, inl, inr,
}
use ccmetrics.Striped.{Frame, Outcome, enter, equal?, has, update}
use ccmetrics.Striped.System.{System, Step, begin, run, look, reclaim, Reach, start, later}
use ccmetrics.Striped.Reclaim.{
  owns, ReclaimInv, init-ReclaimInv, Turn, LogsOk-turn, ThreadOk-turn, ThreadOk-other,
}
use ccmetrics.Striped.Turns.{step-Turn}

unnamed : (h : Option ℕ) (p : ℕ) → h ≢ some p → equal? h p ≡ false
unnamed none p e = refl
unnamed (some q) p e = elim (Bool-cases (q == p)) [
  | inl same ↦ absurd (e (ap some ((==_iff q p).0 same)))
  | inr apart ↦ apart
]

-- The invariant behind each kind of step.
module _ {s : System} (inv : ReclaimInv s) where
  run-ReclaimInv :
      (i : ℕ) (o : Outcome) (total : ℕ)
      → Turn s.mem (s.thread i) o
      → ReclaimInv (record {
        mem = o.mem;
        thread = update s.thread i o.thread;
        total = total;
        cleared = s.cleared;
      })
  run-ReclaimInv i o total x = record {
    logs = LogsOk-turn inv.logs (inv.threads i) x;
    threads = λ j. elim (Bool-cases (j == i)) [
      | inl e ↦ rw e (ThreadOk-turn inv.logs (inv.threads i) x)
      | inr e ↦
          rw e (ThreadOk-other inv.logs (inv.threads i) x (s.thread j) (inv.threads j) (other j e))
    ];
    apart = λ j k p e e'. elim (Bool-cases (j == i)) [
      | inl here ↦ elim (Bool-cases (k == i)) [
        | inl here' ↦ omega (arith, (==_iff j i).0 here, (==_iff k i).0 here')
        | inr there ↦ absurd (new p (rw here at e) k (rw there at e'))
      ]
      | inr there ↦ elim (Bool-cases (k == i)) [
        | inl here ↦ absurd (new p (rw here at e') j (rw there at e))
        | inr there' ↦ inv.apart j k p (rw there at e) (rw there' at e')
      ]
    ];
    swept = λ p j e. elim (Bool-cases (j == i)) [
      | inl here ↦
          let at : s.cleared p i ≡ true = rw (← (==_iff j i).0 here) e in
          rw here (
            x.moves.kept p (inv.swept p i at).0,
            ground (arith, inv.swept p i at, x.holds p, inv.logs.current p),
          )
      | inr there ↦ rw there (x.moves.kept p (inv.swept p j e).0, (inv.swept p j e).1)
    ];
  }
    where
      other :
          (j : ℕ)
          → (j == i) ≡ false
          → (p : ℕ) → owns (s.thread i).pc p ≡ true
          → owns (s.thread j).pc p ≡ false
      other j e p own = ground (arith, inv.apart i j p own)

      new : (p : ℕ) → owns o.thread.pc p ≡ true → (k : ℕ) → owns (s.thread k).pc p ≡ true → ⊥
      new p e k e' = omega (arith, (x.builds p e).0, ((inv.threads k).fresh p e').0)

  begin-ReclaimInv :
      (i : ℕ) (f : Frame)
      → ReclaimInv (record s { thread = update s.thread i (record (s.thread i) { pc = enter f }) })
  begin-ReclaimInv i f = record {
    logs = inv.logs;
    threads = λ j. elim (Bool-cases (j == i)) [
      | inl e ↦ rw e (record { fresh = λ p h. cc; held = λ p h. cc; announced = λ p h. cc })
      | inr e ↦ rw e (inv.threads j)
    ];
    apart = λ j k p e e'. inv.apart j k p (owner j p e) (owner k p e');
    swept = λ p j e. elim (Bool-cases (j == i)) [
      | inl here ↦ rw here ((inv.swept p j e).0, refl)
      | inr there ↦ rw there (inv.swept p j e)
    ];
  }
    where
      absent : false ≡ true → ⊥
      absent e = cc

      owner :
          (j p : ℕ)
          → owns (update s.thread i (record (s.thread i) { pc = enter f }) j).pc p ≡ true
          → owns (s.thread j).pc p ≡ true
      owner j p e = elim (Bool-cases (j == i)) [
        | inl here ↦ absurd (absent (rw here at e))
        | inr there ↦ rw there at e
      ]

  look-ReclaimInv :
      (p : ℕ) (group : ℕ → Bool)
      → has p s.mem.retired ≡ true
      → ((i : ℕ) → group i ≡ true → (s.thread i).hazard ≢ some p)
      → ReclaimInv (record s { cleared = λ q i. ((p == q) && group i) || s.cleared q i })
  look-ReclaimInv p group old unseen = record {
    logs = inv.logs;
    threads = inv.threads;
    apart = inv.apart;
    swept = λ q j e. elim (Bool-cases (s.cleared q j)) [
      | inl before ↦ inv.swept q j before
      | inr now ↦
          let seen : ((p == q) && group j) ≡ true = ground arith in
          let same : p ≡ q = ground arith in
          let read : (s.thread j).hazard ≢ some p = unseen j (ground arith) in
          (
            rw (← same) old,
            ground (arith, (inv.threads j).held q, unnamed (s.thread j).hazard p read, same),
          )
    ];
  }

  reclaim-ReclaimInv :
      (p : ℕ)
      → ((i : ℕ) → s.cleared p i ≡ true)
      → ReclaimInv (record s { mem = record s.mem { freed = p ∷ s.mem.freed } })
  reclaim-ReclaimInv p all = record {
    logs = record {
      current = inv.logs.current;
      former = inv.logs.former;
      dropped = inv.logs.dropped;
      reclaimed = λ q e. ground (arith, inv.swept p 0 (all 0), inv.logs.reclaimed q);
    };
    threads = λ j. record {
      fresh = (inv.threads j).fresh;
      held = λ q e. ground (arith, (inv.threads j).held q e, inv.swept p j (all j));
      announced = (inv.threads j).announced;
    };
    apart = inv.apart;
    swept = inv.swept;
  }

Step-ReclaimInv : {s s' : System} → Step s s' → ReclaimInv s → ReclaimInv s'
Step-ReclaimInv {s} (begin i value hash e) inv = begin-ReclaimInv inv i _
Step-ReclaimInv {s} (run i o e) inv =
    run-ReclaimInv inv i o _ (rw (← e) (step-Turn s.mem (s.thread i) (inv.threads i)))
Step-ReclaimInv (look p group old unseen) inv = look-ReclaimInv inv p group old unseen
Step-ReclaimInv (reclaim p once all) inv = reclaim-ReclaimInv inv p all

pub Reach-ReclaimInv : {s : System} → Reach s → ReclaimInv s
Reach-ReclaimInv start = init-ReclaimInv
Reach-ReclaimInv (later r st) = Step-ReclaimInv st (Reach-ReclaimInv r)
