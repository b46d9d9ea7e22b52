-- ===== src/Striped/Turns.antt =====
-- What each step of `add` and `addSlow` does to the logs and to its own thread.
use ccmetrics.Base.{
  ℕ, ◌≡◌, ◌≤◌, refl, Bool, true, false, Option, List, some, none, if◌then◌else◌, ◌==◌, ◌⊎◌, inl,
  inr, arith, Bool-cases,
}
use ccmetrics.Striped.{
  Memory, Thread, Pc, Frame, idle, fault, enter, read_base, cas_base, acquire, announce, confirm,
  read_slot, cas_slot, loop, cas_stripes, grow, cas_grow, equal?, goto, return, access, step, retry,
  after_failure, new_storage, expand, at_enter, at_acquire, at_read_slot, at_loop, at_cas_stripes,
  at_cas_grow, slot_of, is_dangling, dereferenced,
}
use ccmetrics.Striped.Reclaim.{owns, relies, confirms, ThreadOk, Moves, Turn}

-- A step that writes cells or builds a storage leaves the logs as they were.
module _ (own : ℕ → Bool) (m : Memory) where
  Moves-logs :
      (base : ℕ) (cell : ℕ → ℕ) (storage : ℕ → List ℕ) (next_cell n : ℕ)
      → m.next_storage ≤ n
      → Moves own m (record m {
        base = base;
        cell = cell;
        storage = storage;
        next_cell = next_cell;
        next_storage = n;
      })
  Moves-logs base cell storage next_cell n h = record {
    freed = λ p. refl;
    next = h;
    current = λ p e. inl e;
    former = λ p e. inl e;
    dropped = λ p e. inl e;
    stays = λ p e. e;
    kept = λ p e. e;
  }

  Moves-refl : Moves own m m
  Moves-refl = Moves-logs m.base m.cell m.storage m.next_cell m.next_storage (omega arith)

module _ (m : Memory) (t : Thread) where
  -- A step to where the thread does nothing to a storage.
  nowhere :
      (pc : Pc)
      → ((p : ℕ) → owns pc p ≡ false)
      → ((p : ℕ) → confirms pc p ≡ false)
      → ((p : ℕ) → relies pc p ≡ false)
      → Turn m t (goto m t pc)
  nowhere pc builds announces holds = record {
    moves = Moves-refl (owns t.pc) m;
    builds = λ p e. ground (arith, builds p);
    holds = λ p e. ground (arith, holds p);
    announces = λ p e. ground (arith, announces p);
  }

-- An address that is known is compared with any other.
equal?-known : (s : Option ℕ) (cur p : ℕ) → equal? s cur ≡ true → equal? s p ≡ (cur == p)
equal?-known none cur p e = cc
equal?-known (some q) cur p e = ground arith

module _ (m : Memory) (t : Thread) (f : Frame) where
  -- The thread goes on where it neither owns nor confirms a storage, and relies on none but those it
  -- relied on.
  quiet :
      (pc : Pc)
      → ((p : ℕ) → owns pc p ≡ false)
      → ((p : ℕ) → confirms pc p ≡ false)
      → ((p : ℕ)
          → relies pc p ≡ true
          → (relies t.pc p ≡ true) ⊎ ((confirms t.pc p ≡ true) × (equal? m.stripes p ≡ true)))
      → Turn m t (goto m t pc)
  quiet pc builds announces holds = record {
    moves = Moves-refl (owns t.pc) m;
    builds = λ p e. ground (arith, builds p);
    holds = λ p e. (refl, holds p e);
    announces = λ p e. ground (arith, announces p);
  }

  returned :
      (base : ℕ) (cell : ℕ → ℕ) (v : ℕ)
      → Turn m t (return (record m { base = base; cell = cell }) v)
  returned base cell v = record {
    moves = Moves-logs (owns t.pc) m _ _ _ _ _ (omega arith);
    builds = λ p e. cc;
    holds = λ p e. cc;
    announces = λ p e. cc;
  }

  at_enter-Turn : (s : Option ℕ) → Turn m t (at_enter m t f s)
  at_enter-Turn none = nowhere m t (read_base f) (λ p. refl) (λ p. refl) (λ p. refl)
  at_enter-Turn (some cur) = nowhere m t (acquire f) (λ p. refl) (λ p. refl) (λ p. refl)

  at_acquire-Turn : (s : Option ℕ) → Turn m t (at_acquire m t f s)
  at_acquire-Turn none = nowhere m t fault (λ p. refl) (λ p. refl) (λ p. refl)
  at_acquire-Turn (some cur) = nowhere m t (announce f cur) (λ p. refl) (λ p. refl) (λ p. refl)

  at_read_slot-Turn :
      (cur : ℕ) (s : Option ℕ) → t.pc ≡ read_slot f cur → Turn m t (at_read_slot m t f cur s)
  at_read_slot-Turn cur none e = nowhere m t fault (λ p. refl) (λ p. refl) (λ p. refl)
  at_read_slot-Turn cur (some slot) e =
      quiet (cas_slot f cur slot (m.cell slot)) (λ p. refl) (λ p. refl) (λ p h. inl (rw e h))

  retry-Turn :
      (cur slot expected : ℕ)
      → t.pc ≡ cas_slot f cur slot expected
      → Turn m t (goto m t (after_failure m f cur))
  unfolding after_failure retry
  retry-Turn cur slot expected e =
      quiet (after_failure m f cur) (λ p. ground arith) (λ p. ground arith)
        (λ p h. inl (rw e (ground arith)))

  at_loop-Turn : (s : Option ℕ) → Turn m t (at_loop m t f s)
  unfolding new_storage
  at_loop-Turn none = record {
    moves = Moves-logs (owns t.pc) m _ _ _ _ _ (omega arith);
    builds = λ p e. (ground arith, ground arith, refl, refl);
    holds = λ p e. cc;
    announces = λ p e. cc;
  }
  at_loop-Turn (some cur) =
      quiet (if f.load then acquire f else read_slot f cur) (λ p. ground arith) (λ p. ground arith)
        (λ p h. ground arith)

  at_cas_stripes-Turn :
      (cur : ℕ) (s : Option ℕ)
      → m.stripes ≡ s
      → t.pc ≡ cas_stripes f cur
      → ThreadOk m t
      → Turn m t (at_cas_stripes m t f cur s)
  at_cas_stripes-Turn cur none at e ok = record {
    moves = record {
      freed = λ p. refl;
      next = omega arith;
      current = λ p h. inr (rw e h);
      former = λ p h. inl h;
      dropped = λ p h. inl h;
      stays = λ p h. ground (arith, at);
      kept = λ p h. h;
    };
    builds = λ p h. cc;
    holds = λ p h. cc;
    announces = λ p h. cc;
  }
  at_cas_stripes-Turn cur (some q) at e ok = record {
    moves = record {
      freed = λ p. refl;
      next = omega arith;
      current = λ p h. inl h;
      former = λ p h. inl h;
      dropped = λ p h. elim (Bool-cases (cur == p)) [
        | inl same ↦
            let own' : owns t.pc p ≡ true = rw e same in inr (own', ground (arith, ok.fresh p own'))
        | inr apart ↦ inl (ground (arith, h))
      ];
      stays = λ p h. h;
      kept = λ p h. h;
    };
    builds = λ p h. cc;
    holds = λ p h. cc;
    announces = λ p h. cc;
  }

  at_cas_grow-Turn :
      (cur next : ℕ) (s : Option ℕ)
      → m.stripes ≡ s
      → t.pc ≡ cas_grow f cur next
      → ThreadOk m t
      → Turn m t (at_cas_grow m t f cur next s)
  at_cas_grow-Turn cur next s at e ok =
      let own : (p : ℕ) → owns t.pc p ≡ (next == p) = λ p. rw e in
      elim (Bool-cases (equal? s cur)) [
        | inl won ↦ rw won (record {
          moves = record {
            freed = λ p. refl;
            next = omega arith;
            current = λ p h. inr (rw e h);
            former =
                λ p h. ground (arith, own p, ok.fresh p, equal?-known m.stripes cur p (rw at won));
            dropped = λ p h. inl h;
            stays = λ p h. ground (arith, equal?-known m.stripes cur p (rw at won));
            kept = λ p h. ground arith;
          };
          builds = λ p h. cc;
          holds = λ p h. cc;
          announces = λ p h. cc;
        })
        | inr lost ↦ rw lost (record {
          moves = record {
            freed = λ p. refl;
            next = omega arith;
            current = λ p h. inl h;
            former = λ p h. inl h;
            dropped = λ p h. ground (arith, own p, ok.fresh p);
            stays = λ p h. h;
            kept = λ p h. h;
          };
          builds = λ p h. cc;
          holds = λ p h. cc;
          announces = λ p h. cc;
        })
      ]

  announce-Turn : (cur : ℕ) → Turn m t (access m t (announce f cur))
  unfolding access
  announce-Turn cur = record {
    moves = Moves-refl (owns t.pc) m;
    builds = λ p h. cc;
    holds = λ p h. cc;
    announces = λ p h. h;
  }

  confirm-Turn : (cur : ℕ) → t.pc ≡ confirm f cur → Turn m t (access m t (confirm f cur))
  unfolding access
  confirm-Turn cur e =
      quiet (if equal? m.stripes cur then read_slot f cur else acquire f) (λ p. ground arith)
        (λ p. ground arith)
        (λ p h. inr (rw e (ground arith), ground (arith, equal?-known m.stripes cur p)))

  grow-Turn : (cur : ℕ) → t.pc ≡ grow f cur → Turn m t (access m t (grow f cur))
  unfolding access expand
  grow-Turn cur e = record {
    moves = Moves-logs (owns t.pc) m _ _ _ _ _ (omega arith);
    builds = λ p h. (ground arith, ground arith, refl, refl);
    holds = λ p h. (refl, inl (rw e h));
    announces = λ p h. cc;
  }

  cas_base-Turn : (expected : ℕ) → Turn m t (access m t (cas_base f expected))
  unfolding access
  cas_base-Turn expected = elim (Bool-cases (m.base == expected)) [
    | inl e ↦ rw e (returned _ m.cell f.value)
    | inr e ↦ rw e (
        nowhere m t (loop (record f { slow = true; contended = false; load = true }) none)
          (λ p. refl) (λ p. refl) (λ p. refl))
  ]

  cas_slot-Turn :
      (cur slot expected : ℕ)
      → t.pc ≡ cas_slot f cur slot expected
      → Turn m t (access m t (cas_slot f cur slot expected))
  unfolding access
  cas_slot-Turn cur slot expected at = elim (Bool-cases (m.cell slot == expected)) [
    | inl e ↦ rw e (returned m.base _ f.value)
    | inr e ↦ rw e (retry-Turn cur slot expected at)
  ]

module _ (m : Memory) (t : Thread) where
  access-Turn : (pc : Pc) → t.pc ≡ pc → ThreadOk m t → Turn m t (access m t pc)
  unfolding access
  access-Turn idle e ok = nowhere m t idle (λ p. refl) (λ p. refl) (λ p. refl)
  access-Turn fault e ok = nowhere m t fault (λ p. refl) (λ p. refl) (λ p. refl)
  access-Turn (enter f) e ok = at_enter-Turn m t f m.stripes
  access-Turn (read_base f) e ok =
      nowhere m t (cas_base f m.base) (λ p. refl) (λ p. refl) (λ p. refl)
  access-Turn (cas_base f expected) e ok = cas_base-Turn m t f expected
  access-Turn (acquire f) e ok = at_acquire-Turn m t f m.stripes
  access-Turn (announce f cur) e ok = announce-Turn m t f cur
  access-Turn (confirm f cur) e ok = confirm-Turn m t f cur e
  access-Turn (read_slot f cur) e ok = at_read_slot-Turn m t f cur (slot_of m f cur) e
  access-Turn (cas_slot f cur slot expected) e ok = cas_slot-Turn m t f cur slot expected e
  access-Turn (loop f cur) e ok = at_loop-Turn m t f cur
  access-Turn (cas_stripes f cur) e ok = at_cas_stripes-Turn m t f cur m.stripes refl e ok
  access-Turn (grow f cur) e ok = grow-Turn m t f cur e
  access-Turn (cas_grow f cur next) e ok = at_cas_grow-Turn m t f cur next m.stripes refl e ok

  -- Every step of a thread, a faulting one too.
  pub step-Turn : ThreadOk m t → Turn m t (step m t t.pc)
  unfolding step
  step-Turn ok = elim (Bool-cases (is_dangling m (dereferenced m t.pc))) [
    | inl e ↦ rw e (nowhere m t fault (λ p. refl) (λ p. refl) (λ p. refl))
    | inr e ↦ rw e (access-Turn t.pc refl ok)
  ]
