-- ===== src/Striped/Effects.antt =====
-- The kinds of change that a step makes to the shared memory, and what each keeps.
use ccmetrics.Base.{
  ℕ, ◌+◌, ◌%◌, ◌^◌, ◌<◌, ◌≡◌, refl, inl, inr, List, [], some, none, arith, ◌∙◌, sym, ap,
  Option-cases,
}
use mathlib.Core.List.{append-nil}
use ccmetrics.Striped.{Memory, Thread, Pc, Outcome, live, update, add64}
use ccmetrics.Striped.System.{amount}
use ccmetrics.Striped.Slots.{
  In, AllBelow-mono, In-append_left, sum_of, sum_of-append, sum_of-update, sum_of-zero,
  not-mem-append,
}
use ccmetrics.Striped.Invariant.{MemInv, Published, Built, LocalOk, Extends, LocalOk-mono}

pub none-ne-some : {a : ℕ} → none ≡ some a → ⊥
none-ne-some e = cc

-- The sum that the counter stands for.
unfoldable pub contents : Memory → ℕ
contents m = m.base + sum_of m.cell (live m)

-- One step keeps the invariant and all that other threads know, and adds what it returns.
pub record Effect (m : Memory) (o : Outcome) : Type 0 where
  pub inv : MemInv o.mem
  pub ext : Extends m o.mem
  pub ok : LocalOk o.mem o.thread.pc
  pub counted : contents o.mem % 2 ^ 64 ≡ (contents m + amount o.added) % 2 ^ 64

Extends-refl : (m : Memory) → Extends m m
Extends-refl m = record {
  storages = omega arith;
  cells = omega arith;
  same = λ p h. refl;
  more = [];
  grown = sym (append-nil (live m));
  stays = λ h. h;
}

-- The new storage `s` at the next address, with `n` new slots.
abbrev pub alloc : List ℕ → ℕ → Memory → Memory
alloc s n m = record m {
  storage = update m.storage m.next_storage s;
  next_cell = m.next_cell + n;
  next_storage = m.next_storage + 1;
}

module _ {m : Memory} (inv : MemInv m) where
  pub stay :
      (t : Thread) {pc : Pc}
      → LocalOk m pc
      → Effect m (record { mem = m; thread = record t { pc = pc }; added = none })
  stay t ok = record {
    inv = inv;
    ext = Extends-refl m;
    ok = ok;
    counted = ap (λ (c : ℕ). c % 2 ^ 64) (omega arith);
  }

  module _ (s : List ℕ) (n : ℕ) where
    pub update_other : (p : ℕ) → p < m.next_storage → (alloc s n m).storage p ≡ m.storage p
    update_other p h = ground arith

    pub live-alloc : live (alloc s n m) ≡ live m
    live-alloc = elim (Option-cases m.stripes) [
      | inl e ↦ rw e
      | inr (p, e) ↦ rw e (update_other p (inv.known p e).0)
    ]

    pub Extends-alloc : Extends m (alloc s n m)
    Extends-alloc = record {
      storages = omega arith;
      cells = omega arith;
      same = update_other;
      more = [];
      grown = live-alloc ∙ sym (append-nil (live m));
      stays = λ h. h;
    }

    pub MemInv-alloc : MemInv (alloc s n m)
    MemInv-alloc = record {
      fits = inv.fits;
      clean = λ a h. inv.clean a (λ i. h (rw live-alloc i));
      rising = rw live-alloc inv.rising;
      below =
          rw live-alloc
            (AllBelow-mono m.next_cell (m.next_cell + n) (live m) (omega arith) inv.below);
      known = λ p e. let (lt, pos) = inv.known p e in (omega arith, rw (update_other p lt) pos);
    }

    pub contents-alloc : contents (alloc s n m) ≡ contents m
    unfolding contents
    contents-alloc = rw live-alloc

  -- A write to a live slot.
  module _ (a v : ℕ) (i : In a (live m)) where
    abbrev pub written : Memory
    written = record m { cell = update m.cell a (add64 (m.cell a) v) }

    pub contents-written : contents written % 2 ^ 64 ≡ (contents m + v) % 2 ^ 64
    unfolding contents
    contents-written =
        omega (arith, sum_of-update m.cell (live m) a (add64 (m.cell a) v) 0 inv.rising i)

    pub MemInv-written : MemInv written
    MemInv-written = record {
      fits = inv.fits;
      clean = λ b h. ground (arith, inv.clean b h, spare b h);
      rising = inv.rising;
      below = inv.below;
      known = inv.known;
    }
      where
        spare : (b : ℕ) → (In b (live m) → ⊥) → b ≡ a → ⊥
        spare b h e = h (rw e i)

  -- The live storage as a published one.
  pub Published-live : {p : ℕ} → m.stripes ≡ some p → Published m p
  Published-live {p} e = record {
    named = (inv.known p e).0;
    sized = (inv.known p e).1;
    rest = [];
    prefix = rw e (sym (append-nil (m.storage p)));
  }

  -- The storage `p`, built on all live slots, is published.
  module _ (p : ℕ) (b : Built m p (live m)) (r : List ℕ) where
    abbrev published : Memory
    published = record m { stripes = some p; retired = r }

    pub MemInv-published : MemInv published
    MemInv-published = record {
      fits = inv.fits;
      clean = λ a h. inv.clean a (λ i. h (rw b.prefix (In-append_left a (live m) b.extra i)));
      rising = b.rising;
      below = b.below;
      known = λ q e. let same : p ≡ q = cc in rw (← same) (b.named, b.sized);
    }

    pub Extends-published : Extends m published
    Extends-published = record {
      storages = omega arith;
      cells = omega arith;
      same = λ q h. refl;
      more = b.extra;
      grown = b.prefix;
      stays = λ h. (p, refl);
    }

    pub contents-published : contents published ≡ contents m
    unfolding contents
    contents-published =
        let fresh : (a : ℕ) → In a b.extra → m.cell a ≡ 0 =
          λ a i. inv.clean a (not-mem-append a 0 (live m) b.extra (rw b.prefix at b.rising) i) in
        rw b.prefix
          (omega (arith, sum_of-append m.cell (live m) b.extra, sum_of-zero m.cell b.extra fresh))

-- Memory that differs in the reclamation logs only.
module _ {m : Memory} (inv : MemInv m) (d r : List ℕ) where
  abbrev pub logged : Memory
  logged = record m { discarded = d; freed = r }

  pub Extends-logged : Extends m logged
  Extends-logged = record {
    storages = omega arith;
    cells = omega arith;
    same = λ p h. refl;
    more = [];
    grown = sym (append-nil (live m));
    stays = λ h. h;
  }

  pub MemInv-logged : MemInv logged
  MemInv-logged = record {
    fits = inv.fits;
    clean = inv.clean;
    rising = inv.rising;
    below = inv.below;
    known = inv.known;
  }

  pub Effect-logged :
      (t : Thread) {pc : Pc}
      → LocalOk m pc
      → Effect m (record { mem = logged; thread = record t { pc = pc }; added = none })
  unfolding contents
  Effect-logged t ok = record {
    inv = MemInv-logged;
    ext = Extends-logged;
    ok = LocalOk-mono Extends-logged ok;
    counted = ap (λ (c : ℕ). c % 2 ^ 64) (omega arith);
  }
