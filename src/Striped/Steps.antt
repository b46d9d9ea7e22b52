-- ===== src/Striped/Steps.antt =====
-- The effect of each step of a thread, for the invariant and the sum.
use ccmetrics.Base.{
  ℕ, ◌+◌, ◌-◌, ◌*◌, ◌%◌, ◌^◌, ◌<◌, ◌≡◌, refl, inl, inr, List, [], ◌∷◌, ◌++◌, some, none, Option,
  arith, ◌==◌, length, ltb, ◌∙◌, sym, ap, true, Bool-cases, Option-cases, length-append, ==_iff,
}
use mathlib.Core.List.{append-nil}
use native.Mathlib.Nat.{mod-lt}
use ccmetrics.Striped.{
  Memory, Thread, Frame, Pc, cas_base, confirm, cas_slot, loop, grow, access, step, is_dangling,
  dereferenced, live, update, slab, add64, equal?, slot_of, retry, after_failure, return, goto,
  at_enter, at_acquire, at_read_slot, at_cas_stripes, at_cas_grow, stripe_limit,
}
use ccmetrics.Striped.Slots.{
  In, From, AllBelow, AllBelow-mono, AllBelow-append, From-append, From-slab, AllBelow-slab,
  length-slab, update_self, From-prefix, AllBelow-prefix, In-append_left, get_elem?-In,
}
use ccmetrics.Striped.Invariant.{
  HasStripes, MemInv, Published, Built, LocalOk, idle_ok, fault_ok, enter_ok, read_base_ok,
  cas_base_ok, acquire_ok, announce_ok, confirm_ok, read_slot_ok, cas_slot_ok, loop_first,
  loop_reload, loop_keep, cas_stripes_ok, grow_ok, cas_grow_ok, Published-mono,
}
use ccmetrics.Striped.Effects.{
  none-ne-some, contents, Effect, alloc, stay, contents-alloc, Extends-alloc, MemInv-alloc,
  contents-written, MemInv-written, Published-live, MemInv-published, Extends-published,
  contents-published, Effect-logged,
}

nonempty-append : (xs ys : List ℕ) → 0 < length xs → [] ≡ xs ++ ys → ⊥
nonempty-append [] ys h e = absurd (omega arith)
nonempty-append (x ∷ xs) ys h e = cc

live-none : (m : Memory) → m.stripes ≡ none → live m ≡ []
live-none m e = rw e

live-some : (m : Memory) {p : ℕ} → m.stripes ≡ some p → live m ≡ m.storage p
live-some m e = rw e

pub HasStripes-Published : {m : Memory} {cur : ℕ} → Published m cur → HasStripes m
HasStripes-Published {m} {cur} u = elim (Option-cases m.stripes) [
  | inl e ↦ absurd (nonempty-append (m.storage cur) u.rest u.sized (sym (live-none m e) ∙ u.prefix))
  | inr h ↦ h
]

-- Where a thread goes after a failed update.
retry-LocalOk : {m : Memory} (f : Frame) {cur : ℕ} → Published m cur → LocalOk m (retry m f cur)
unfolding retry
retry-LocalOk {m} f {cur} u = elim (Bool-cases f.contended) [
  | inl e ↦ elim (Bool-cases (ltb (length (m.storage cur)) stripe_limit)) [
    | inl small ↦ simp (e, small) (grow_ok u)
    | inr full ↦ simp (e, full) (loop_keep u)
  ]
  | inr e ↦ simp e (loop_keep u)
]

after_failure-LocalOk :
    {m : Memory} (f : Frame) {cur : ℕ} → Published m cur → LocalOk m (after_failure m f cur)
unfolding after_failure
after_failure-LocalOk {m} f {cur} u = elim (Bool-cases f.slow) [
  | inl e ↦ simp e (retry-LocalOk f u)
  | inr e ↦ simp e (loop_keep u)
]

-- The slot at the hash code's index is there, and it is live.
pub slot_of-live :
    {m : Memory} (f : Frame) {cur : ℕ}
    → Published m cur
    → (a : ℕ) × (slot_of m f cur ≡ some a) × In a (live m)
slot_of-live {m} f {cur} u =
    let (a, e, i) =
      get_elem?-In (m.storage cur) (f.hash % length (m.storage cur)) (mod-lt f.hash u.sized) in
    (a, e, rw u.prefix (In-append_left a (m.storage cur) u.rest i))

module _ {m : Memory} (inv : MemInv m) (t : Thread) (f : Frame) where
  at_enter-Effect : (s : Option ℕ) → m.stripes ≡ s → Effect m (at_enter m t f s)
  at_enter-Effect none e = stay inv t read_base_ok
  at_enter-Effect (some p) e = stay inv t (acquire_ok (p, e))

  at_acquire-Effect : (s : Option ℕ) → HasStripes m → m.stripes ≡ s → Effect m (at_acquire m t f s)
  at_acquire-Effect none (p, h) e = absurd (none-ne-some (sym e ∙ h))
  at_acquire-Effect (some p) h e = stay inv t (announce_ok (Published-live inv e))

  at_read_slot-Effect :
      (cur : ℕ) → Published m cur → Effect m (at_read_slot m t f cur (slot_of m f cur))
  at_read_slot-Effect cur u =
      let (a, e, i) = slot_of-live f u in rw e (stay inv t (cas_slot_ok u i))

  cas_base-Effect : (expected : ℕ) → Effect m (access m t (cas_base f expected))
  unfolding access contents
  cas_base-Effect expected = elim (Bool-cases (m.base == expected)) [
    | inl e ↦ simp e (record {
      inv = record {
        fits = omega arith;
        clean = inv.clean;
        rising = inv.rising;
        below = inv.below;
        known = inv.known;
      };
      ext = record {
        storages = omega arith;
        cells = omega arith;
        same = λ p h. refl;
        more = [];
        grown = sym (append-nil (live m));
        stays = λ h. h;
      };
      ok = idle_ok;
      counted = omega (arith, (==_iff m.base expected).0 e);
    })
    | inr e ↦ simp e (stay inv t (loop_first refl))
  ]

  written-Effect :
      (slot expected : ℕ)
      → In slot (live m)
      → m.cell slot ≡ expected
      → Effect m (return (record m { cell = update m.cell slot (add64 expected f.value) }) f.value)
  written-Effect slot expected i h = rw (← h) (record {
    inv = MemInv-written inv slot f.value i;
    ext = record {
      storages = omega arith;
      cells = omega arith;
      same = λ p h. refl;
      more = [];
      grown = sym (append-nil (live m));
      stays = λ h. h;
    };
    ok = idle_ok;
    counted = contents-written inv slot f.value i;
  })

  cas_slot-Effect :
      (cur slot expected : ℕ)
      → Published m cur
      → In slot (live m)
      → Effect m (access m t (cas_slot f cur slot expected))
  unfolding access
  cas_slot-Effect cur slot expected u i = elim (Bool-cases (m.cell slot == expected)) [
    | inl e ↦ simp e (written-Effect slot expected i ((==_iff (m.cell slot) expected).0 e))
    | inr e ↦ simp e (stay inv t (after_failure-LocalOk f u))
  ]

  -- A storage that keeps `common` and adds the slab behind all addresses handed out so far.
  Built-alloc :
      (common : List ℕ) (n : ℕ)
      → 0 < n
      → From 0 common
      → AllBelow m.next_cell common
      → Built (alloc (common ++ slab m.next_cell n) n m) m.next_storage common
  Built-alloc common n pos up low = record {
    named = omega arith;
    sized =
        rw self
          (omega (arith, length-append common (slab m.next_cell n), length-slab m.next_cell n));
    extra = slab m.next_cell n;
    prefix = self;
    rising =
        rw self (From-append 0 m.next_cell common _ (omega arith) up low (From-slab m.next_cell n));
    below = rw self (
        AllBelow-append (m.next_cell + n) common _
          (AllBelow-mono m.next_cell (m.next_cell + n) common (omega arith) low)
          (AllBelow-slab m.next_cell n));
  }
    where
      self :
          (alloc (common ++ slab m.next_cell n) n m).storage m.next_storage
          ≡ common ++ slab m.next_cell n
      self = update_self m.storage m.next_storage (common ++ slab m.next_cell n)

  alloc-Effect :
      (s : List ℕ) (n : ℕ) (t' : Thread)
      → LocalOk (alloc s n m) t'.pc
      → Effect m (record { mem = alloc s n m; thread = t'; added = none })
  alloc-Effect s n t' ok = record {
    inv = MemInv-alloc inv s n;
    ext = Extends-alloc inv s n;
    ok = ok;
    counted = ap (λ (c : ℕ). c % 2 ^ 64) (contents-alloc inv s n ∙ omega arith);
  }

  published-Effect :
      (p : ℕ) (b : Built m p (live m)) (r : List ℕ) (pc : Pc)
      → LocalOk (record m { stripes = some p; retired = r }) pc
      → Effect m (goto (record m { stripes = some p; retired = r }) t pc)
  published-Effect p b r pc ok = record {
    inv = MemInv-published inv p b r;
    ext = Extends-published inv p b r;
    ok = ok;
    counted = ap (λ (c : ℕ). c % 2 ^ 64) (contents-published inv p b r ∙ omega arith);
  }

  at_cas_stripes-Effect :
      (cur : ℕ) (s : Option ℕ)
      → f.load ≡ true
      → Built m cur []
      → m.stripes ≡ s
      → Effect m (at_cas_stripes m t f cur s)
  at_cas_stripes-Effect cur none first b e =
      let b' : Built m cur (live m) = rw (live-none m e) b in
      published-Effect cur b' m.retired _
        (read_slot_ok (Published-live (MemInv-published inv cur b' m.retired) refl))
  at_cas_stripes-Effect cur (some p) first b e =
      Effect-logged inv (cur ∷ m.discarded) m.freed t (loop_reload first (p, e))

  won_grow-Effect :
      (cur next : ℕ)
      → Published m cur
      → Built m next (m.storage cur)
      → m.stripes ≡ some cur
      → Effect m
          (goto (record m { stripes = some next; retired = cur ∷ m.retired }) t (loop f (some cur)))
  won_grow-Effect cur next u b e =
      let b' : Built m next (live m) = rw (live-some m e) b in
      published-Effect next b' (cur ∷ m.retired) _
        (loop_keep (Published-mono (Extends-published inv next b' (cur ∷ m.retired)) u))

  cas_grow-Effect :
      (cur next : ℕ)
      → Published m cur
      → Built m next (m.storage cur)
      → (s : Option ℕ) → m.stripes ≡ s
      → Effect m (at_cas_grow m t f cur next s)
  cas_grow-Effect cur next u b none e = absurd (none-ne-some (sym e ∙ (HasStripes-Published u).1))
  cas_grow-Effect cur next u b (some p) e = elim (Bool-cases (p == cur)) [
    | inl same ↦ simp same (won_grow-Effect cur next u b (e ∙ ap some ((==_iff p cur).0 same)))
    | inr apart ↦
        simp apart
          (Effect-logged inv (next ∷ m.discarded) m.freed t (loop_keep (Published-live inv e)))
  ]

  confirm-Effect : (cur : ℕ) → Published m cur → Effect m (access m t (confirm f cur))
  unfolding access
  confirm-Effect cur u = elim (Bool-cases (equal? m.stripes cur)) [
    | inl e ↦ simp e (stay inv t (read_slot_ok u))
    | inr e ↦ simp e (stay inv t (acquire_ok (HasStripes-Published u)))
  ]

  keep-Effect : (cur : ℕ) → Published m cur → Effect m (access m t (loop f (some cur)))
  unfolding access
  keep-Effect cur u = elim (Bool-cases f.load) [
    | inl e ↦ simp e (stay inv t (acquire_ok (HasStripes-Published u)))
    | inr e ↦ simp e (stay inv t (read_slot_ok u))
  ]

  grow-Effect : (cur : ℕ) → Published m cur → Effect m (access m t (grow f cur))
  unfolding access
  grow-Effect cur u =
      let old = m.storage cur in
      let n = length old * 2 - length old in
      let s = old ++ slab m.next_cell n in
      let built =
        Built-alloc old n (omega (arith, u.sized))
          (From-prefix 0 old u.rest (rw u.prefix at inv.rising))
          (AllBelow-prefix m.next_cell old u.rest (rw u.prefix at inv.below)) in
      let x = Extends-alloc inv s n in
      alloc-Effect s n _ (cas_grow_ok (Published-mono x u) (rw (x.same cur u.named) built))

access-Effect :
    {m : Memory} → MemInv m → (t : Thread) {pc : Pc} → LocalOk m pc → Effect m (access m t pc)
unfolding access
access-Effect inv t idle_ok = stay inv t idle_ok
access-Effect inv t fault_ok = stay inv t fault_ok
access-Effect {m} inv t (enter_ok {f}) = at_enter-Effect inv t f m.stripes refl
access-Effect inv t read_base_ok = stay inv t cas_base_ok
access-Effect inv t (cas_base_ok {f} {e}) = cas_base-Effect inv t f e
access-Effect {m} inv t (acquire_ok {f} h) = at_acquire-Effect inv t f m.stripes h refl
access-Effect inv t (announce_ok {f} {cur} u) =
    stay inv (record { pc = confirm f cur; hazard = some cur }) (confirm_ok u)
access-Effect inv t (confirm_ok {f} {cur} u) = confirm-Effect inv t f cur u
access-Effect inv t (read_slot_ok {f} {cur} u) = at_read_slot-Effect inv t f cur u
access-Effect inv t (cas_slot_ok {f} {cur} {slot} {e} u i) = cas_slot-Effect inv t f cur slot e u i
access-Effect {m} inv t (loop_first {f} e) =
    alloc-Effect inv t f (slab m.next_cell 2) 2 _
      (cas_stripes_ok e (Built-alloc inv t f [] 2 (omega arith) tt tt))
access-Effect {m} inv t (loop_reload {f} e h) = simp e (stay inv t (acquire_ok {f = f} h))
access-Effect inv t (loop_keep {f} {cur} u) = keep-Effect inv t f cur u
access-Effect {m} inv t (cas_stripes_ok {f} {cur} e b) =
    at_cas_stripes-Effect inv t f cur m.stripes e b refl
access-Effect {m} inv t (grow_ok {f} {cur} u) = grow-Effect inv t f cur u
access-Effect {m} inv t (cas_grow_ok {f} {cur} {next} u b) =
    cas_grow-Effect inv t f cur next u b m.stripes refl

-- Every step of a thread that satisfies `LocalOk` keeps the invariant, and the sum of the counter
-- grows by what a returning `add` was called with. A thread that faults adds nothing.
pub step-Effect :
    {m : Memory} → MemInv m → (t : Thread) {pc : Pc} → LocalOk m pc → Effect m (step m t pc)
unfolding step
step-Effect {m} inv t {pc} ok = elim (Bool-cases (is_dangling m (dereferenced m pc))) [
  | inl e ↦ rw e (stay inv t fault_ok)
  | inr e ↦ rw e (access-Effect inv t ok)
]
