-- ===== src/ThreadLocal/Ids.antt =====
-- The owners of ids, and what a new owner finds under its id.
use ccmetrics.Base.{
  ℕ, zero, suc, ◌+◌, ◌%◌, ◌^◌, ◌≤◌, ◌<◌, ◌≡◌, refl, List, [], ◌∷◌, ◌==◌, ◌||◌, ◌&&◌, if◌then◌else◌,
  arith, Bool, true, false, some, ◌∙◌, sym, ◌⊎◌, leb, not,
}
use ccmetrics.ThreadLocal.{
  Element, SharedStorage, no_storage, create, take_id, get, set_ptr, destroy, thread_exit, ptr_at,
  elements_of, stored,
}
use ccmetrics.ThreadLocal.Slots.{get_lem, set_ptr_lem, destroy_id_lem, stored-thread_exit}

abbrev pub is_free : ℕ → List ℕ → Bool
is_free id [] = false
is_free id (x ∷ xs) = (x == id) || is_free id xs

-- The id belongs to a `ThreadLocalPointer`.
abbrev pub is_live : ℕ → SharedStorage → Bool
is_live id s = leb 1 id && leb id s.next_id && not (is_free id s.free_list)

-- The free ids were handed out before and are listed once.
abbrev pub FreeOnce : ℕ → List ℕ → Type 0
FreeOnce n [] = Unit {0}
FreeOnce n (x ∷ xs) = (1 ≤ x) × (x ≤ n) × (is_free x xs ≡ false) × FreeOnce n xs

-- An id without an owner has no pointers.
pub record Inv (s : SharedStorage) : Type 0 where
  pub once : FreeOnce s.next_id s.free_list
  pub empty : (u id : ℕ) → is_live id s ≡ false → stored u id s ≡ 0

Inv-empty : (u id : ℕ) → stored u id no_storage ≡ 0
unfolding ptr_at elements_of
Inv-empty u zero = refl
Inv-empty u (suc i) = refl

-- The pointers are those of the threads' arrays.
stored-threads :
    (u id : ℕ) (s s' : SharedStorage) → s'.threads ≡ s.threads → stored u id s' ≡ stored u id s
stored-threads u zero s s' e = refl
stored-threads u (suc i) s s' e = rw e

pub Inv-init : Inv no_storage
Inv-init = record { once = tt; empty = λ u id h. Inv-empty u id }

FreeOnce-mono : (m n : ℕ) (xs : List ℕ) → m ≤ n → FreeOnce m xs → FreeOnce n xs
FreeOnce-mono m n [] h f = tt
FreeOnce-mono m n (x ∷ xs) h (pos, low, once, f) =
    (pos, omega arith, once, FreeOnce-mono m n xs h f)

FreeOnce-above : (n id : ℕ) (xs : List ℕ) → FreeOnce n xs → n < id → is_free id xs ≡ false
FreeOnce-above n id [] f h = refl
FreeOnce-above n id (x ∷ xs) (pos, low, once, f) h = ground (arith, FreeOnce-above n id xs f h)

-- What `create` promises of the id and the state that it returns.
abbrev pub Created : SharedStorage → ℕ × SharedStorage → Type 0
Created s (id, s') =
    (is_live id s ≡ false)
    × ((j : ℕ) → is_live j s' ≡ (if id == j then true else is_live j s))
    × ((u : ℕ) → stored u id s' ≡ 0)
    × Inv s'

take_id-Created :
    (xs : List ℕ) (s : SharedStorage)
    → s.free_list ≡ xs
    → Inv s
    → s.next_id + 1 < 2 ^ 32
    → Created s (take_id xs s)
unfolding take_id
take_id-Created [] s e inv h =
    let next : (s.next_id + 1) % 2 ^ 32 ≡ s.next_id + 1 = omega arith in
    let none_free : (j : ℕ) → is_free j s.free_list ≡ false = λ j. rw e in
    rw next (
      ground arith,
      λ j. ground (arith, none_free j),
      λ u.
          stored-threads u (s.next_id + 1) s (record s { next_id = s.next_id + 1 }) refl
          ∙ inv.empty u (s.next_id + 1) (ground arith),
      record {
        once = rw e tt;
        empty = λ u j dead.
            stored-threads u j s (record s { next_id = s.next_id + 1 }) refl
            ∙ inv.empty u j (ground (arith, none_free j, dead));
      },
    )
take_id-Created (x ∷ xs) s e inv h =
    let (pos, low, once, rest) : FreeOnce s.next_id (x ∷ xs) = rw e at inv.once in
    let free : (j : ℕ) → is_free j s.free_list ≡ ((x == j) || is_free j xs) = λ j. rw e in
    let dead : is_live x s ≡ false = ground (arith, free x) in
    (
      dead,
      λ j. ground (arith, free j, pos, low, once),
      λ u. stored-threads u x s (record s { free_list = xs }) refl ∙ inv.empty u x dead,
      record {
        once = rest;
        empty = λ u j gone.
            stored-threads u j s (record s { free_list = xs }) refl
            ∙ inv.empty u j (ground (arith, free j, gone));
      },
    )

-- `create` returns an id that no live `ThreadLocalPointer` has, and under which every thread reads
-- null; all other ids keep their owners. Fewer than 2 ^ 32 - 1 ids were handed out.
pub create-Created : (s : SharedStorage) → Inv s → s.next_id + 1 < 2 ^ 32 → Created s (create s)
unfolding create
create-Created s inv h = take_id-Created s.free_list s refl inv h

-- What a program does that moves no `ThreadLocalPointer`: `create` while fewer than 2 ^ 32 - 1 ids
-- were handed out, `get`, `set` of a null pointer under the id of a live one, `destroy` of the id of
-- a live one, and the exit of a thread. The destructor of a moved-from pointer, whose id is 0, is not
-- among the steps.
pub data Step (s : SharedStorage) : SharedStorage → Type 0 where
  creates : s.next_id + 1 < 2 ^ 32 → Step s (create s).1
  gets : (t id p : ℕ) {s' : SharedStorage} → get t id s ≡ some (p, s') → Step s s'
  sets :
      (t id : ℕ) (e : Element) {s' : SharedStorage}
      → is_live id s ≡ true
      → stored t id s ≡ 0
      → set_ptr t id e s ≡ some s'
      → Step s s'
  destroys :
      (id : ℕ) {s' : SharedStorage} → is_live id s ≡ true → destroy id s ≡ some s' → Step s s'
  exits : (t : ℕ) → Step s (thread_exit t s)

some-injective : {A : Type 0} {a b : A} → some a ≡ some b → a ≡ b
some-injective e = cc

gets-Inv : (t id p : ℕ) {s s' : SharedStorage} → get t id s ≡ some (p, s') → Inv s → Inv s'
unfolding get
gets-Inv t zero p e inv = cc
gets-Inv t (suc i) p {s} {s'} q inv =
    let (s1, got, unchanged, ids) = get_lem t i s in
    let same : s1 ≡ s' = cc (some-injective (sym got ∙ q)) in
    rw (← same) (record {
      once =
          rw ids.free
            (FreeOnce-mono s.next_id s1.next_id s.free_list (omega (arith, ids.next)) inv.once);
      empty = λ u j dead.
          let old : is_live j s ≡ false = rw (ids.free, ids.next) at dead in
          unchanged u j ∙ inv.empty u j old;
    })

sets-Inv :
    (t id : ℕ) (e : Element) {s s' : SharedStorage}
    → is_live id s ≡ true
    → stored t id s ≡ 0
    → set_ptr t id e s ≡ some s'
    → Inv s
    → Inv s'
sets-Inv t zero e {s} {s'} live null q inv = cc
sets-Inv t (suc i) e {s} {s'} live null q inv =
    let (s1, put, changed, ids) = set_ptr_lem t i s e null in
    let same : s1 ≡ s' = some-injective (sym put ∙ q) in
    rw (← same) (record {
      once =
          rw ids.free
            (FreeOnce-mono s.next_id s1.next_id s.free_list (omega (arith, ids.next)) inv.once);
      empty = λ u j dead.
          let old : is_live j s ≡ false = rw (ids.free, ids.next) at dead in
          ground (arith, changed u j, inv.empty u j old, live, old);
    })

destroys-Inv :
    (id : ℕ) {s s' : SharedStorage} → is_live id s ≡ true → destroy id s ≡ some s' → Inv s → Inv s'
destroys-Inv zero live q inv = cc
destroys-Inv (suc i) {s} {s'} live q inv =
    let (s1, done, changed, free, next) = destroy_id_lem i s in
    let same : s1 ≡ s' = some-injective (sym done ∙ q) in
    rw (← same) (record {
      once = rw free (
        omega arith,
        ground (arith, live, next),
        ground (arith, live),
        FreeOnce-mono s.next_id s1.next_id s.free_list (omega (arith, next)) inv.once,
      );
      empty = λ u j dead.
          let old : (is_live j s ≡ false) ⊎ (suc i ≡ j) = ground (arith, free, next, dead) in
          ground (arith, changed u j, inv.empty u j, old);
    })

thread_exit-Inv : (t : ℕ) {s : SharedStorage} → Inv s → Inv (thread_exit t s)
unfolding thread_exit
thread_exit-Inv t {s} inv = record {
  once = inv.once;
  empty = λ u j dead. ground (arith, stored-thread_exit t u j s, inv.empty u j dead);
}

-- The invariant, that the free ids are distinct and in range and that no thread has a pointer under
-- an id without an owner, is kept by `create` while fewer than 2 ^ 32 - 1 ids were handed out, by
-- `get`, by a `set` under a live id where the thread has null, by `destroy` of a live id and by the
-- exit of a thread. The destructor of a moved-from pointer, which destroys the id 0, is left out.
pub Step-Inv : {s s' : SharedStorage} → Step s s' → Inv s → Inv s'
Step-Inv {s} (creates h) inv = (create-Created s inv h).3
Step-Inv (gets t id p e) inv = gets-Inv t id p e inv
Step-Inv (sets t id e live null q) inv = sets-Inv t id e live null q inv
Step-Inv (destroys id live e) inv = destroys-Inv id live e inv
Step-Inv (exits t) inv = thread_exit-Inv t inv
