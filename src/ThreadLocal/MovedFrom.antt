-- ===== src/ThreadLocal/MovedFrom.antt =====
-- The destructor of a `ThreadLocalPointer` that was moved from.
use ccmetrics.Base.{
  ℕ, ◌^◌, ◌<◌, ◌≡◌, ◌≢◌, refl, ◌⊎◌, inl, inr, List, [], ◌∷◌, some, none, length, arith,
}
use ccmetrics.ThreadLocal.{
  Element, SharedStorage, Entry, Call, create, take_id, get, destroy, destroy_last, destroy_zero,
  destroy_pointer, move_pointer,
}
use ccmetrics.ThreadLocal.Ids.{Inv}

-- The arrays of all threads are shorter than 2 ^ 32.
abbrev pub IsShort : List Entry → Type 0
IsShort [] = Unit {0}
IsShort ((t, es) ∷ rest) = (length es < 2 ^ 32) × IsShort rest

-- The element 2 ^ 32 - 1 is outside a shorter array.
destroy_last-short :
    (es : List Element) (calls : List Call) → length es < 2 ^ 32 → destroy_last es calls ≡ none
unfolding destroy_last
destroy_last-short es calls h = ground arith

-- The id 0 is free, though no live pointer may have it: the next pointer gets it, and `get` with it
-- fails an assertion.
abbrev pub ZeroFree : SharedStorage → Type 0
ZeroFree s = (Inv s → ⊥) × ((create s).0 ≡ 0) × ((t : ℕ) → get t (create s).0 (create s).1 ≡ none)

-- Destroying a moved-from pointer, where the arrays of the threads are shorter than 2 ^ 32: if there
-- is a thread on the list, an element outside of an array is used. If there is none, it succeeds and
-- puts the id 0 on the free list: the invariant of the ids is broken, the next pointer that is
-- created has the id 0, and every `get` of it fails an assertion.
pub destroy-move_pointer :
    (id : ℕ) (s : SharedStorage)
    → IsShort s.threads
    → ((s.threads ≢ []) × (destroy_pointer (move_pointer id).1 s ≡ none))
      ⊎ ((s.threads ≡ [])
          × ((s' : SharedStorage) × (destroy_pointer (move_pointer id).1 s ≡ some s')
              × ZeroFree s'))
unfolding destroy_pointer move_pointer destroy destroy_zero
destroy-move_pointer id s short = by_threads s.threads refl short
  where
    by_threads :
        (threads : List Entry)
        → s.threads ≡ threads
        → IsShort threads
        → ((s.threads ≢ []) × (destroy_pointer 0 s ≡ none))
          ⊎ ((s.threads ≡ [])
              × ((s' : SharedStorage) × (destroy_pointer 0 s ≡ some s') × ZeroFree s'))
    by_threads [] e h = inr (
      e,
      (
        record s { threads = []; free_list = 0 ∷ s.free_list },
        rw e refl,
        (
          λ inv. let (pos, _, _, _) = inv.once in omega arith,
          unfold create take_id in refl,
          λ t. unfold create take_id get in refl,
        ),
      ),
    )
    by_threads ((t, es) ∷ rest) e (h, _) =
        inl (λ empty. cc, rw (e, destroy_last-short es s.calls h) refl)
