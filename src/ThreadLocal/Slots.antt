-- ===== src/ThreadLocal/Slots.antt =====
-- The operations against the abstract view: a pointer for each thread and id.
use ccmetrics.Base.{
  ℕ, zero, suc, ◌≡◌, refl, ◌≢◌, List, ◌∷◌, ◌==◌, ==_iff, ◌&&◌, if◌then◌else◌, arith, Bool-cases,
  inl, inr, ◌⊎◌, Option, some, none, ◌∙◌,
}
use ccmetrics.ThreadLocal.{
  Element, Entry, SharedStorage, reserve, ptr_at, write_at, elements_of, store_elements, add_thread,
  destroy, destroy_entries, get, set_ptr, thread_exit, NewFunctor, stored_new, reset_new, or_new,
  get_or_new, stored,
}
use ccmetrics.ThreadLocal.Elements.{ptr_at-reserve, length-reserve, ptr_at-write_at}
use ccmetrics.ThreadLocal.Threads.{
  on_list-add_thread, pointer-add_thread, pointer-store, pointer-destroy, pointer-remove,
}

-- The ids and the deleter calls are as before.
pub record SameIds (s s' : SharedStorage) : Type 0 where
  pub free : s'.free_list ≡ s.free_list
  pub next : s'.next_id ≡ s.next_id
  pub called : s'.calls ≡ s.calls

module _ (t i : ℕ) (s : SharedStorage) where
  abbrev threads : List Entry
  threads = add_thread t s.threads

  abbrev array : List Element
  array = reserve (suc i) (elements_of t threads)

  array-stored : (j : ℕ) → ptr_at array j ≡ ptr_at (elements_of t s.threads) j
  array-stored j =
      ptr_at-reserve (suc i) (elements_of t threads) j ∙ pointer-add_thread t t j s.threads

  -- `get` returns what the thread has stored under the id, and changes no pointer of any thread.
  pub get_lem :
      (s' : SharedStorage) × (get t (suc i) s ≡ some (stored t (suc i) s, s'))
      × ((u j : ℕ) → stored u j s' ≡ stored u j s)
      × SameIds s s'
  unfolding get
  get_lem = (
    record s { threads = store_elements t array threads },
    ground (arith, array-stored i),
    unchanged,
    record { free = refl; next = refl; called = refl },
  )
    where
      unchanged :
          (u j : ℕ)
          → stored u j (record s { threads = store_elements t array threads }) ≡ stored u j s
      unchanged u zero = refl
      unchanged u (suc j) = ground (
        arith,
        pointer-store t u j array threads (on_list-add_thread t s.threads),
        array-stored j,
        pointer-add_thread t u j s.threads,
      )

  -- `set` stores a pointer where the thread had none, and changes no other pointer.
  pub set_ptr_lem :
      (e : Element)
      → stored t (suc i) s ≡ 0
      → (s' : SharedStorage) × (set_ptr t (suc i) e s ≡ some s')
        × ((u j : ℕ) → stored u j s' ≡ (if t == u && suc i == j then e.ptr else stored u j s))
        × SameIds s s'
  unfolding set_ptr
  set_ptr_lem e h = (
    record s { threads = store_elements t (write_at array i e) threads },
    ground (arith, array-stored i),
    changed,
    record { free = refl; next = refl; called = refl },
  )
    where
      changed :
          (u j : ℕ)
          → stored u j (record s { threads = store_elements t (write_at array i e) threads })
            ≡ (if t == u && suc i == j then e.ptr else stored u j s)
      changed u zero = ground arith
      changed u (suc j) = ground (
        arith,
        pointer-store t u j (write_at array i e) threads (on_list-add_thread t s.threads),
        ptr_at-write_at array i j e (length-reserve (suc i) (elements_of t threads)),
        array-stored j,
        pointer-add_thread t u j s.threads,
      )

  -- `set` where the thread has a pointer fails an assertion; it does not replace the pointer.
  pub set_ptr_busy : (e : Element) → stored t (suc i) s ≢ 0 → set_ptr t (suc i) e s ≡ none
  unfolding set_ptr
  set_ptr_busy e h = ground (arith, array-stored i)

-- `destroy` of an id leaves null under it in every thread, changes no other pointer, and frees it.
pub destroy_id_lem :
    (i : ℕ) (s : SharedStorage)
    → (s' : SharedStorage) × (destroy (suc i) s ≡ some s')
      × ((u j : ℕ) → stored u j s' ≡ (if suc i == j then 0 else stored u j s))
      × (s'.free_list ≡ suc i ∷ s.free_list)
      × (s'.next_id ≡ s.next_id)
unfolding destroy
destroy_id_lem i s =
    let r = destroy_entries i s.threads s.calls in
    (
      record s { threads = r.0; calls = r.1; free_list = suc i ∷ s.free_list },
      refl,
      changed,
      refl,
      refl,
    )
  where
    changed :
        (u j : ℕ)
        → stored u j (record s {
          threads = (destroy_entries i s.threads s.calls).0;
          calls = (destroy_entries i s.threads s.calls).1;
          free_list = suc i ∷ s.free_list;
        })
          ≡ (if suc i == j then 0 else stored u j s)
    changed u zero = ground arith
    changed u (suc j) = ground (arith, pointer-destroy i j u s.threads s.calls)

-- A thread that exits leaves no pointer, and changes none of another thread.
pub stored-thread_exit :
    (t u j : ℕ) (s : SharedStorage)
    → stored u j (thread_exit t s) ≡ (if t == u then 0 else stored u j s)
unfolding thread_exit
stored-thread_exit t u zero s = ground arith
stored-thread_exit t u (suc j) s = pointer-remove t u j s.threads

-- The result of `ThreadLocal::get` by thread `t` after its functor: `new` is what the functor has
-- returned. An object is stored where the thread has none still, and no other pointer changes from
-- what the functor has left; where the functor has stored one, or has failed, an assertion fails.
abbrev pub IsReset : (t id : ℕ) (new result : Option (ℕ × SharedStorage)) → Type 0
IsReset t id none result = result ≡ none
IsReset t id (some (fresh, s)) result =
    ((stored t id s ≢ 0) × (result ≡ none))
    ⊎ ((stored t id s ≡ 0)
        × ((s' : SharedStorage) × (result ≡ some (fresh, s'))
            × ((u j : ℕ) → stored u j s' ≡ (if t == u && id == j then fresh else stored u j s))
            × SameIds s s'))

reset_new-IsReset :
    (t i deleter : ℕ) (new : Option (ℕ × SharedStorage))
    → IsReset t (suc i) new (reset_new t (suc i) deleter new)
unfolding reset_new stored_new
reset_new-IsReset t i deleter none = refl
reset_new-IsReset t i deleter (some (fresh, s)) =
    let e : Element = record { ptr = fresh; deleter = deleter } in
    elim (Bool-cases (stored t (suc i) s == 0)) [
      | inl null ↦
          let h : stored t (suc i) s ≡ 0 = (==_iff _ 0).0 null in
          let (s', put, changed, ids) = set_ptr_lem t i s e h in inr (h, (s', rw put, changed, ids))
      | inr old ↦
          let h : stored t (suc i) s ≢ 0 = ground arith in inl (h, rw (set_ptr_busy t i s e h))
    ]

-- `ThreadLocal::get` looks the object up in a state `s1` with the pointers, the free ids and the
-- deleter calls of before. It returns the thread's object and `s1` if there is one. Otherwise it
-- calls the functor in `s1`, which may use the storage itself: if the thread still has no object
-- then, the functor's is stored and returned, no other pointer changes from what the functor has
-- left, and no id and no deleter call is added; if not, or if the functor fails, an assertion fails.
pub get_or_new_lem :
    (t i : ℕ) (new_functor : NewFunctor) (deleter : ℕ) (s : SharedStorage)
    → (s1 : SharedStorage) × ((u j : ℕ) → stored u j s1 ≡ stored u j s)
      × SameIds s s1
      × (((stored t (suc i) s ≢ 0)
            × (get_or_new t (suc i) new_functor deleter s ≡ some (stored t (suc i) s, s1)))
          ⊎ ((stored t (suc i) s ≡ 0)
              × IsReset t (suc i) (new_functor s1) (get_or_new t (suc i) new_functor deleter s)))
unfolding get_or_new or_new
get_or_new_lem t i new_functor deleter s =
    let (s1, got, same, ids) = get_lem t i s in
    (
      s1,
      same,
      ids,
      elim (Bool-cases (stored t (suc i) s == 0)) [
        | inl null ↦
            inr
              ((==_iff _ 0).0 null, rw (got, null) (reset_new-IsReset t i deleter (new_functor s1)))
        | inr old ↦ let h : stored t (suc i) s ≢ 0 = ground arith in inl (h, rw (got, old))
      ],
    )
