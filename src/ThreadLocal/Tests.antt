-- ===== src/ThreadLocal/Tests.antt =====
-- Tests of thread-local storage, and its theorems at concrete inputs.
use ccmetrics.Base.{ℕ, ◌≡◌, ◌≢◌, refl, ◌⊎◌, [], ◌∷◌, some, none, arith, length}
use ccmetrics.ThreadLocal.{
  Element, no_element, SharedStorage, no_storage, resize, create, destroy_pointer, move_pointer,
  NewFunctor, get_or_new, stored,
}
use ccmetrics.ThreadLocal.Slots.{SameIds, IsReset, get_or_new_lem}
use ccmetrics.ThreadLocal.Ids.{Inv, Inv-init, Created, create-Created, creates, Step-Inv}
use ccmetrics.ThreadLocal.MovedFrom.{ZeroFree, destroy-move_pointer}

abbrev object : ℕ → Element
object p = record { ptr = p; deleter = 9 }

-- Thread 1 has 40 under id 1, thread 2 has 50 under id 1 and 51 under id 2; id 3 is free.
abbrev two_threads : SharedStorage
two_threads = record {
  free_list = 3 ∷ [];
  next_id = 3;
  threads =
      (1, object 40 ∷ no_element ∷ [])
      ∷ (2, object 50 ∷ object 51 ∷ no_element ∷ no_element ∷ [])
      ∷ [];
  calls = [];
}

resize_test : length (resize 3 (object 40 ∷ no_element ∷ [])) ≡ 5
unfolding resize
resize_test = refl

-- A functor that stores the object 61 of another pointer, as that of a hash code does.
nested : NewFunctor
unfolding get_or_new
nested s = elim (get_or_new 1 3 (λ s'. some (61, s')) 9 s) [
  | none ↦ none
  | some (p, s') ↦ some (60, s')
]

get_or_new_lem_example :
    (s1 : SharedStorage) × ((u j : ℕ) → stored u j s1 ≡ stored u j two_threads)
    × SameIds two_threads s1
    × (((stored 1 2 two_threads ≢ 0)
          × (get_or_new 1 2 nested 9 two_threads ≡ some (stored 1 2 two_threads, s1)))
        ⊎ ((stored 1 2 two_threads ≡ 0)
            × IsReset 1 2 (nested s1) (get_or_new 1 2 nested 9 two_threads)))
get_or_new_lem_example = get_or_new_lem 1 1 nested 9 two_threads

create-Created_example : Created no_storage (create no_storage)
create-Created_example = create-Created no_storage Inv-init (omega arith)

Step-Inv_example : Inv (create no_storage).1
Step-Inv_example = Step-Inv (creates (omega arith)) Inv-init

destroy-move_pointer_example :
    ((two_threads.threads ≢ []) × (destroy_pointer (move_pointer 2).1 two_threads ≡ none))
    ⊎ ((two_threads.threads ≡ [])
        × ((s' : SharedStorage) × (destroy_pointer (move_pointer 2).1 two_threads ≡ some s')
            × ZeroFree s'))
destroy-move_pointer_example = destroy-move_pointer 2 two_threads (omega arith, (omega arith, tt))
