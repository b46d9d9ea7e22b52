-- ===== src/ThreadLocal.antt =====
-- src/detail/thread_local_detail.h and src/thread_local.h: pointers that each thread sees its own
-- value of, multiplexed onto one array per thread, on the platforms with `TLS_SPECIFIER`.
pub mod Elements
pub mod Threads
pub mod Slots
pub mod Ids
pub mod MovedFrom
mod Tests
use ccmetrics.Base.{
  ℕ, zero, suc, ◌+◌, ◌-◌, ◌*◌, ◌/◌, ◌%◌, ◌^◌, Bool, true, false, List, [], ◌∷◌, ◌++◌, Option, none,
  some, ◌==◌, ltb, if◌then◌else◌, length, replicate,
}

-- `ThreadLocalStorage::Element`; the pointer 0 is nullptr, and a deleter is a number of its own.
pub record Element : Type 0 where
  pub ptr : ℕ
  pub deleter : ℕ

abbrev pub no_element : Element
no_element = record { ptr = 0; deleter = 0 }

-- A call `deleter(ptr)`.
abbrev pub Call : Type 0
Call = ℕ × ℕ

-- `resize`: the new capacity is 1 + size * 1.5, rounded down; the new elements are null.
pub resize : ℕ → List Element → List Element
resize size elements = elements ++ replicate (1 + size * 3 / 2 - length elements) no_element

-- The head of `get` and `set`: `if (idx > n_elements_) resize(idx)`.
pub reserve : ℕ → List Element → List Element
unfolding resize
reserve idx elements = if ltb (length elements) idx then resize idx elements else elements

-- The pointer in `elements_[i]`, null beyond the array.
pub ptr_at : List Element → ℕ → ℕ
ptr_at [] i = 0
ptr_at (e ∷ es) zero = e.ptr
ptr_at (e ∷ es) (suc i) = ptr_at es i

pub write_at : List Element → ℕ → Element → List Element
write_at [] i v = []
write_at (e ∷ es) zero v = v ∷ es
write_at (e ∷ es) (suc i) v = e ∷ write_at es i v

-- `Element::destroy`: the element afterwards, and the deleter calls so far.
pub destroy_element : Element → List Call → Element × List Call
destroy_element e calls =
    if e.ptr == 0 then (e, calls) else (no_element, (e.ptr, e.deleter) ∷ calls)

-- `getIfPresent(i + 1)` and `destroy` on what it returns.
pub destroy_at : List Element → ℕ → List Call → List Element × List Call
unfolding destroy_element
destroy_at [] i calls = ([], calls)
destroy_at (e ∷ es) zero calls = let (e', calls') = destroy_element e calls in (e' ∷ es, calls')
destroy_at (e ∷ es) (suc i) calls = let (es', calls') = destroy_at es i calls in (e ∷ es', calls')

-- `destroyAll`.
pub destroy_all : List Element → List Call → List Call
unfolding destroy_element
destroy_all [] calls = calls
destroy_all (e ∷ es) calls = destroy_all es (destroy_element e calls).1

-- A thread that is on the list of `SharedStorage`, and its array.
abbrev pub Entry : Type 0
Entry = ℕ × List Element

-- `SharedStorage`. `threads` is the list at `all_tls_head_`, the back of `free_list_` stands first,
-- and `calls` are the deleter calls, the latest first.
pub record SharedStorage : Type 0 where
  pub free_list : List ℕ
  pub next_id : ℕ
  pub threads : List Entry
  pub calls : List Call

abbrev pub no_storage : SharedStorage
no_storage = record { free_list = []; next_id = 0; threads = []; calls = [] }

-- The array of thread `t`; a thread that is not on the list has none.
pub elements_of : ℕ → List Entry → List Element
elements_of t [] = []
elements_of t ((u, es) ∷ rest) = if u == t then es else elements_of t rest

-- `onList`.
pub on_list : ℕ → List Entry → Bool
on_list t [] = false
on_list t ((u, es) ∷ rest) = if u == t then true else on_list t rest

pub store_elements : ℕ → List Element → List Entry → List Entry
store_elements t es [] = []
store_elements t es ((u, old) ∷ rest) = (u, if u == t then es else old) ∷ store_elements t es rest

-- `ThreadLocalStorageHandle::get` on the first access of a thread: one slot is reserved.
abbrev pub first_access : List Element
first_access = reserve 1 []

-- The first access of a thread: `addThread` puts it at the end of the list.
pub add_thread : ℕ → List Entry → List Entry
unfolding on_list reserve
add_thread t threads = if on_list t threads then threads else threads ++ (t, first_access) ∷ []

-- `SharedStorage::create`: the last freed id, or a new one.
pub take_id : List ℕ → SharedStorage → ℕ × SharedStorage
take_id [] s = let id = (s.next_id + 1) % 2 ^ 32 in (id, record s { next_id = id })
take_id (id ∷ rest) s = (id, record s { free_list = rest })

pub create : SharedStorage → ℕ × SharedStorage
unfolding take_id
create s = take_id s.free_list s

-- `SharedStorage::get` by thread `t`; `none` if the assertion `idx >= 1` fails.
pub get : ℕ → ℕ → SharedStorage → Option (ℕ × SharedStorage)
unfolding reserve elements_of store_elements add_thread ptr_at
get t zero s = none
get t (suc i) s =
    let threads = add_thread t s.threads in
    let es = reserve (suc i) (elements_of t threads) in
    some (ptr_at es i, record s { threads = store_elements t es threads })

-- `SharedStorage::set` by thread `t`; `none` if `idx >= 1` fails, or the assertion that the element
-- is null.
pub set_ptr : ℕ → ℕ → Element → SharedStorage → Option SharedStorage
unfolding reserve elements_of store_elements add_thread ptr_at write_at
set_ptr t zero e s = none
set_ptr t (suc i) e s =
    let threads = add_thread t s.threads in
    let es = reserve (suc i) (elements_of t threads) in
    if ptr_at es i == 0
    then some (record s { threads = store_elements t (write_at es i e) threads })
    else none

-- The loop of `SharedStorage::destroy` over the threads.
pub destroy_entries : ℕ → List Entry → List Call → List Entry × List Call
unfolding destroy_at
destroy_entries i [] calls = ([], calls)
destroy_entries i ((t, es) ∷ rest) calls =
    let (es', calls') = destroy_at es i calls in
    let (rest', calls'') = destroy_entries i rest calls' in ((t, es') ∷ rest', calls'')

abbrev pub and_then : {A B : Type 0} → Option A → (A → Option B) → Option B
and_then none f = none
and_then (some a) f = f a

-- `getIfPresent(0)` and `destroy` on what it returns: `idx > n_elements_` does not hold, and `idx - 1`
-- of an `uint32_t` is 2 ^ 32 - 1; `none` if that element is outside the array.
pub destroy_last : List Element → List Call → Option (List Element × List Call)
unfolding destroy_at
destroy_last es calls =
    if ltb (2 ^ 32 - 1) (length es) then some (destroy_at es (2 ^ 32 - 1) calls) else none

-- The loop of `destroy(0)` over the threads.
pub destroy_zero : List Entry → List Call → Option (List Entry × List Call)
unfolding destroy_last
destroy_zero [] calls = some ([], calls)
destroy_zero ((t, es) ∷ rest) calls = and_then (destroy_last es calls) (λ (es', calls').
    and_then (destroy_zero rest calls') (λ (rest', calls''). some ((t, es') ∷ rest', calls'')))

-- `SharedStorage::destroy`.
pub destroy : ℕ → SharedStorage → Option SharedStorage
unfolding destroy_entries destroy_zero
destroy zero s =
    and_then (destroy_zero s.threads s.calls)
      (λ r. some (record s { threads = r.0; calls = r.1; free_list = 0 ∷ s.free_list }))
destroy (suc i) s =
    let r = destroy_entries i s.threads s.calls in
    some (record s { threads = r.0; calls = r.1; free_list = suc i ∷ s.free_list })

-- `removeThread`.
pub remove_thread : ℕ → List Entry → List Entry
remove_thread t [] = []
remove_thread t ((u, es) ∷ rest) =
    if u == t then remove_thread t rest else (u, es) ∷ remove_thread t rest

-- `threadExitCleanup`: the thread leaves the list and its elements are destroyed.
pub thread_exit : ℕ → SharedStorage → SharedStorage
unfolding remove_thread destroy_all elements_of
thread_exit t s = record s {
  threads = remove_thread t s.threads;
  calls = destroy_all (elements_of t s.threads) s.calls;
}

-- `ThreadLocalPointer::get` and `reset`, of a pointer with the id `id`.
abbrev pub get_pointer : (t id : ℕ) → SharedStorage → Option (ℕ × SharedStorage)
get_pointer t id s = get t id s

abbrev pub reset_pointer : (t id ptr deleter : ℕ) → SharedStorage → Option SharedStorage
reset_pointer t id ptr deleter s = set_ptr t id (record { ptr = ptr; deleter = deleter }) s

-- The end of `ThreadLocal::get`: the new object is returned once `reset` has stored it.
pub stored_new : (fresh : ℕ) → Option SharedStorage → Option (ℕ × SharedStorage)
stored_new fresh none = none
stored_new fresh (some s) = some (fresh, s)

-- A call of `new_functor_`: the address of the new object, and the storage afterwards, which the
-- functor may have used for other pointers; `none` if an assertion fails in it.
abbrev pub NewFunctor : Type 0
NewFunctor = SharedStorage → Option (ℕ × SharedStorage)

-- `ptr_.reset(ret, deleter_)` with what the functor has returned.
pub reset_new : (t id deleter : ℕ) → Option (ℕ × SharedStorage) → Option (ℕ × SharedStorage)
unfolding stored_new
reset_new t id deleter none = none
reset_new t id deleter (some (fresh, s)) = stored_new fresh (reset_pointer t id fresh deleter s)

-- `if (ret) return ret`, and else an object from the functor.
pub or_new :
    (t id : ℕ)
    → NewFunctor
    → (deleter : ℕ) → Option (ℕ × SharedStorage)
    → Option (ℕ × SharedStorage)
unfolding reset_new
or_new t id new_functor deleter none = none
or_new t id new_functor deleter (some (ptr, s)) =
    if ptr == 0 then reset_new t id deleter (new_functor s) else some (ptr, s)

-- `ThreadLocal::get`.
pub get_or_new :
    (t id : ℕ) → NewFunctor → (deleter : ℕ) → SharedStorage → Option (ℕ × SharedStorage)
unfolding or_new
get_or_new t id new_functor deleter s = or_new t id new_functor deleter (get_pointer t id s)

-- What thread `t` has stored under `id`: the abstract view of the arrays.
abbrev pub stored : ℕ → ℕ → SharedStorage → ℕ
stored t zero s = 0
stored t (suc i) s = ptr_at (elements_of t s.threads) i

-- The move constructor of `ThreadLocalPointer`: the ids of the new pointer and of the moved one.
pub move_pointer : ℕ → ℕ × ℕ
move_pointer id = (id, 0)

-- `~ThreadLocalPointer`, where `_WIN32` is not defined.
pub destroy_pointer : ℕ → SharedStorage → Option SharedStorage
unfolding destroy
destroy_pointer id s = destroy id s
