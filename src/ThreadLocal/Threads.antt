-- ===== src/ThreadLocal/Threads.antt =====
-- The list of threads: what each operation leaves under each id of each thread.
use ccmetrics.Base.{
  ℕ, ◌≡◌, refl, ◌≢◌, List, [], ◌∷◌, ◌++◌, ◌==◌, if◌then◌else◌, arith, Bool-cases, inl, inr, true,
  false,
}
use ccmetrics.ThreadLocal.{
  Element, Call, Entry, reserve, ptr_at, destroy_at, elements_of, on_list, store_elements,
  add_thread, destroy_entries, remove_thread,
}
use ccmetrics.ThreadLocal.Elements.{ptr_at-reserve, ptr_at-destroy_at}

elements_of-store :
    (t u : ℕ) (es : List Element) (threads : List Entry)
    → on_list t threads ≡ true
    → elements_of u (store_elements t es threads) ≡ (if t == u then es else elements_of u threads)
unfolding elements_of store_elements on_list
elements_of-store t u es [] h = ground arith
elements_of-store t u es ((v, old) ∷ rest) h =
    ground (arith, elements_of-store t u es rest, store_absent t u es rest)
  where
    store_absent :
        (t u : ℕ) (es : List Element) (rest : List Entry)
        → t ≢ u
        → elements_of u (store_elements t es rest) ≡ elements_of u rest
    store_absent t u es [] n = refl
    store_absent t u es ((v, old) ∷ rest) n = ground (arith, store_absent t u es rest)

on_list-append :
    (t u : ℕ) (es : List Element) (threads : List Entry)
    → on_list t threads ≡ true
    → on_list t (threads ++ (u, es) ∷ []) ≡ true
unfolding on_list
on_list-append t u es [] h = ground arith
on_list-append t u es ((v, old) ∷ rest) h = ground (arith, on_list-append t u es rest)

on_list-last :
    (t : ℕ) (es : List Element) (threads : List Entry) → on_list t (threads ++ (t, es) ∷ []) ≡ true
unfolding on_list
on_list-last t es [] = ground arith
on_list-last t es ((v, old) ∷ rest) = ground (arith, on_list-last t es rest)

pub on_list-add_thread : (t : ℕ) (threads : List Entry) → on_list t (add_thread t threads) ≡ true
unfolding add_thread
on_list-add_thread t threads = elim (Bool-cases (on_list t threads)) [
  | inl e ↦ rw e e
  | inr e ↦ rw e (on_list-last t (reserve 1 []) threads)
]

-- The pointer of thread `u` at index `i`.
abbrev pub pointer : ℕ → ℕ → List Entry → ℕ
pointer u i threads = ptr_at (elements_of u threads) i

pointer-new :
    (t u i : ℕ) (threads : List Entry)
    → on_list t threads ≡ false
    → pointer u i (threads ++ (t, reserve 1 []) ∷ []) ≡ pointer u i threads
unfolding elements_of on_list
pointer-new t u i [] h = ground (arith, ptr_at-reserve 1 [] i)
pointer-new t u i ((v, es) ∷ rest) h = ground (arith, pointer-new t u i rest)

-- A thread's first access changes no pointer.
pub pointer-add_thread :
    (t u i : ℕ) (threads : List Entry) → pointer u i (add_thread t threads) ≡ pointer u i threads
unfolding add_thread
pointer-add_thread t u i threads = elim (Bool-cases (on_list t threads)) [
  | inl e ↦ rw e
  | inr e ↦ rw e (pointer-new t u i threads e)
]

-- What a thread sees after thread `t` stored the array `es`.
pub pointer-store :
    (t u i : ℕ) (es : List Element) (threads : List Entry)
    → on_list t threads ≡ true
    → pointer u i (store_elements t es threads)
      ≡ (if t == u then ptr_at es i else pointer u i threads)
pointer-store t u i es threads h = ground (arith, elements_of-store t u es threads h)

-- Destroying an id leaves null there in every thread, and nothing else changes.
pub pointer-destroy :
    (i j u : ℕ) (threads : List Entry) (calls : List Call)
    → pointer u j (destroy_entries i threads calls).0 ≡ (if i == j then 0 else pointer u j threads)
unfolding destroy_entries elements_of ptr_at
pointer-destroy i j u [] calls = ground arith
pointer-destroy i j u ((t, es) ∷ rest) calls =
    ground
      (arith, ptr_at-destroy_at es i j calls, pointer-destroy i j u rest (destroy_at es i calls).1)

-- A thread that exits leaves nothing behind, and others keep what they have.
pub pointer-remove :
    (t u i : ℕ) (threads : List Entry)
    → pointer u i (remove_thread t threads) ≡ (if t == u then 0 else pointer u i threads)
unfolding remove_thread elements_of ptr_at
pointer-remove t u i [] = ground arith
pointer-remove t u i ((v, es) ∷ rest) = ground (arith, pointer-remove t u i rest)
