-- ===== src/ThreadLocal/Elements.antt =====
-- One thread's array: what growth, writes and destruction leave at each index.
use ccmetrics.Base.{
  ℕ, zero, suc, ◌+◌, ◌-◌, ◌*◌, ◌/◌, ◌≤◌, ◌<◌, ◌≡◌, refl, List, [], ◌∷◌, ◌++◌, ◌==◌, if◌then◌else◌,
  length, replicate, length-append, length-replicate, arith,
}
use ccmetrics.ThreadLocal.{Element, no_element, Call, reserve, ptr_at, write_at, destroy_at}

ptr_at-replicate : (n i : ℕ) → ptr_at (replicate n no_element) i ≡ 0
unfolding ptr_at
ptr_at-replicate zero i = refl
ptr_at-replicate (suc n) zero = refl
ptr_at-replicate (suc n) (suc i) = ptr_at-replicate n i

ptr_at-padded :
    (es : List Element) (n i : ℕ) → ptr_at (es ++ replicate n no_element) i ≡ ptr_at es i
unfolding ptr_at
ptr_at-padded [] n i = ptr_at-replicate n i
ptr_at-padded (e ∷ es) n zero = refl
ptr_at-padded (e ∷ es) n (suc i) = ptr_at-padded es n i

-- Growth changes no pointer.
pub ptr_at-reserve : (idx : ℕ) (es : List Element) (i : ℕ) → ptr_at (reserve idx es) i ≡ ptr_at es i
unfolding reserve
ptr_at-reserve idx es i = ground (arith, ptr_at-padded es (1 + idx * 3 / 2 - length es) i)

-- After `reserve` the index is within the array.
pub length-reserve : (idx : ℕ) (es : List Element) → idx ≤ length (reserve idx es)
unfolding reserve
length-reserve idx es = ground (
  arith,
  length-append es (replicate (1 + idx * 3 / 2 - length es) no_element),
  length-replicate (1 + idx * 3 / 2 - length es) no_element,
)

pub ptr_at-write_at :
    (es : List Element) (i j : ℕ) (e : Element)
    → i < length es
    → ptr_at (write_at es i e) j ≡ (if i == j then e.ptr else ptr_at es j)
unfolding ptr_at write_at
ptr_at-write_at [] i j e h = absurd (omega arith)
ptr_at-write_at (x ∷ es) zero zero e h = refl
ptr_at-write_at (x ∷ es) zero (suc j) e h = ground arith
ptr_at-write_at (x ∷ es) (suc i) zero e h = ground arith
ptr_at-write_at (x ∷ es) (suc i) (suc j) e h = ground (arith, ptr_at-write_at es i j e)

pub ptr_at-destroy_at :
    (es : List Element) (i j : ℕ) (calls : List Call)
    → ptr_at (destroy_at es i calls).0 j ≡ (if i == j then 0 else ptr_at es j)
unfolding ptr_at destroy_at
ptr_at-destroy_at [] i j calls = ground arith
ptr_at-destroy_at (x ∷ es) zero zero calls = ground arith
ptr_at-destroy_at (x ∷ es) zero (suc j) calls = ground arith
ptr_at-destroy_at (x ∷ es) (suc i) zero calls = ground arith
ptr_at-destroy_at (x ∷ es) (suc i) (suc j) calls = ground (arith, ptr_at-destroy_at es i j calls)
