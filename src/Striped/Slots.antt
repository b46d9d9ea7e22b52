-- ===== src/Striped/Slots.antt =====
-- Lists of slots: rising addresses, sums of the slots' contents, and the effect of one write.
use ccmetrics.Base.{
  ℕ, zero, suc, ◌+◌, ◌%◌, ◌^◌, ◌≤◌, ◌<◌, ◌≡◌, refl, ◌⊎◌, inl, inr, List, [], ◌∷◌, ◌++◌, some, arith,
  length, get_elem?,
}
use ccmetrics.Striped.{Memory, update, slab, sum_slots, add64}

abbrev pub In : ℕ → List ℕ → Type 0
In a [] = ⊥
In a (x ∷ xs) = (x ≡ a) ⊎ In a xs

-- Rising addresses, from `lo` on.
abbrev pub From : ℕ → List ℕ → Type 0
From lo [] = Unit {0}
From lo (x ∷ xs) = (lo ≤ x) × From (suc x) xs

abbrev pub AllBelow : ℕ → List ℕ → Type 0
AllBelow n [] = Unit {0}
AllBelow n (x ∷ xs) = (x < n) × AllBelow n xs

pub AllBelow-mono : (m n : ℕ) (xs : List ℕ) → m ≤ n → AllBelow m xs → AllBelow n xs
AllBelow-mono m n [] h b = tt
AllBelow-mono m n (x ∷ xs) h b = (omega arith, AllBelow-mono m n xs h b.1)

pub AllBelow-append :
    (n : ℕ) (xs ys : List ℕ) → AllBelow n xs → AllBelow n ys → AllBelow n (xs ++ ys)
AllBelow-append n [] ys b c = c
AllBelow-append n (x ∷ xs) ys b c = (b.0, AllBelow-append n xs ys b.1 c)

pub From-mono : (k n : ℕ) (xs : List ℕ) → k ≤ n → From n xs → From k xs
From-mono k n [] h f = tt
From-mono k n (x ∷ xs) h f = (omega arith, f.1)

pub From-append :
    (lo n : ℕ) (xs ys : List ℕ)
    → lo ≤ n
    → From lo xs
    → AllBelow n xs
    → From n ys
    → From lo (xs ++ ys)
From-append lo n [] ys h f b g = From-mono lo n ys h g
From-append lo n (x ∷ xs) ys h f b g = (f.0, From-append (suc x) n xs ys b.0 f.1 b.1 g)

pub From-prefix : (lo : ℕ) (xs ys : List ℕ) → From lo (xs ++ ys) → From lo xs
From-prefix lo [] ys f = tt
From-prefix lo (x ∷ xs) ys f = (f.0, From-prefix (suc x) xs ys f.1)

pub AllBelow-prefix : (n : ℕ) (xs ys : List ℕ) → AllBelow n (xs ++ ys) → AllBelow n xs
AllBelow-prefix n [] ys b = tt
AllBelow-prefix n (x ∷ xs) ys b = (b.0, AllBelow-prefix n xs ys b.1)

pub update_self {ℓ} : {A : Type ℓ} (f : ℕ → A) (i : ℕ) (a : A) → update f i a i ≡ a
update_self f i a = ground arith

pub From-slab : (from n : ℕ) → From from (slab from n)
unfolding slab
From-slab from zero = tt
From-slab from (suc n) =
    (omega arith, From-mono (suc from) (from + 1) _ (omega arith) (From-slab (from + 1) n))

pub AllBelow-slab : (from n : ℕ) → AllBelow (from + n) (slab from n)
unfolding slab
AllBelow-slab from zero = tt
AllBelow-slab from (suc n) = (
  omega arith,
  AllBelow-mono (from + 1 + n) (from + suc n) _ (omega arith) (AllBelow-slab (from + 1) n),
)

pub length-slab : (from n : ℕ) → length (slab from n) ≡ n
unfolding slab
length-slab from zero = refl
length-slab from (suc n) = omega (arith, length-slab (from + 1) n)

pub In-append_left : (a : ℕ) (xs ys : List ℕ) → In a xs → In a (xs ++ ys)
In-append_left a [] ys h = elim h [ ]
In-append_left a (x ∷ xs) ys (inl e) = inl e
In-append_left a (x ∷ xs) ys (inr h) = inr (In-append_left a xs ys h)

-- What lies below all of a rising list is not in it.
pub not-mem-From : (a lo : ℕ) (xs : List ℕ) → From lo xs → a < lo → In a xs → ⊥
not-mem-From a lo [] f h i = i
not-mem-From a lo (x ∷ xs) f h (inl e) = omega arith
not-mem-From a lo (x ∷ xs) f h (inr i) = not-mem-From a (suc x) xs f.1 (omega arith) i

pub get_elem?-In :
    (xs : List ℕ) (i : ℕ) → i < length xs → (a : ℕ) × (get_elem? xs i ≡ some a) × In a xs
get_elem?-In [] i h = absurd (omega arith)
get_elem?-In (x ∷ xs) zero h = (x, refl, inl refl)
get_elem?-In (x ∷ xs) (suc i) h = let (a, e, m) = get_elem?-In xs i (omega arith) in (a, e, inr m)

pub sum_of : (ℕ → ℕ) → List ℕ → ℕ
sum_of cell [] = 0
sum_of cell (a ∷ xs) = cell a + sum_of cell xs

pub sum_of-append :
    (cell : ℕ → ℕ) (xs ys : List ℕ) → sum_of cell (xs ++ ys) ≡ sum_of cell xs + sum_of cell ys
unfolding sum_of
sum_of-append cell [] ys = omega arith
sum_of-append cell (a ∷ xs) ys = omega (arith, sum_of-append cell xs ys)

pub sum_of-nil : (cell : ℕ → ℕ) → sum_of cell [] ≡ 0
unfolding sum_of
sum_of-nil cell = refl

sum_of-update_below :
    (cell : ℕ → ℕ) (xs : List ℕ) (a v lo : ℕ)
    → From lo xs
    → a < lo
    → sum_of (update cell a v) xs ≡ sum_of cell xs
unfolding sum_of
sum_of-update_below cell [] a v lo f h = refl
sum_of-update_below cell (x ∷ xs) a v lo f h =
    ground (arith, sum_of-update_below cell xs a v (suc x) f.1)

-- A write to one slot of a rising list changes the sum by the difference.
pub sum_of-update :
    (cell : ℕ → ℕ) (xs : List ℕ) (a v lo : ℕ)
    → From lo xs
    → In a xs
    → sum_of (update cell a v) xs + cell a ≡ sum_of cell xs + v
unfolding sum_of
sum_of-update cell [] a v lo f h = elim h [ ]
sum_of-update cell (x ∷ xs) a v lo f (inl e) =
    ground (arith, sum_of-update_below cell xs a v (suc x) f.1)
sum_of-update cell (x ∷ xs) a v lo f (inr i) =
    ground (arith, sum_of-update cell xs a v (suc x) f.1 i, not-mem-From a (suc x) xs f.1)

-- The parts of a rising list have no slot in common.
pub not-mem-append : (a lo : ℕ) (xs ys : List ℕ) → From lo (xs ++ ys) → In a ys → In a xs → ⊥
not-mem-append a lo [] ys f i h = h
not-mem-append a lo (x ∷ xs) ys f i (inl e) = above (xs) ys (suc x) f.1 i (omega arith)
  where
    above : (xs ys : List ℕ) (n : ℕ) → From n (xs ++ ys) → In a ys → a < n → ⊥
    above [] ys n f i h = not-mem-From a n ys f h i
    above (x ∷ xs) ys n f i h = above xs ys (suc x) f.1 i (omega arith)
not-mem-append a lo (x ∷ xs) ys f i (inr h) = not-mem-append a (suc x) xs ys f.1 i h

pub sum_of-zero :
    (cell : ℕ → ℕ) (xs : List ℕ) → ((a : ℕ) → In a xs → cell a ≡ 0) → sum_of cell xs ≡ 0
unfolding sum_of
sum_of-zero cell [] h = refl
sum_of-zero cell (x ∷ xs) h =
    omega (arith, h x (inl refl), sum_of-zero cell xs (λ a i. h a (inr i)))

-- The loop of `value` computes the sum modulo 2 ^ 64.
pub sum_slots-eq :
    (m : Memory) (ret : ℕ) (xs : List ℕ)
    → ret < 2 ^ 64
    → sum_slots m ret xs ≡ (ret + sum_of m.cell xs) % 2 ^ 64
unfolding sum_slots sum_of
sum_slots-eq m ret [] h = omega arith
sum_slots-eq m ret (a ∷ xs) h =
    omega (arith, sum_slots-eq m (add64 ret (m.cell a)) xs (omega arith))
