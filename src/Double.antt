-- ===== src/Double.antt =====
-- The doubles other than NaN that the program computes with, as a parameter: the type, the
-- operations that the source uses, and the laws of the order that proofs rely on.
pub mod Whole
use ccmetrics.Base.{ℕ, ◌^◌, ◌≤◌, ◌<◌, Bool, true, false, ◌≡◌}

pub record Double : Type 1 where
  pub F : Type 0
  pub zero_f : F  -- 0.0, also the default-constructed key
  pub one_f : F
  pub lt : F → F → Bool
  pub add : F → F → F
  pub sub : F → F → F
  pub mul : F → F → F
  pub div : F → F → F
  pub neg : F → F
  pub exp : F → F
  pub of_int : ℕ → F  -- of a 64-bit pattern, read as a signed number
  pub to_int : F → ℕ  -- the conversion to an integer, which truncates, as a 64-bit pattern
  pub floor : F → F
  pub sqrt : F → F
  pub seconds : ℕ → F  -- std::chrono::duration<double>(...).count() of nanoseconds

-- `<` is a strict order in which two numbers are equal, or one is below the other.
pub record IsOrdered (d : Double) : Type 0 where
  pub irreflexive : (a : d.F) → d.lt a a ≡ false
  pub transitive : (a b c : d.F) → d.lt a b ≡ true → d.lt b c ≡ true → d.lt a c ≡ true
  pub connected : (a b : d.F) → d.lt a b ≡ false → d.lt b a ≡ false → a ≡ b

-- What the conversion of a double in the range of an array index gives, for arrays shorter than
-- 2 ^ 31 elements, where the conversion to int is exact too: below `n` it truncates to an index below
-- `n`, and a number that is at least 1 can be decremented.
pub record IsIndexing (d : Double) : Type 0 where
  pub to_int_below :
      (x : d.F) (n : ℕ)
      → n ≤ 2 ^ 31
      → d.lt x d.zero_f ≡ false
      → d.lt x (d.of_int n) ≡ true
      → d.to_int x < n
  pub sub_one :
      (x : d.F) (n : ℕ)
      → n ≤ 2 ^ 31
      → d.lt x d.one_f ≡ false
      → d.lt x (d.of_int n) ≡ true
      → (d.lt (d.sub x d.one_f) d.zero_f ≡ false) × (d.lt (d.sub x d.one_f) (d.of_int n) ≡ true)
  pub one_above : (x : d.F) → d.lt x d.one_f ≡ false → d.lt x d.zero_f ≡ false
