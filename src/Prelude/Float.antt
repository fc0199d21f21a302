-- ===== src/Prelude/Float.antt =====
-- Go's `float64`, which the source uses and does not implement: a type with the operations and the
-- comparisons that the source makes, and laws that IEEE 754 gives for every value, NaN included.
use mathlib.Core.Path.{◌≡◌}
use mathlib.Core.Bool.{Bool, true, false}
use placitum_counter.Prelude.Int.{ℤ}

pub record Float64 (F : Type 0) : Type 0 where
  pub of_int : ℤ → F
  pub add : F → F → F
  pub sub : F → F → F
  pub mul : F → F → F
  pub div : F → F → F
  -- `int(math.Round(x))`
  pub round : F → ℤ
  pub lt : F → F → Bool
  pub le : F → F → Bool
  pub eq : F → F → Bool
  pub lt_irrefl : (a : F) → lt a a ≡ false
  pub lt_trans : (a b c : F) → lt a b ≡ true → lt b c ≡ true → lt a c ≡ true
  pub le_trans : (a b c : F) → le a b ≡ true → le b c ≡ true → le a c ≡ true
  pub le-lt_trans : (a b c : F) → le a b ≡ true → lt b c ≡ true → lt a c ≡ true
  -- `a <= b` excludes `b < a`.
  pub le-not_lt : (a b : F) → le a b ≡ true → lt b a ≡ false
