-- ===== src/Base/Int.antt =====
-- Python integers that may be negative.
use Prim.Native.Nat.{ℕ}
use mathlib.Core.Bool.{Bool, true, false}
use mathlib.Core.Path.{◌≡◌}
use native.Mathlib.Omega.{arith}
use ephi.Base.Tests.{ltb}

-- `negsuc n` is -(n + 1).
pub data ℤ : Type 0 where
  pos : ℕ → ℤ
  negsuc : ℕ → ℤ

unfoldable pub lt_int : ℤ → ℤ → Bool
lt_int (pos a) (pos b) = ltb a b
lt_int (pos a) (negsuc b) = false
lt_int (negsuc a) (pos b) = true
lt_int (negsuc a) (negsuc b) = ltb b a

pub lt_int_asym : (a b : ℤ) → lt_int a b ≡ true → lt_int b a ≡ false
unfolding lt_int
lt_int_asym (pos a) (pos b) h = ground arith
lt_int_asym (pos a) (negsuc b) h = ground arith
lt_int_asym (negsuc a) (pos b) h = ground arith
lt_int_asym (negsuc a) (negsuc b) h = ground arith

-- The order is weak: what is not below is carried on.
pub lt_int_trans : (a b c : ℤ) → lt_int a b ≡ false → lt_int b c ≡ false → lt_int a c ≡ false
unfolding lt_int
lt_int_trans (pos a) (pos b) (pos c) h k = ground arith
lt_int_trans (pos a) (pos b) (negsuc c) h k = ground arith
lt_int_trans (pos a) (negsuc b) (pos c) h k = ground arith
lt_int_trans (pos a) (negsuc b) (negsuc c) h k = ground arith
lt_int_trans (negsuc a) (pos b) (pos c) h k = ground arith
lt_int_trans (negsuc a) (pos b) (negsuc c) h k = ground arith
lt_int_trans (negsuc a) (negsuc b) (pos c) h k = ground arith
lt_int_trans (negsuc a) (negsuc b) (negsuc c) h k = ground arith
