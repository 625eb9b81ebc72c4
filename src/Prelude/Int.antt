-- ===== src/Prelude/Int.antt =====
-- C's `int` return values: signed integers over the native numbers, with the tests that the code
-- makes on them. (The library's ℤ stands on the unary ℕ.)
use Prim.Native.Nat.{ℕ}
use mathlib.Core.Bool.{Bool, true, false}
use hackrf.Prelude.Tests.{ltb, ◌==◌}

-- `negsuc n` is -(n + 1).
pub data ℤ : Type 0 where
  pos : ℕ → ℤ
  negsuc : ℕ → ℤ

-- `a == 0`
abbrev pub is_zero : ℤ → Bool
is_zero (pos n) = n == 0
is_zero (negsuc n) = false

-- `a < k`, against a number that is not negative.
abbrev pub lt_nat : ℤ → ℕ → Bool
lt_nat (pos n) k = ltb n k
lt_nat (negsuc n) k = true

-- `a == k`, against a number that is not negative.
abbrev pub eq_nat : ℤ → ℕ → Bool
eq_nat (pos n) k = n == k
eq_nat (negsuc n) k = false
