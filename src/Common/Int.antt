-- ===== src/Common/Int.antt =====
-- Signed integers over the native numbers, as far as the program uses them.
use Prim.Native.Nat.{ℕ}
use mathlib.Core.Bool.{Bool, false}
use cliff.Common.Tests.{ltb, eqb}

-- `negsuc n` is -(n + 1).
pub data ℤ : Type 0 where
  pos : ℕ → ℤ
  negsuc : ℕ → ℤ

abbrev pub is_zero : ℤ → Bool
is_zero (pos n) = eqb n 0
is_zero (negsuc n) = false

abbrev pub is_positive : ℤ → Bool
is_positive (pos n) = ltb 0 n
is_positive (negsuc n) = false
