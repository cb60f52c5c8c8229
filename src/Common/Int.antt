-- ===== src/Common/Int.antt =====
-- Whole numbers with a sign, as far as the sources test them.
use Prim.Native.Nat.{ℕ}
use mathlib.Core.Bool.{Bool, false}
use query_craft.Common.Tests.{◌==◌}

-- `negsuc n` is -(n + 1).
pub data ℤ : Type 0 where
  pos : ℕ → ℤ
  negsuc : ℕ → ℤ

abbrev pub is_nat : ℕ → ℤ → Bool
is_nat n (pos m) = m == n
is_nat n (negsuc m) = false
