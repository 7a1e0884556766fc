-- ===== src/Common/Integers.antt =====
-- Integers over the native naturals.
use Prim.Native.Nat.{ℕ, min, max}
use mathlib.Core.Bool.{Bool, false}
use authometry.Common.Tests.{◌==◌}

pub data ℤ : Type 0 where
  pos negsuc : ℕ → ℤ

unfoldable pub int_eq : ℤ → ℤ → Bool
int_eq (pos m) (pos n) = m == n
int_eq (negsuc m) (negsuc n) = m == n
int_eq (pos m) (negsuc n) = false
int_eq (negsuc m) (pos n) = false

-- `Math.min`.
unfoldable pub int_min : ℤ → ℤ → ℤ
int_min (pos m) (pos n) = pos (min m n)
int_min (negsuc m) (negsuc n) = negsuc (max m n)
int_min (pos m) (negsuc n) = negsuc n
int_min (negsuc m) (pos n) = negsuc m
