-- ===== src/Base/Integers.antt =====
-- Go's signed integers and the codes of errors.
use Prim.Native.Nat.{ℕ}

-- A Go int: `negsuc n` is -(n + 1).
pub data ℤ : Type 0 where
  pos : ℕ → ℤ
  negsuc : ℕ → ℤ
