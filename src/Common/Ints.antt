-- ===== src/Common/Ints.antt =====
-- Go's `int`, for the places where the source takes a negative number.
use Prim.Native.Nat.{ℕ}

-- `negsuc n` is -(n + 1).
pub data ℤ : Type 0 where
  pos negsuc : ℕ → ℤ
