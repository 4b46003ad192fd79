-- ===== src/Prelude/Int.antt =====
-- Signed integers, for Go's `int` where the program gives it negative values.
use Prim.Native.Nat.{ℕ}

pub data ℤ : Type 0 where
  pos : ℕ → ℤ
  negsuc : ℕ → ℤ
