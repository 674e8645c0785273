-- ===== src/Prelude/Int.antt =====
-- Signed integers as the code reads them from a request or a configuration.
use Prim.Native.Nat.{ℕ, suc}

-- `negsuc n` is -(n + 1).
pub data ℤ : Type 0 where
  pos : ℕ → ℤ
  negsuc : ℕ → ℤ

-- `if v <= 0 { v = d }`
abbrev pub positive_or : ℤ → ℕ → ℕ
positive_or (pos (suc n)) d = suc n
positive_or _ d = d

-- `if v < 0 { v = 0 }`
abbrev pub nonneg : ℤ → ℕ
nonneg (pos n) = n
nonneg (negsuc n) = 0
