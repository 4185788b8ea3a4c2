-- ===== src/Base/Int.antt =====
-- Signed integers over the native numbers, for Go's `int` before it is checked.
use Prim.Native.Nat.{ℕ}
use mathlib.Core.Bool.{Bool, true}
use ratelimiter.Base.Tests.{ltb}

-- `negsuc n` is -(n + 1).
pub data ℤ : Type 0 where
  pos : ℕ → ℤ
  negsuc : ℕ → ℤ

-- The number, or 0 if it is negative.
abbrev pub to_nat : ℤ → ℕ
to_nat (pos n) = n
to_nat (negsuc n) = 0

-- z < k, for a bound k that is not negative.
abbrev pub is_below : ℤ → ℕ → Bool
is_below (pos n) k = ltb n k
is_below (negsuc n) k = true
