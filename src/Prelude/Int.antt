-- ===== src/Prelude/Int.antt =====
-- Signed integers over the native numbers, and Go's int64 as their range.
use Prim.Native.Nat.{ℕ, ◌-◌, ◌%◌, ◌^◌, ◌<◌, ◌≤◌}
use mathlib.Core.Path.{◌≡◌}
use native.Mathlib.Omega.{arith}
use logsieve.Prelude.Tests.{ltb, if◌then◌else◌}

-- `negsuc n` is -(n + 1).
pub data ℤ : Type 0 where
  pos negsuc : ℕ → ℤ

-- The int64 that a product of two int64 wraps to.
unfoldable pub to_int64 : ℕ → ℤ
to_int64 n = let r = n % 2 ^ 64 in if ltb r (2 ^ 63) then pos r else negsuc (2 ^ 64 - 1 - r)

pub to_int64-in_range : (n : ℕ) → n < 2 ^ 63 → to_int64 n ≡ pos n
unfolding to_int64
to_int64-in_range n h = ground arith

pub to_int64-overflow : (n : ℕ) → 2 ^ 63 ≤ n → n < 2 ^ 64 → to_int64 n ≡ negsuc (2 ^ 64 - 1 - n)
unfolding to_int64
to_int64-overflow n h k = ground arith
