-- ===== src/Base/Int.antt =====
-- Signed integers over the native numbers, and the wrap-around of a 64-bit one.
use Prim.Native.Nat.{ℕ, suc, ◌-◌, ◌*◌, ◌%◌, ◌^◌}
use mathlib.Core.Bool.{Bool, false}
use mechanicaldinosaurs.Base.Tests.{ltb, if◌then◌else◌}

-- `negsuc n` is -(n + 1).
pub data ℤ : Type 0 where
  pos : ℕ → ℤ
  negsuc : ℕ → ℤ

abbrev pub is_positive : ℤ → Bool
is_positive (pos n) = ltb 0 n
is_positive (negsuc n) = false

-- The int64 whose bit pattern is `n` modulo 2^64.
abbrev pub signed64 : ℕ → ℤ
signed64 n = let r = n % 2 ^ 64 in if ltb r (2 ^ 63) then pos r else negsuc (2 ^ 64 - 1 - r)

-- `z * k` in int64, for a constant k > 0.
abbrev pub scale64 : ℕ → ℤ → ℤ
scale64 k (pos n) = signed64 (n * k)
scale64 k (negsuc n) = signed64 (2 ^ 64 - (suc n * k) % 2 ^ 64)
