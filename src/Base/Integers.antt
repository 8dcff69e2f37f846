-- ===== src/Base/Integers.antt =====
-- Integers over the native numbers.
use Prim.Native.Nat.{ℕ, suc, ◌+◌, ◌-◌}
use audio_engine_core.Base.Tests.{if◌then◌else◌, ltb}

-- `negsuc n` is the integer below `-n`.
pub data ℤ : Type 0 where
  pos negsuc : ℕ → ℤ

-- `p + z` for a number `p`
infixl 6 ◌+ℤ◌
abbrev pub ◌+ℤ◌ : ℕ → ℤ → ℤ
p +ℤ pos n = pos (p + n)
p +ℤ negsuc n = if ltb n p then pos (p - suc n) else negsuc (n - p)
