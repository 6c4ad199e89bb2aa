-- ===== src/Base/Int.antt =====
-- Signed integers over the native numbers, by their two parts.
use Prim.Native.Nat.{ℕ, suc}
use mathlib.Core.Bool.{Bool, ◌&&◌}
use system_design.Base.Tests.{◌==◌}

-- `negsuc n` is -(n + 1).
pub data ℤ : Type 0 where
  pos : ℕ → ℤ
  negsuc : ℕ → ℤ

abbrev pub pos_part : ℤ → ℕ
pos_part (pos n) = n
pos_part (negsuc n) = 0

abbrev pub neg_part : ℤ → ℕ
neg_part (pos n) = 0
neg_part (negsuc n) = suc n

infix 50 ◌==ℤ◌
abbrev pub ◌==ℤ◌ : ℤ → ℤ → Bool
a ==ℤ b = pos_part a == pos_part b && neg_part a == neg_part b
