-- ===== src/Common/Int.antt =====
-- Signed integers, and the number that a two's complement bit pattern stands for.
use Prim.Native.Nat.{ℕ, ◌-◌, ◌^◌}
use xm_sigma.Common.Tests.{ltb, if◌then◌else◌}

-- `negsuc n` is -(n + 1).
pub data ℤ : Type 0 where
  pos : ℕ → ℤ
  negsuc : ℕ → ℤ

-- The conversion of a `w`-bit unsigned value to the signed type of that width.
abbrev pub signed : ℕ → ℕ → ℤ
signed w x = if ltb x (2 ^ (w - 1)) then pos x else negsuc (2 ^ w - x - 1)
