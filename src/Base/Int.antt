-- ===== src/Base/Int.antt =====
-- The integers over native numbers, under the library's names.
use Prim.Native.Nat.{ℕ, suc}
use mathlib.Core.Bool.{Bool, true, false, ◌&&◌}
use emmc_driver.Base.Tests.{leb}

pub data ℤ : Type 0 where
  pos : ℕ → ℤ
  negsuc : ℕ → ℤ

abbrev pub is_negative : ℤ → Bool
is_negative (pos n) = false
is_negative (negsuc n) = true

-- a ≤ z ≤ b, for natural bounds
abbrev pub is_between : ℕ → ℕ → ℤ → Bool
is_between a b (pos n) = leb a n && leb n b
is_between a b (negsuc n) = false

abbrev pub nat_abs : ℤ → ℕ
nat_abs (pos n) = n
nat_abs (negsuc n) = suc n
