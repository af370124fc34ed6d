-- ===== src/Prelude/Int.antt =====
-- The numbers of a C `int` where their sign matters, over the native ℕ.
use Prim.Native.Nat.{ℕ, zero}
use mathlib.Core.Bool.{Bool, false}
use linux_file_manager.Prelude.Tests.{ltb}

pub data ℤ : Type 0 where
  pos : ℕ → ℤ
  negsuc : ℕ → ℤ

-- `n < z`
abbrev pub below : ℕ → ℤ → Bool
below n (pos m) = ltb n m
below n (negsuc m) = false

abbrev pub to_nat : ℤ → ℕ
to_nat (pos m) = m
to_nat (negsuc m) = zero
