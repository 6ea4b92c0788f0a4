-- ===== src/Base/Integer.antt =====
-- Go's `int` where the sign matters. `negsuc n` is -(n + 1). No value of the modelled code comes near
-- the bounds of the machine type.
use Prim.Native.Nat.{ℕ}
use mathlib.Core.Bool.{Bool, false, true}
use adk_go.Base.Tests.{ltb, leb}

pub data ℤ : Type 0 where
  pos : ℕ → ℤ
  negsuc : ℕ → ℤ

-- `0 < i`
abbrev pub is_positive : ℤ → Bool
is_positive (pos n) = ltb 0 n
is_positive (negsuc n) = false

-- `i <= n`
abbrev pub at_most : ℤ → ℕ → Bool
at_most (pos i) n = leb i n
at_most (negsuc i) n = true
