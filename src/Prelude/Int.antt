-- ===== src/Prelude/Int.antt =====
-- Go's `int` where a value may be negative.
use cloudflared_fips.Prelude.Tests.{ltb}
use Prim.Native.Nat.{ℕ, zero, suc}
use mathlib.Core.Bool.{Bool}

-- `negsuc n` is -(n + 1).
pub data ℤ : Type 0 where
  pos : ℕ → ℤ
  negsuc : ℕ → ℤ

-- `n - 1` of an index
abbrev pub before : ℕ → ℤ
before zero = negsuc 0
before (suc n) = pos n

-- The number, or 0 for a negative one.
abbrev pub pos_part : ℤ → ℕ
pos_part (pos n) = n
pos_part (negsuc n) = 0

-- `0 < a`
abbrev pub is_positive : ℤ → Bool
is_positive a = ltb 0 (pos_part a)
