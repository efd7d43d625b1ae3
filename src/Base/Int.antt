-- ===== src/Base/Int.antt =====
-- Signed integers: Go's `int` and `int64` by the number that they stand for.
use Prim.Native.Nat.{ℕ}
use mathlib.Core.Bool.{Bool, true, false}
use vfkit.Base.Tests.{ltb, ◌==◌}

-- `negsuc n` is -(n + 1).
pub data ℤ : Type 0 where
  pos : ℕ → ℤ
  negsuc : ℕ → ℤ

-- `z < n` for a number `n`
abbrev pub ltb_pos : ℤ → ℕ → Bool
ltb_pos (pos a) n = ltb a n
ltb_pos (negsuc a) n = true

-- `z > n` for a number `n`
abbrev pub gtb_pos : ℤ → ℕ → Bool
gtb_pos (pos a) n = ltb n a
gtb_pos (negsuc a) n = false

abbrev pub is_zero : ℤ → Bool
is_zero (pos a) = a == 0
is_zero (negsuc a) = false
