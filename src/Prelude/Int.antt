-- ===== src/Prelude/Int.antt =====
-- Go's signed integers where the program compares them with bounds: `negsuc n` is -(n + 1).
use Prim.Native.Nat.{ℕ}
use mathlib.Core.Bool.{Bool, true, false}
use online_coding_judge.Prelude.Tests.{ltb}

pub data ℤ : Type 0 where
  pos : ℕ → ℤ
  negsuc : ℕ → ℤ

-- `i < n`
abbrev pub below : ℤ → ℕ → Bool
below (pos a) n = ltb a n
below (negsuc a) n = true

-- `i > n`
abbrev pub above : ℤ → ℕ → Bool
above (pos a) n = ltb n a
above (negsuc a) n = false

-- `i != 0`
abbrev pub is_nonzero : ℤ → Bool
is_nonzero (pos a) = ltb 0 a
is_nonzero (negsuc a) = true

-- The value of a number that is not negative, and 0 for one that is.
abbrev pub pos_part : ℤ → ℕ
pos_part (pos n) = n
pos_part (negsuc n) = 0
