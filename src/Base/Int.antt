-- ===== src/Base/Int.antt =====
-- Signed integers over the native numbers, under the library's names: Go's `int`, where a value may
-- be negative. The models compare them and do not add them.
use Prim.Native.Nat.{ℕ}
use mathlib.Core.Bool.{Bool, false}
use velinx.Base.Tests.{leb, ltb, if◌then◌else◌}

-- `negsuc n` is -(n + 1).
pub data ℤ : Type 0 where
  pos : ℕ → ℤ
  negsuc : ℕ → ℤ

-- `0 < i`
abbrev pub is_pos : ℤ → Bool
is_pos (pos n) = ltb 0 n
is_pos (negsuc n) = false

-- The value of an integer that is not negative, and 0 for one that is.
abbrev pub to_ℕ : ℤ → ℕ
to_ℕ (pos n) = n
to_ℕ (negsuc n) = 0

-- `lo <= i && i <= hi`, for bounds that are not negative.
abbrev pub in_range : ℕ → ℕ → ℤ → Bool
in_range lo hi (pos n) = if leb lo n then leb n hi else false
in_range lo hi (negsuc n) = false
