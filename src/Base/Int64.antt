-- ===== src/Base/Int64.antt =====
-- Machine integers. A signed value is an integer, of which the code keeps the nonnegative ones
-- after its guards; an unsigned one is a number with its bound written out.
use mathlib.Core.Bool.{Bool, false, true}
use pg_oauth_validator.Base.Tests.{ltb, leb, ◌==◌, if◌then◌else◌}
use Prim.Native.Nat.{ℕ, suc, ◌+◌, ◌-◌}

-- `negsuc n` is -(n + 1).
pub data ℤ : Type 0 where
  pos : ℕ → ℤ
  negsuc : ℕ → ℤ

abbrev pub int64_max : ℕ
int64_max = 9223372036854775807

abbrev pub uint64_max : ℕ
uint64_max = 18446744073709551615

abbrev pub uint32_max : ℕ
uint32_max = 4294967295

abbrev pub pos_part : ℤ → ℕ
pos_part (pos n) = n
pos_part (negsuc n) = 0

abbrev pub neg_part : ℤ → ℕ
neg_part (pos n) = 0
neg_part (negsuc n) = suc n

abbrev pub ltb_ℤ : ℤ → ℤ → Bool
ltb_ℤ a b = ltb (pos_part a + neg_part b) (pos_part b + neg_part a)

-- a - b where that is not negative, and 0 otherwise
abbrev pub monus_ℤ : ℤ → ℤ → ℕ
monus_ℤ a b = (pos_part a + neg_part b) - (neg_part a + pos_part b)

abbrev pub is_minus_one : ℤ → Bool
is_minus_one (pos n) = false
is_minus_one (negsuc n) = n == 0

abbrev pub is_negative : ℤ → Bool
is_negative (pos n) = false
is_negative (negsuc n) = true

-- the value of an integer that a guard has found nonnegative
abbrev pub magnitude : ℤ → ℕ
magnitude (pos n) = n
magnitude (negsuc n) = 0

-- `a - b` on size_t, with its wrap-around
unfoldable pub size_minus : ℕ → ℕ → ℕ
size_minus a b = if leb b a then a - b else (a + uint64_max + 1) - b
