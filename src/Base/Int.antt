-- ===== src/Base/Int.antt =====
-- Signed integers, with the operations that the source's arithmetic on `int`, `int64` and times uses.
use Prim.Native.Nat.{ℕ, suc, ◌+◌, ◌-◌, ◌*◌, ◌%◌}
use mathlib.Core.Bool.{Bool}
use mathlib.Core.Path.{◌≡◌, refl}
use hrobot_go.Base.Tests.{ltb, leb, if◌then◌else◌}

-- `negsuc n` is -(n + 1).
pub data ℤ : Type 0 where
  pos : ℕ → ℤ
  negsuc : ℕ → ℤ

abbrev pub pos_part : ℤ → ℕ
pos_part (pos n) = n
pos_part (negsuc n) = 0

abbrev pub neg_part : ℤ → ℕ
neg_part (pos n) = 0
neg_part (negsuc n) = suc n

-- a - b, as an integer.
abbrev pub sub_ℕ : ℕ → ℕ → ℤ
sub_ℕ a b = if leb b a then pos (a - b) else negsuc (b - a - 1)

infixl 65 ◌+ℤ◌ ◌-ℤ◌
unfoldable pub ◌+ℤ◌ : ℤ → ℤ → ℤ
a +ℤ b = sub_ℕ (pos_part a + pos_part b) (neg_part a + neg_part b)

unfoldable pub ◌-ℤ◌ : ℤ → ℤ → ℤ
a -ℤ b = sub_ℕ (pos_part a + neg_part b) (neg_part a + pos_part b)

-- A product with a natural number.
unfoldable pub scale : ℤ → ℕ → ℤ
scale (pos n) k = pos (n * k)
scale (negsuc n) k = sub_ℕ 0 (suc n * k)

abbrev pub ltb_ℤ : ℤ → ℤ → Bool
ltb_ℤ a b = ltb (pos_part a + neg_part b) (pos_part b + neg_part a)

-- The two's complement value of 64 bits, as `int64` arithmetic wraps.
unfoldable pub of_u64 : ℕ → ℤ
of_u64 n = if ltb n 9223372036854775808 then pos n else negsuc (18446744073709551615 - n)

unfoldable pub wrap64 : ℤ → ℤ
unfolding of_u64
wrap64 (pos n) = of_u64 (n % 18446744073709551616)
wrap64 (negsuc n) = of_u64 (18446744073709551615 - n % 18446744073709551616)

-- `Time.Sub` saturates at the ends of `int64`.
unfoldable pub saturate64 : ℤ → ℤ
saturate64 (pos n) = if ltb 9223372036854775807 n then pos 9223372036854775807 else pos n
saturate64 (negsuc n) = if ltb 9223372036854775807 n then negsuc 9223372036854775807 else negsuc n

wraps : wrap64 (pos 9223372036854775808) ≡ negsuc 9223372036854775807
unfolding wrap64
wraps = refl
