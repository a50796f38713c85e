-- ===== src/Prelude/Int.antt =====
-- Signed integers over the native numbers, under the library's names.
use Prim.Native.Nat.{ℕ, zero, suc, ◌+◌, ◌-◌, ◌*◌, ◌/◌, ◌%◌, ◌≤◌, ◌<◌}
use mathlib.Core.Path.{◌≡◌}
use mathlib.Core.Bool.{Bool, ◌&&◌, ◌||◌}
use native.Mathlib.Omega.{arith}
use mavctl.Prelude.Tests.{ltb, leb, ◌==◌, if◌then◌else◌}

-- `negsuc n` is -(n + 1).
pub data ℤ : Type 0 where
  pos : ℕ → ℤ
  negsuc : ℕ → ℤ

abbrev pub pos_part : ℤ → ℕ
pos_part (pos n) = n
pos_part (negsuc n) = 0

abbrev pub neg_part : ℤ → ℕ
neg_part (pos n) = 0
neg_part (negsuc n) = suc n

-- a - b, as an integer.
abbrev pub sub_ℕ : ℕ → ℕ → ℤ
sub_ℕ a b = if leb b a then pos (a - b) else negsuc (b - a - 1)

infixl 65 ◌+ℤ◌ ◌-ℤ◌
infix 50 ◌≤ℤ◌ ◌<ℤ◌
unfoldable pub ◌+ℤ◌ : ℤ → ℤ → ℤ
a +ℤ b = sub_ℕ (pos_part a + pos_part b) (neg_part a + neg_part b)

unfoldable pub ◌-ℤ◌ : ℤ → ℤ → ℤ
a -ℤ b = sub_ℕ (pos_part a + neg_part b) (neg_part a + pos_part b)

abbrev pub ◌≤ℤ◌ : ℤ → ℤ → Type 0
a ≤ℤ b = pos_part a + neg_part b ≤ pos_part b + neg_part a

abbrev pub ◌<ℤ◌ : ℤ → ℤ → Type 0
a <ℤ b = pos_part a + neg_part b < pos_part b + neg_part a

abbrev pub ltb_ℤ : ℤ → ℤ → Bool
ltb_ℤ a b = ltb (pos_part a + neg_part b) (pos_part b + neg_part a)

abbrev pub leb_ℤ : ℤ → ℤ → Bool
leb_ℤ a b = leb (pos_part a + neg_part b) (pos_part b + neg_part a)

-- The absolute value.
unfoldable pub abs : ℤ → ℕ
abs a = pos_part a + neg_part a

pub eq_of_parts : (a b : ℤ) → pos_part a + neg_part b ≡ pos_part b + neg_part a → a ≡ b
eq_of_parts a b h = ground arith

-- -n
abbrev pub negative : ℕ → ℤ
negative zero = pos 0
negative (suc n) = negsuc n

-- a * n
unfoldable pub scale : ℤ → ℕ → ℤ
scale (pos k) n = pos (k * n)
scale (negsuc k) n = negative (suc k * n)

-- n / 100, rounded to the nearest integer and half-way cases to the even one.
unfoldable pub round_hundredth : ℕ → ℕ
round_hundredth n =
    if ltb (n % 100) 50 || ((n % 100) == 50 && (n / 100 % 2) == 0) then n / 100 else n / 100 + 1

-- a / 100, rounded in the same way.
unfoldable pub round_hundredth_ℤ : ℤ → ℤ
unfolding round_hundredth
round_hundredth_ℤ (pos n) = pos (round_hundredth n)
round_hundredth_ℤ (negsuc n) = negative (round_hundredth (suc n))

pub round-scale : (a : ℤ) → round_hundredth_ℤ (scale a 100) ≡ a
unfolding round_hundredth_ℤ scale round_hundredth
round-scale (pos n) = ground arith
round-scale (negsuc n) = ground arith

-- The rounding error is half a unit at most.
pub round_error : (a : ℤ) → abs (a -ℤ scale (round_hundredth_ℤ a) 100) ≤ 50
unfolding round_hundredth_ℤ scale round_hundredth abs ◌-ℤ◌
round_error (pos n) = ground arith
round_error (negsuc n) = ground arith
