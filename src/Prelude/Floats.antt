-- ===== src/Prelude/Floats.antt =====
-- Python's `float`. A finite value is an exact multiple of 10⁻⁹; NaN and the infinities compare
-- as in IEEE 754. Rounding of binary fractions is not modelled.
use Prim.Native.Nat.{ℕ, suc, ◌+◌, ◌*◌, ◌/◌, ◌%◌}
use mathlib.Core.Path.{◌≡◌, refl}
use mathlib.Core.Bool.{Bool, true, false, ◌&&◌, ◌||◌}
use mathlib.Core.Option.{Option, none, some}
use native.Mathlib.Omega.{arith}
use mavctl.Prelude.Tests.{ltb, ◌==◌, if◌then◌else◌}
use mavctl.Prelude.Int.{
  ℤ, pos, ltb_ℤ, leb_ℤ, negsuc, negative, ◌+ℤ◌, ◌-ℤ◌, abs, scale, round_hundredth_ℤ, round-scale,
}

pub data Float : Type 0 where
  finite : ℤ → Float
  nan infinity minus_infinity : Float

-- `math.isfinite`
unfoldable pub is_finite : Float → Bool
is_finite (finite a) = true
is_finite _ = false

-- `a < b`
unfoldable pub float_lt : Float → Float → Bool
float_lt (finite a) (finite b) = ltb_ℤ a b
float_lt (finite a) infinity = true
float_lt minus_infinity (finite b) = true
float_lt minus_infinity infinity = true
float_lt _ _ = false

-- `a <= b`
unfoldable pub float_le : Float → Float → Bool
float_le (finite a) (finite b) = leb_ℤ a b
float_le (finite a) infinity = true
float_le infinity infinity = true
float_le minus_infinity (finite b) = true
float_le minus_infinity infinity = true
float_le minus_infinity minus_infinity = true
float_le _ _ = false

-- `a == b`
unfoldable pub float_eq : Float → Float → Bool
unfolding float_le
float_eq a b = float_le a b && float_le b a

-- `a + b`
unfoldable pub float_add : Float → Float → Float
float_add (finite a) (finite b) = finite (a +ℤ b)
float_add (finite a) other = other
float_add infinity (finite b) = infinity
float_add infinity infinity = infinity
float_add minus_infinity (finite b) = minus_infinity
float_add minus_infinity minus_infinity = minus_infinity
float_add _ _ = nan

-- `a - b`
unfoldable pub float_sub : Float → Float → Float
float_sub (finite a) (finite b) = finite (a -ℤ b)
float_sub (finite a) infinity = minus_infinity
float_sub (finite a) minus_infinity = infinity
float_sub infinity (finite b) = infinity
float_sub infinity minus_infinity = infinity
float_sub minus_infinity (finite b) = minus_infinity
float_sub minus_infinity infinity = minus_infinity
float_sub _ _ = nan

-- `abs(a)`
unfoldable pub float_abs : Float → Float
float_abs (finite a) = finite (pos (abs a))
float_abs nan = nan
float_abs _ = infinity

-- `a * k`, for a `k` above 0
unfoldable pub scale_float : Float → ℕ → Float
scale_float (finite a) k = finite (scale a k)
scale_float other k = other

-- `round(degrees * 1e7)`; `none` is the exception for NaN and the infinities.
unfoldable pub round_e7 : Float → Option ℤ
round_e7 (finite a) = some (round_hundredth_ℤ a)
round_e7 _ = none

-- A natural number over `d`, rounded to the nearest integer and half-way cases to the even one.
unfoldable pub round_quotient : ℕ → ℕ → ℕ
round_quotient n d =
    if ltb (n % d * 2) d || (n % d * 2 == d && n / d % 2 == 0) then n / d else n / d + 1

-- `round(a, 3)`, exactly.
unfoldable pub round_thousandths : Float → Float
unfolding round_quotient
round_thousandths (finite (pos n)) = finite (pos (round_quotient n 1000000 * 1000000))
round_thousandths (finite (negsuc n)) = finite (negative (round_quotient (suc n) 1000000 * 1000000))
round_thousandths other = other

-- `n / 1e7`
unfoldable pub of_e7 : ℤ → Float
of_e7 n = finite (scale n 100)

pub round-of_e7 : (n : ℤ) → round_e7 (of_e7 n) ≡ some n
unfolding round_e7 of_e7
round-of_e7 n = rw (round-scale n) refl

abbrev pub seconds : ℕ → Float
seconds n = finite (pos (n * 1000000000))

abbrev pub metres : ℕ → Float
metres = seconds

abbrev pub thousandths : ℕ → Float
thousandths n = finite (pos (n * 1000000))

abbrev pub zero_float : Float
zero_float = finite (pos 0)

-- The order of two floats, either of which may be missing or not a number.
abbrev pub Within : Option Float → Float → Type 0
Within none b = ⊥
Within (some a) b = float_le a b ≡ true

pub float_lt-le : (a b : Float) → float_lt a b ≡ true → float_le a b ≡ true
unfolding float_lt float_le
float_lt-le a b h = ground arith

pub float_le-not-lt : (a b : Float) → float_le a b ≡ true → float_lt b a ≡ false
unfolding float_lt float_le
float_le-not-lt a b h = ground arith

-- Of two finite values one is below the other, or they are in order.
pub not-float_lt-le :
    (a b : Float)
    → is_finite a ≡ true
    → is_finite b ≡ true
    → float_lt a b ≡ false
    → float_le b a ≡ true
unfolding is_finite float_lt float_le
not-float_lt-le a b f g h = ground arith

pub float_le_trans :
    (a b c : Float) → float_le a b ≡ true → float_le b c ≡ true → float_le a c ≡ true
unfolding float_le
float_le_trans a b c h k = ground arith

-- The only value equal to zero is zero.
pub float_eq_zero : (a : Float) → float_eq a zero_float ≡ true → a ≡ zero_float
unfolding float_eq float_le
float_eq_zero a h = ground arith
