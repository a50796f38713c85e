-- ===== src/Prelude/Text.antt =====
-- Python's `str.upper` on ASCII letters. Other characters stay as they are.
use Prim.Native.Nat.{ℕ, ◌-◌, ◌<◌, compare, Ordering}
use Prim.Native.Char.{Char, char, code, nul, IsScalar}
use Prim.Native.String.{String}
use mathlib.Core.Path.{◌≡◌, refl}
use mathlib.Core.Bool.{Bool, true, false, ◌&&◌}
use mathlib.Core.Logic.{dite}
use native.Mathlib.Omega.{arith}
use native.Mathlib.Decide.{dec_lt}
use mavctl.Prelude.Tests.{leb, if◌then◌else◌}

compare_small : (n : ℕ) → n < 128 → compare n 55296 ≡ Ordering.lt
compare_small n h = ground arith

pub ascii_IsScalar : (n : ℕ) → n < 128 → IsScalar n
ascii_IsScalar n h = rw (compare_small n h) tt

unfoldable pub ascii : ℕ → Char
unfolding dec_lt
ascii n = dite (dec_lt n 128) (λ h. char n (ascii_IsScalar n h)) (λ _. nul)

unfoldable pub upper_char : Char → Char
unfolding ascii
upper_char c = if leb b'a' (code c) && leb (code c) b'z' then ascii (code c - 32) else c

unfoldable pub upper : String → String
unfolding upper_char
upper String.[] = String.[]
upper (String.◌∷◌ c s) = String.◌∷◌ (upper_char c) (upper s)

-- `text.startswith(prefix)`
unfoldable pub starts_with : String → String → Bool
starts_with text String.[] = true
starts_with String.[] (String.◌∷◌ c prefix) = false
starts_with (String.◌∷◌ d text) (String.◌∷◌ c prefix) =
    leb (code c) (code d) && leb (code d) (code c) && starts_with text prefix

starts_pre_arm : starts_with "PreArm: check" "PreArm:" ≡ true
unfolding starts_with
starts_pre_arm = refl

upper_guided : upper "Guided_1" ≡ "GUIDED_1"
unfolding upper
upper_guided = refl
