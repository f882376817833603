-- ===== src/Base/Decimal.antt =====
-- Decimal texts of natural numbers: `n.toString()` and `BigInt(s)` on a text of digits.
use Prim.Native.Nat.{ℕ, zero, suc, ◌+◌, ◌-◌, ◌*◌, ◌/◌, ◌%◌, ◌<◌}
use mathlib.Core.Path.{◌≡◌, refl}
use mathlib.Core.List.{[], ◌∷◌}
use native.Mathlib.Omega.{arith}
use media_service.Base.Tests.{ltb, if◌then◌else◌}
use media_service.Base.Texts.{Text}
use media_service.Base.Lists.{length}

-- The digits of `n` in front of `acc`, with as much fuel as there are digits at least.
digits : ℕ → ℕ → Text → Text
digits zero n acc = acc
digits (suc f) n acc =
    let rest = digits f (n / 10) ((48 + n % 10) ∷ acc) in
    if ltb n 10 then (48 + n % 10) ∷ acc else rest

unfoldable pub to_decimal : ℕ → Text
unfolding digits
to_decimal n = digits (suc n) n []

read_digits : ℕ → Text → ℕ
read_digits acc [] = acc
read_digits acc (c ∷ s) = read_digits (acc * 10 + (c - 48)) s

unfoldable pub from_decimal : Text → ℕ
unfolding read_digits
from_decimal s = read_digits 0 s

read_digits-digits :
    (f n : ℕ) (acc : Text) → n < f → read_digits 0 (digits f n acc) ≡ read_digits n acc
unfolding digits read_digits
read_digits-digits zero n acc h = absurd (omega arith)
read_digits-digits (suc f) n acc h =
    ground (arith, read_digits-digits f (n / 10) ((48 + n % 10) ∷ acc))

pub from_decimal-to_decimal : (n : ℕ) → from_decimal (to_decimal n) ≡ n
unfolding to_decimal from_decimal read_digits
from_decimal-to_decimal n = read_digits-digits (suc n) n [] (omega arith)

-- A number below a hundred has one digit or two.
pub to_decimal-length : (n : ℕ) → n < 100 → length (to_decimal n) ≡ (if ltb n 10 then 1 else 2)
unfolding to_decimal digits
to_decimal-length zero h = refl
to_decimal-length (suc k) h = ground arith
