-- ===== src/Base/Decimal.antt =====
-- Numbers in template literals: decimal digits, most significant first.
use Prim.Native.Nat.{ℕ, zero, suc, ◌+◌, ◌-◌, ◌*◌, ◌/◌, ◌%◌, ◌<◌}
use mathlib.Core.Path.{◌≡◌, refl, sym, ap, ◌∙◌}
use mathlib.Core.Logic.{inl, inr}
use mathlib.Core.List.{[], ◌∷◌, ◌++◌}
use native.Mathlib.Omega.{arith}
use nauts.Base.Tests.{if◌then◌else◌, ltb, Bool-cases}
use nauts.Base.Text.{Text}

unfoldable pub decimal_fuel : ℕ → ℕ → Text
decimal_fuel zero n = []
decimal_fuel (suc fuel) n =
    let front = decimal_fuel fuel (n / 10) in
    if ltb n 10 then (b'0' + n) ∷ [] else front ++ (b'0' + n % 10) ∷ []

-- The fuel `n + 1` suffices: `n / 10` is smaller than `n`.
unfoldable pub decimal : ℕ → Text
unfolding decimal_fuel
decimal n = decimal_fuel (suc n) n

-- The number that digits stand for, after those that gave `acc`.
unfoldable pub read_digits : ℕ → Text → ℕ
read_digits acc [] = acc
read_digits acc (c ∷ s) = read_digits (acc * 10 + (c - b'0')) s

read_digits-append :
    (acc : ℕ) (s : Text) (c : ℕ)
    → read_digits acc (s ++ c ∷ []) ≡ read_digits acc s * 10 + (c - b'0')
unfolding read_digits
read_digits-append acc [] c = refl
read_digits-append acc (d ∷ s) c = read_digits-append (acc * 10 + (d - b'0')) s c

read_digits-fuel : (fuel n : ℕ) → n < fuel → read_digits 0 (decimal_fuel fuel n) ≡ n
unfolding decimal_fuel
read_digits-fuel zero n h = absurd (omega arith)
read_digits-fuel (suc fuel) n h = elim (Bool-cases (ltb n 10)) [
  | inl e ↦ rw e (unfold read_digits in omega arith)
  | inr e ↦ rw e (
      read_digits-append 0 (decimal_fuel fuel (n / 10)) (b'0' + n % 10)
      ∙ last_digit (read_digits-fuel fuel (n / 10) (ground arith)))
]
  where
    last_digit :
        read_digits 0 (decimal_fuel fuel (n / 10)) ≡ n / 10
        → read_digits 0 (decimal_fuel fuel (n / 10)) * 10 + (b'0' + n % 10 - b'0') ≡ n
    last_digit q = omega arith

-- Reading the digits gives the number back.
pub read_digits-decimal : (n : ℕ) → read_digits 0 (decimal n) ≡ n
unfolding decimal
read_digits-decimal n = read_digits-fuel (suc n) n (omega arith)

-- Different numbers have different digits.
pub decimal-injective : (m n : ℕ) → decimal m ≡ decimal n → m ≡ n
decimal-injective m n e = sym (read_digits-decimal m) ∙ ap (read_digits 0) e ∙ read_digits-decimal n
