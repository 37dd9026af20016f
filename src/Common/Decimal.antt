-- ===== src/Common/Decimal.antt =====
-- `%d`: the digits of a number spell it.
use Prim.Native.Nat.{ℕ, zero, suc, ◌+◌, ◌-◌, ◌*◌, ◌/◌, ◌%◌, ◌^◌, ◌≤◌, ◌<◌}
use mathlib.Core.Path.{◌≡◌, ◌∙◌, sym, ap}
use mathlib.Core.List.{[], ◌∷◌}
use native.Mathlib.Omega.{arith}
use native.Mathlib.Nat.{pow-suc}
use kubechecks.Common.Lists.{All}
use kubechecks.Common.Text.{Bytes, itoa, digits}

abbrev IsDigit : ℕ → Type 0
IsDigit b = (b'0' ≤ b) × (b ≤ b'9')

digits-IsDigit : (fuel n : ℕ) (out : Bytes) → All IsDigit out → All IsDigit (digits fuel n out)
unfolding digits
digits-IsDigit zero n out h = h
digits-IsDigit (suc fuel) n out h =
    let here : IsDigit (b'0' + n % 10) = (omega arith, omega arith) in
    ground (arith, here, digits-IsDigit fuel (n / 10) ((b'0' + n % 10) ∷ out) (here, h))

pub itoa-IsDigit : (n : ℕ) → All IsDigit (itoa n)
unfolding itoa
itoa-IsDigit n = digits-IsDigit (suc n) n [] tt

-- The number that digits spell, behind a number that is read already.
value_from : ℕ → Bytes → ℕ
value_from acc [] = acc
value_from acc (d ∷ s) = value_from (acc * 10 + (d - b'0')) s

value_from-digits :
    (fuel n : ℕ) (out : Bytes) → n < 10 ^ fuel → value_from 0 (digits fuel n out) ≡ value_from n out
unfolding value_from digits
value_from-digits zero n out h = ap (λ k. value_from k out) (omega arith)
value_from-digits (suc fuel) n out h =
    let ih = value_from-digits fuel (n / 10) ((b'0' + n % 10) ∷ out) in
    let last : n / 10 * 10 + (b'0' + n % 10 - b'0') ≡ n = omega arith in
    ground (arith, ih, last, pow-suc 10 fuel)

lt_pow : (n : ℕ) → n < 10 ^ n
lt_pow zero = omega arith
lt_pow (suc n) = omega (arith, lt_pow n, pow-suc 10 n)

value_from-itoa : (n : ℕ) → value_from 0 (itoa n) ≡ n
unfolding itoa value_from
value_from-itoa n = value_from-digits (suc n) n [] (omega (arith, lt_pow n, pow-suc 10 n))

pub itoa_injective : (m n : ℕ) → itoa m ≡ itoa n → m ≡ n
itoa_injective m n h = sym (value_from-itoa m) ∙ ap (value_from 0) h ∙ value_from-itoa n
