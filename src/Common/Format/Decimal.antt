-- ===== src/Common/Format/Decimal.antt =====
-- What "%u" prints is read back as the number.
use Prim.Native.Nat.{ℕ, zero, suc, ◌+◌, ◌*◌, ◌/◌, ◌%◌, ◌^◌, ◌≤◌, ◌<◌}
use mathlib.Core.Path.{◌≡◌, refl, ◌∙◌, ap}
use mathlib.Core.Logic.{◌≢◌, inl, inr}
use mathlib.Core.List.{[], ◌∷◌}
use native.Mathlib.Omega.{arith}
use cedar_switch_3i3o_power.Common.Tests.{ltb, Bool-cases}
use cedar_switch_3i3o_power.Common.Lists.{length, All}
use cedar_switch_3i3o_power.Common.CString.{Bytes}
use cedar_switch_3i3o_power.Common.Format.{dec, digits_from, digit_value, read_digits}

-- The least number that `fuel` digits do not print.
abbrev pub limit : ℕ → ℕ
limit zero = 1
limit (suc fuel) = 10 * limit fuel

abbrev pub IsDigit : ℕ → Type 0
IsDigit c = (b'0' ≤ c) × (c ≤ b'9')

read_last :
    (n : ℕ) (out : Bytes) → read_digits 10 (n / 10) ((b'0' + n % 10) ∷ out) ≡ read_digits 10 n out
unfolding read_digits digit_value
read_last n out = ground arith

read_digits-digits_from :
    (fuel n : ℕ) (out : Bytes)
    → n < limit fuel
    → read_digits 10 0 (digits_from fuel n out) ≡ read_digits 10 n out
unfolding digits_from
read_digits-digits_from zero n out h = let z : n ≡ 0 = omega arith in rw (z) refl
read_digits-digits_from (suc fuel) n out h = elim (Bool-cases (ltb n 10)) [
  | inl last ↦
      let z : 0 ≡ n / 10 = ground arith in
      rw (last) (ap (λ k. read_digits 10 k ((b'0' + n % 10) ∷ out)) z ∙ read_last n out)
  | inr more ↦
      let here = (b'0' + n % 10) ∷ out in
      rw (more) (read_digits-digits_from fuel (n / 10) here (omega arith) ∙ read_last n out)
]

digits_from-IsDigit :
    (fuel n : ℕ) (out : Bytes) → All IsDigit out → All IsDigit (digits_from fuel n out)
unfolding digits_from
digits_from-IsDigit zero n out h = h
digits_from-IsDigit (suc fuel) n out h =
    let here = (b'0' + n % 10) ∷ out in
    ground (arith, digits_from-IsDigit fuel (n / 10) here (omega arith, h))

length-digits_from :
    (fuel count n : ℕ) (out : Bytes)
    → n < limit (suc count)
    → length (digits_from fuel n out) ≤ suc count + length out
unfolding digits_from
length-digits_from zero count n out h = omega arith
length-digits_from (suc fuel) zero n out h = ground arith
length-digits_from (suc fuel) (suc count) n out h =
    ground (arith, length-digits_from fuel count (n / 10) ((b'0' + n % 10) ∷ out))

pub dec-IsDigit : (n : ℕ) → All IsDigit (dec n)
unfolding dec
dec-IsDigit n = digits_from-IsDigit 10 n [] tt

pub length-dec : (n : ℕ) → n < 1000 → length (dec n) ≤ 3
unfolding dec
length-dec n h = length-digits_from 10 2 n [] h

pub read_digits-dec : (n : ℕ) → n < 2 ^ 32 → read_digits 10 0 (dec n) ≡ n
unfolding dec read_digits
read_digits-dec n h = read_digits-digits_from 10 n [] (omega arith)

length-digits_from_grow : (fuel n : ℕ) (out : Bytes) → length out ≤ length (digits_from fuel n out)
unfolding digits_from
length-digits_from_grow zero n out = omega arith
length-digits_from_grow (suc fuel) n out =
    ground (arith, length-digits_from_grow fuel (n / 10) ((b'0' + n % 10) ∷ out))

-- At least one digit is printed.
pub dec-≢ : (n : ℕ) → dec n ≢ []
unfolding dec digits_from
dec-≢ n e =
    let grow = length-digits_from_grow 9 (n / 10) ((b'0' + n % 10) ∷ []) in
    elim (Bool-cases (ltb n 10)) [ inl last ↦ cc | inr more ↦ absurd (ground (arith, grow)) ]
