-- ===== src/Prelude/Decimal.antt =====
-- Decimal numbers: std::to_string of an unsigned number, isdigit, and atol of a text of digits.
use Prim.Native.Nat.{ℕ, zero, suc, ◌+◌, ◌-◌, ◌*◌, ◌/◌, ◌%◌, ◌^◌, ◌≤◌, ◌<◌}
use mathlib.Core.Path.{◌≡◌, refl}
use mathlib.Core.Bool.{Bool, true, ◌&&◌}
use mathlib.Core.List.{[], ◌∷◌, ◌++◌}
use native.Mathlib.Omega.{arith}
use beak.Prelude.Tests.{ltb, leb, if◌then◌else◌, Bool-cases}
use mathlib.Core.Logic.{inl, inr}
use beak.Prelude.Lists.{Bytes, length, length-append}

-- The digits of n, the last one being its remainder.
unfoldable pub digits_loop : ℕ → ℕ → Bytes
digits_loop zero n = []
digits_loop (suc fuel) n =
    let rest = digits_loop fuel (n / 10) in
    if ltb n 10 then (b'0' + n) ∷ [] else rest ++ ((b'0' + n % 10) ∷ [])

unfoldable pub to_decimal : ℕ → Bytes
unfolding digits_loop
to_decimal n = digits_loop (suc n) n

unfoldable pub is_digit : ℕ → Bool
is_digit c = leb b'0' c && leb c b'9'

unfoldable pub all_digits : Bytes → Bool
unfolding is_digit
all_digits [] = true
all_digits (c ∷ s) = is_digit c && all_digits s

-- The number that the digits after those of `acc` make of it.
unfoldable pub number : ℕ → Bytes → ℕ
number acc [] = acc
number acc (c ∷ s) = number (acc * 10 + (c - b'0')) s

pub number-append : (acc : ℕ) (s t : Bytes) → number acc (s ++ t) ≡ number (number acc s) t
unfolding number
number-append acc [] t = refl
number-append acc (c ∷ s) t = number-append (acc * 10 + (c - b'0')) s t

pub all_digits-append :
    (s t : Bytes) → all_digits s ≡ true → all_digits t ≡ true → all_digits (s ++ t) ≡ true
unfolding all_digits
all_digits-append [] t h k = k
all_digits-append (c ∷ s) t h k = ground (arith, all_digits-append s t)

number-digits_loop : (fuel n : ℕ) → n < fuel → number 0 (digits_loop fuel n) ≡ n
unfolding number digits_loop
number-digits_loop zero n h = absurd (omega arith)
number-digits_loop (suc fuel) n h = elim (Bool-cases (ltb n 10)) [
  | inl e ↦ rw e (omega arith)
  | inr e ↦
      let big : 10 ≤ n = ground arith in
      let ih = number-digits_loop fuel (n / 10) (omega (arith, h, big)) in
      rw (e, number-append 0 (digits_loop fuel (n / 10)) ((b'0' + n % 10) ∷ []), ih) (omega arith)
]

digits_loop-digits : (fuel n : ℕ) → all_digits (digits_loop fuel n) ≡ true
unfolding all_digits digits_loop is_digit
digits_loop-digits zero n = refl
digits_loop-digits (suc fuel) n = elim (Bool-cases (ltb n 10)) [
  | inl e ↦ rw e (ground arith)
  | inr e ↦
      let last : all_digits ((b'0' + n % 10) ∷ []) ≡ true = ground arith in
      rw e (
        all_digits-append (digits_loop fuel (n / 10)) ((b'0' + n % 10) ∷ [])
          (digits_loop-digits fuel (n / 10)) last)
]

length-digits_loop : (fuel n k : ℕ) → n < 10 ^ suc k → length (digits_loop fuel n) ≤ suc k
unfolding digits_loop
length-digits_loop zero n k h = omega arith
length-digits_loop (suc fuel) n zero h = elim (Bool-cases (ltb n 10)) [
  | inl e ↦ rw e (omega arith)
  | inr e ↦ absurd (ground arith)
]
length-digits_loop (suc fuel) n (suc k) h = elim (Bool-cases (ltb n 10)) [
  | inl e ↦ rw e (omega arith)
  | inr e ↦
      let less : n / 10 < 10 ^ suc k = grind arith in
      let ih = length-digits_loop fuel (n / 10) k less in
      rw (e, length-append (digits_loop fuel (n / 10)) ((b'0' + n % 10) ∷ [])) (omega arith)
]

digits_loop-nonempty : (fuel n : ℕ) → 0 < length (digits_loop (suc fuel) n)
unfolding digits_loop
digits_loop-nonempty fuel n = elim (Bool-cases (ltb n 10)) [
  | inl e ↦ rw e (omega arith)
  | inr e ↦ rw (e, length-append (digits_loop fuel (n / 10)) ((b'0' + n % 10) ∷ [])) (omega arith)
]

pub number-to_decimal : (n : ℕ) → number 0 (to_decimal n) ≡ n
unfolding to_decimal
number-to_decimal n = number-digits_loop (suc n) n (omega arith)

pub to_decimal-digits : (n : ℕ) → all_digits (to_decimal n) ≡ true
unfolding to_decimal
to_decimal-digits n = digits_loop-digits (suc n) n

pub length-to_decimal : (n k : ℕ) → n < 10 ^ suc k → length (to_decimal n) ≤ suc k
unfolding to_decimal
length-to_decimal n k h = length-digits_loop (suc n) n k h

pub to_decimal-nonempty : (n : ℕ) → 0 < length (to_decimal n)
unfolding to_decimal
to_decimal-nonempty n = digits_loop-nonempty n n
