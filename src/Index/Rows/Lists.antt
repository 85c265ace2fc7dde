-- ===== src/Index/Rows/Lists.antt =====
-- src/tarentry.cc: the numbers that eatEntry reads from a column of numbers with commas between.
use mathlib.Core.List.{append-nil}
use beak.Prelude.{
  subst, ℕ, ◌+◌, ◌^◌, ◌≤◌, ◌<◌, ◌≡◌, refl, ap, ◌∙◌, false, [], ◌∷◌, ◌++◌, arith, Bytes, codes,
  length, length-append, has_char, equal,
}
use beak.Prelude.Decimal.{to_decimal, is_digit, length-to_decimal, to_decimal-nonempty}
use beak.Text.Eating.{is_end}
use beak.Tar.FileName.Numbers.{free-append}
use beak.Index.Rows.Eaten.{take_number, Eat, atol}
use beak.Index.Rows.Columns.{take_field-append, atol-to_decimal, decimal-free}

digit_zero : is_digit 0 ≡ false
unfolding is_digit
digit_zero = refl

digit_comma : is_digit b',' ≡ false
unfolding is_digit
digit_comma = refl

pub not_one : (f x : Bytes) → equal (f ++ b',' ∷ x) (codes "1") ≡ false
unfolding equal
not_one [] x = refl
not_one (c ∷ []) x = ground arith
not_one (c ∷ d ∷ f) x = ground arith

is_end-nonempty : (f s : Bytes) → 0 < length f → is_end (f ++ s) ≡ false
unfolding is_end
is_end-nonempty [] s h = absurd (omega arith)
is_end-nonempty (c ∷ f) s h = refl

pub decimal_more : (n : ℕ) (s : Bytes) → is_end (to_decimal n ++ s) ≡ false
decimal_more n s = is_end-nonempty (to_decimal n) s (to_decimal-nonempty n)

-- A number of 63 bits has 19 digits at most.
pub long_decimal : (n : ℕ) → n < 2 ^ 63 → length (to_decimal n) ≤ 19
long_decimal n h = length-to_decimal n 18 (omega (arith, h))

pub decimal_end : (n : ℕ) → is_end (to_decimal n) ≡ false
decimal_end n =
    subst (λ (f : Bytes). is_end f ≡ false) (append-nil (to_decimal n)) (decimal_more n [])

pub take_number-append :
    (n : ℕ) (s : Bytes) (next : ℕ → Bytes → Eat)
    → n < 2 ^ 63
    → is_end s ≡ false
    → take_number (to_decimal n ++ b',' ∷ s) next ≡ next n s
unfolding take_number
take_number-append n s next h more =
    take_field-append (to_decimal n) s b',' 64 (λ a m. next (atol a) m)
      (decimal-free n b',' digit_comma) (omega (arith, long_decimal n h)) more
    ∙ ap (λ k. next k s) (atol-to_decimal n h)

pub comma-free :
    (n : ℕ) (s : Bytes) → has_char s 0 ≡ false → has_char (to_decimal n ++ b',' ∷ s) 0 ≡ false
unfolding has_char
comma-free n s h = free-append (to_decimal n) (b',' ∷ s) 0 (decimal-free n 0 digit_zero) h

pub comma_length :
    (n k m : ℕ) (s : Bytes)
    → length (to_decimal n) ≤ k
    → length s ≤ m
    → length (to_decimal n ++ b',' ∷ s) ≤ k + m + 1
comma_length n k m s h g = omega (arith, length-append (to_decimal n) (b',' ∷ s), h, g)
