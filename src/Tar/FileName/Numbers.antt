-- ===== src/Tar/FileName/Numbers.antt =====
-- src/util.cc and src/tarfile.cc: the numbers in the names of stored files, hexadecimal and padded.
use beak.Prelude.{
  ℕ, zero, suc, ◌+◌, ◌*◌, ◌/◌, ◌%◌, ◌≤◌, ◌<◌, ◌≡◌, refl, ◌∙◌, Bool, true, false, ◌&&◌, none, some,
  [], ◌∷◌, ◌++◌, inl, inr, arith, ltb, ◌==◌, Bytes, length, has_char, Bool-cases,
}
use beak.Prelude.Decimal.{number, all_digits, is_digit}
use beak.Text.Hex.{hex_digit, char2int, char2int-hex_digit, is_hex, chars_only}
use beak.Tar.FileName.{hex_number}
use beak.Tar.FileName.Printing.{pad, hex_loop, to_hexadecimal}

unfoldable pub all_hex : Bytes → Bool
all_hex [] = true
all_hex (c ∷ s) = is_hex c && all_hex s

-- Digits do not hold a character that is none.
pub free_of_digits :
    (s : Bytes) (c : ℕ) → all_digits s ≡ true → is_digit c ≡ false → has_char s c ≡ false
unfolding all_digits has_char is_digit
free_of_digits [] c h k = refl
free_of_digits (x ∷ s) c h k = ground (arith, free_of_digits s c)

pub free_of_hex : (s : Bytes) (c : ℕ) → all_hex s ≡ true → is_hex c ≡ false → has_char s c ≡ false
unfolding all_hex has_char
free_of_hex [] c h k = refl
free_of_hex (x ∷ s) c h k = elim (Bool-cases (x == c)) [
  | inl e ↦
      let same : x ≡ c = ground arith in let good : is_hex x ≡ true = ground arith in absurd (cc)
  | inr e ↦ rw e (free_of_hex s c (ground arith) k)
]

pub free-append :
    (s t : Bytes) (c : ℕ)
    → has_char s c ≡ false
    → has_char t c ≡ false
    → has_char (s ++ t) c ≡ false
unfolding has_char
free-append [] t c h k = k
free-append (x ∷ s) t c h k = ground (arith, free-append s t c)

hex_digit-is_hex : (n : ℕ) → n < 16 → is_hex (hex_digit n) ≡ true
unfolding is_hex is_digit hex_digit
hex_digit-is_hex n h = ground arith

pub hex_number-append :
    (acc : ℕ) (s t : Bytes) → hex_number acc (s ++ t) ≡ hex_number (hex_number acc s) t
unfolding hex_number
hex_number-append acc [] t = refl
hex_number-append acc (c ∷ s) t =
    hex_number-append (elim (char2int c) [ none ↦ acc | some d ↦ acc * 16 + d ]) s t

all_hex-append : (s t : Bytes) → all_hex s ≡ true → all_hex t ≡ true → all_hex (s ++ t) ≡ true
unfolding all_hex
all_hex-append [] t h k = k
all_hex-append (c ∷ s) t h k = ground (arith, all_hex-append s t)

hex_number_digit : (acc n : ℕ) → n < 16 → hex_number acc (hex_digit n ∷ []) ≡ acc * 16 + n
unfolding hex_number
hex_number_digit acc n h = rw (char2int-hex_digit n h, hex_number) refl

hex_number-hex_loop : (fuel n : ℕ) → n < fuel → hex_number 0 (hex_loop fuel n) ≡ n
unfolding hex_loop
hex_number-hex_loop zero n h = absurd (omega arith)
hex_number-hex_loop (suc fuel) n h = elim (Bool-cases (ltb n 16)) [
  | inl e ↦ rw e (hex_number_digit 0 n (ground arith) ∙ omega arith)
  | inr e ↦
      let big : 16 ≤ n = ground arith in
      let ih = hex_number-hex_loop fuel (n / 16) (omega (arith, h, big)) in
      rw (e, hex_number-append 0 (hex_loop fuel (n / 16)) (hex_digit (n % 16) ∷ []), ih)
        (hex_number_digit (n / 16) (n % 16) (omega arith) ∙ omega arith)
]

hex_loop-hex : (fuel n : ℕ) → all_hex (hex_loop fuel n) ≡ true
unfolding all_hex hex_loop
hex_loop-hex zero n = refl
hex_loop-hex (suc fuel) n = elim (Bool-cases (ltb n 16)) [
  | inl e ↦ rw (e, hex_digit-is_hex n (ground arith)) refl
  | inr e ↦
      let last : all_hex (hex_digit (n % 16) ∷ []) ≡ true =
        rw (hex_digit-is_hex (n % 16) (omega arith)) refl in
      rw e (
        all_hex-append (hex_loop fuel (n / 16)) (hex_digit (n % 16) ∷ [])
          (hex_loop-hex fuel (n / 16)) last)
]

pub hex_number-to_hexadecimal : (n : ℕ) → hex_number 0 (to_hexadecimal n) ≡ n
unfolding to_hexadecimal
hex_number-to_hexadecimal n = hex_number-hex_loop (suc n) n (omega arith)

pub to_hexadecimal-hex : (n : ℕ) → all_hex (to_hexadecimal n) ≡ true
unfolding to_hexadecimal
to_hexadecimal-hex n = hex_loop-hex (suc n) n

-- Zeros before a number change neither its value nor that it is one.
pub number-pad : (n : ℕ) (s : Bytes) → number 0 (pad n s) ≡ number 0 s
unfolding number pad
number-pad zero s = refl
number-pad (suc n) s = elim (Bool-cases (ltb (length s) (suc n))) [
  | inl e ↦ rw e (number-pad n s)
  | inr e ↦ rw e refl
]

pub pad-digits : (n : ℕ) (s : Bytes) → all_digits s ≡ true → all_digits (pad n s) ≡ true
unfolding all_digits pad is_digit
pad-digits zero s h = h
pad-digits (suc n) s h = elim (Bool-cases (ltb (length s) (suc n))) [
  | inl e ↦ rw e (pad-digits n s h)
  | inr e ↦ rw e h
]

pub hex_number-pad : (n : ℕ) (s : Bytes) → hex_number 0 (pad n s) ≡ hex_number 0 s
unfolding hex_number pad char2int
hex_number-pad zero s = refl
hex_number-pad (suc n) s = elim (Bool-cases (ltb (length s) (suc n))) [
  | inl e ↦ rw e (hex_number-pad n s)
  | inr e ↦ rw e refl
]

pub pad-hex : (n : ℕ) (s : Bytes) → all_hex s ≡ true → all_hex (pad n s) ≡ true
unfolding all_hex pad is_hex is_digit
pad-hex zero s h = h
pad-hex (suc n) s h = elim (Bool-cases (ltb (length s) (suc n))) [
  | inl e ↦ rw e (pad-hex n s h)
  | inr e ↦ rw e h
]

pub length-pad : (n : ℕ) (s : Bytes) → length s ≤ n → length (pad n s) ≡ n
unfolding pad
length-pad zero s h = omega (arith, h)
length-pad (suc n) s h = elim (Bool-cases (ltb (length s) (suc n))) [
  | inl e ↦ rw e (omega (arith, length-pad n s (ground arith)))
  | inr e ↦ rw e (ground arith)
]

-- The scanners of digits take all of a text of digits, and stop where they are told.
pub chars_only-digits :
    (s t : Bytes) → all_digits s ≡ true → chars_only is_digit (length s) (s ++ t) ≡ some s
unfolding chars_only all_digits is_digit
chars_only-digits [] t h = refl
chars_only-digits (c ∷ s) t h =
    let good : is_digit c ≡ true = ground arith in
    let plain : (c == 0) ≡ false = ground arith in
    let more : all_digits s ≡ true = ground arith in
    rw (plain, good, chars_only-digits s t more) refl

hex_not_zero : (c : ℕ) → is_hex c ≡ true → (c == 0) ≡ false
unfolding is_hex is_digit
hex_not_zero c good = ground arith

pub chars_only-hex : (s : Bytes) → all_hex s ≡ true → chars_only is_hex (length s) s ≡ some s
unfolding chars_only all_hex
chars_only-hex [] h = refl
chars_only-hex (c ∷ s) h =
    let good : is_hex c ≡ true = ground arith in
    let plain : (c == 0) ≡ false = hex_not_zero c good in
    rw (plain, good, chars_only-hex s (ground arith)) refl
