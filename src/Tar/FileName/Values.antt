-- ===== src/Tar/FileName/Values.antt =====
-- src/tarfile.cc: the values that come back from the texts of the fields, the characters that dates
-- do not hold, and a full buffer.
use beak.Prelude.{
  ℕ, zero, suc, ◌/◌, ◌^◌, ◌≤◌, ◌<◌, ◌≡◌, refl, ap, true, false, [], ◌∷◌, ◌++◌, ◌⊎◌, inl, inr, arith,
  ◌==◌, Bytes, length, take, has_char, Bool-cases,
}
use beak.Prelude.Decimal.{to_decimal, is_digit, number-to_decimal, to_decimal-digits}
use beak.Tar.Split.{
  TarContents, index_file, dir_tar, small_files_tar, medium_files_tar, single_large_file_tar,
  split_large_file_tar, content_split_large_file_tar,
}
use beak.Tar.FileName.{chartype, suffixtype, atol, strtol}
use beak.Tar.FileName.Printing.{pad, to_hexadecimal, width_loop, two, Tm, strftime}
use beak.Tar.FileName.Numbers.{
  free_of_digits, free-append, hex_number-to_hexadecimal, number-pad, hex_number-pad,
}

-- Neither a digit nor a character of a date.
abbrev pub IsOther : ℕ → Type 0
IsOther c = (is_digit c ≡ false) × ((b'.' == c) ≡ false) × ((b'-' == c) ≡ false)

pub two-free : (n c : ℕ) → is_digit c ≡ false → has_char (two n) c ≡ false
unfolding has_char is_digit
two-free n c h = ground arith

pub step-free :
    (x : ℕ) (s : Bytes) (c : ℕ)
    → (x == c) ≡ false
    → has_char s c ≡ false
    → has_char (x ∷ s) c ≡ false
unfolding has_char
step-free x s c h k = rw h k

pub strftime-free : (tm : Tm) (c : ℕ) → IsOther c → has_char (strftime tm) c ≡ false
unfolding strftime
strftime-free tm c (digit, dot, dash) =
    let year_free = free_of_digits (to_decimal tm.year) c (to_decimal-digits tm.year) digit in
    let time_free = free-append (two tm.hour) _ c (two-free tm.hour c digit) (
      free-append (two tm.minute) (two tm.second) c (two-free tm.minute c digit)
        (two-free tm.second c digit)) in
    let day_free =
      free-append (two tm.day) _ c (two-free tm.day c digit) (step-free b'.' _ c dot time_free) in
    let month_free =
      free-append (two tm.month) _ c (two-free tm.month c digit)
        (step-free b'-' _ c dash day_free) in
    step-free b'.' _ c dot
      (free-append (to_decimal tm.year) _ c year_free (step-free b'-' _ c dash month_free))

pub strftime-nonempty : (tm : Tm) → 0 < length (strftime tm)
unfolding strftime
strftime-nonempty tm = omega arith

pub atol_decimal : (n : ℕ) → n < 2 ^ 63 → atol (to_decimal n) ≡ n
unfolding atol
atol_decimal n h = rw (number-to_decimal n) (ground arith)

pub atol_padded : (k n : ℕ) → n < 2 ^ 63 → atol (pad k (to_decimal n)) ≡ n
unfolding atol
atol_padded k n h = rw (number-pad k (to_decimal n), number-to_decimal n) (ground arith)

pub strtol_hex : (n : ℕ) → n < 2 ^ 63 → strtol (to_hexadecimal n) ≡ n
unfolding strtol
strtol_hex n h = rw (hex_number-to_hexadecimal n) (ground arith)

pub strtol_padded : (k n : ℕ) → n < 2 ^ 63 → strtol (pad k (to_hexadecimal n)) ≡ n
unfolding strtol
strtol_padded k n h =
    rw (hex_number-pad k (to_hexadecimal n), hex_number-to_hexadecimal n) (ground arith)

pub width_loop_below : (fuel k n : ℕ) → n < 16 ^ k → width_loop fuel n ≤ k
unfolding width_loop
width_loop_below zero k n h = omega arith
width_loop_below (suc fuel) zero n h =
    let none_left : (n == 0) ≡ true = ground arith in rw none_left (omega arith)
width_loop_below (suc fuel) (suc k) n h = elim (Bool-cases (n == 0)) [
  | inl e ↦ rw e (omega arith)
  | inr e ↦
      let less : n / 16 < 16 ^ k = grind arith in
      rw e (omega (arith, width_loop_below fuel k (n / 16) less))
]

pub underscore : IsOther b'_'
unfolding is_digit
underscore = (refl, refl, refl)

pub slash : IsOther b'/'
unfolding is_digit
slash = (refl, refl, refl)

pub chartype-plain : (c : TarContents) → (chartype c == b'/') ≡ false
unfolding chartype
chartype-plain index_file = refl
chartype-plain dir_tar = refl
chartype-plain small_files_tar = refl
chartype-plain medium_files_tar = refl
chartype-plain single_large_file_tar = refl
chartype-plain split_large_file_tar = refl
chartype-plain content_split_large_file_tar = refl

pub suffix-plain : (c : TarContents) → has_char (suffixtype c) b'/' ≡ false
unfolding suffixtype has_char
suffix-plain index_file = refl
suffix-plain dir_tar = refl
suffix-plain small_files_tar = refl
suffix-plain medium_files_tar = refl
suffix-plain single_large_file_tar = refl
suffix-plain split_large_file_tar = refl
suffix-plain content_split_large_file_tar = refl

-- What is left of a text in a buffer of n characters: all of it, or the buffer is full.
pub take_cases : (n : ℕ) (s : Bytes) → (n ≤ length (take n s)) ⊎ (take n s ≡ s)
take_cases zero s = inl (omega arith)
take_cases (suc n) [] = inr refl
take_cases (suc n) (c ∷ s) = elim (take_cases n s) [
  | inl h ↦ inl (omega (arith, h))
  | inr e ↦ inr (ap (◌∷◌ c) e)
]

pub append_snoc : (s t : Bytes) (x : ℕ) → s ++ x ∷ t ≡ (s ++ x ∷ []) ++ t
append_snoc [] t x = refl
append_snoc (c ∷ s) t x = ap (◌∷◌ c) (append_snoc s t x)
