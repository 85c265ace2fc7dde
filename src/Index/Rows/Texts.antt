-- ===== src/Index/Rows/Texts.antt =====
-- src/tarentry.cc: the texts that cookEntry writes for sizes and times.
use beak.Prelude.{
  ℕ, ◌^◌, ◌≤◌, ◌<◌, ◌≡◌, refl, true, false, [], ◌∷◌, ◌++◌, inl, inr, ◌⊎◌, arith, Bytes, codes,
  length, length-append, has_char, Bool-cases,
}
use beak.Prelude.Decimal.{to_decimal, digits_loop, is_digit, length-to_decimal, to_decimal-digits}
use beak.Text.Eating.{is_end}
use beak.Tar.FileName.Printing.{pad}
use beak.Tar.FileName.Numbers.{free-append, free_of_digits, pad-digits, length-pad}
use beak.Index.Permissions.{is_kind, s_ifreg}
use beak.Index.Rows.{RowEntry, size_text, time_text, is_device}
use beak.Index.Rows.Columns.{take_short, decimal-free}

pub digit_zero : is_digit 0 ≡ false
unfolding is_digit
digit_zero = refl

pub digit_slash : is_digit b'/' ≡ false
unfolding is_digit
digit_slash = refl

pub digit_comma : is_digit b',' ≡ false
unfolding is_digit
digit_comma = refl

pub digit_dot : is_digit b'.' ≡ false
unfolding is_digit
digit_dot = refl

pub reg_plain : (mode : ℕ) → is_kind s_ifreg mode ≡ true → is_device mode ≡ false
unfolding is_kind is_device
reg_plain mode h = ground arith

-- The three texts of the size column.
pub size_cases :
    (e : RowEntry)
    → ((is_kind s_ifreg e.st_mode ≡ true)
        × (is_device e.st_mode ≡ false)
        × (size_text e ≡ to_decimal e.st_size))
      ⊎ (((is_kind s_ifreg e.st_mode ≡ false)
            × (is_device e.st_mode ≡ true)
            × (size_text e ≡ to_decimal e.st_rdev.0 ++ b',' ∷ to_decimal e.st_rdev.1))
          ⊎ ((is_kind s_ifreg e.st_mode ≡ false)
              × (is_device e.st_mode ≡ false)
              × (size_text e ≡ to_decimal 0)))
unfolding size_text to_decimal digits_loop
size_cases e = elim (Bool-cases (is_kind s_ifreg e.st_mode)) [
  | inl reg ↦ inl (reg, reg_plain e.st_mode reg, rw reg refl)
  | inr reg ↦ elim (Bool-cases (is_device e.st_mode)) [
    | inl device ↦ inr (inl (reg, device, rw (reg, device) refl))
    | inr device ↦ inr (inr (reg, device, rw (reg, device) zero_text))
  ]
]
  where
    zero_text : codes "0" ≡ to_decimal 0
    zero_text = refl

abbrev pub nanos : RowEntry → Bytes
nanos e = pad 9 (to_decimal e.mtim_nsec)

abbrev pub clock : RowEntry → Bytes
clock e = to_decimal e.mtim_sec ++ b'.' ∷ nanos e

pub length-nanos : (e : RowEntry) → e.mtim_nsec < 10 ^ 9 → length (nanos e) ≡ 9
length-nanos e h =
    length-pad 9 (to_decimal e.mtim_nsec) (length-to_decimal e.mtim_nsec 8 (omega (arith, h)))

pub nanos_more : (e : RowEntry) → e.mtim_nsec < 10 ^ 9 → is_end (nanos e) ≡ false
unfolding is_end
nanos_more e h = nonempty (nanos e) (omega (arith, length-nanos e h))
  where
    nonempty : (s : Bytes) → 0 < length s → is_end s ≡ false
    nonempty [] h = absurd (omega arith)
    nonempty (c ∷ s) h = refl

pub clock-free : (e : RowEntry) → has_char (clock e) 0 ≡ false
unfolding has_char
clock-free e =
    free-append (to_decimal e.mtim_sec) (b'.' ∷ nanos e) 0 (decimal-free e.mtim_sec 0 digit_zero) (
      free_of_digits (nanos e) 0
        (pad-digits 9 (to_decimal e.mtim_nsec) (to_decimal-digits e.mtim_nsec)) digit_zero)

pub length-clock :
    (e : RowEntry) → e.mtim_sec < 2 ^ 63 → e.mtim_nsec < 10 ^ 9 → length (clock e) ≤ 29
length-clock e hs hn = omega (
  arith,
  length-append (to_decimal e.mtim_sec) (b'.' ∷ nanos e),
  length-nanos e hn,
  length-to_decimal e.mtim_sec 18 (omega (arith, hs)),
)

pub time_text-clock :
    (e : RowEntry) → e.mtim_sec < 2 ^ 63 → e.mtim_nsec < 10 ^ 9 → time_text e ≡ clock e
unfolding time_text
time_text-clock e hs hn = take_short 31 (clock e) (omega (arith, length-clock e hs hn))
