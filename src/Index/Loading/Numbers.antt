-- ===== src/Index/Loading/Numbers.antt =====
-- src/index.cc: the counts and the checksum that are read with sscanf, as they are written.
use beak.Prelude.{
  ℕ, zero, suc, ◌+◌, ◌-◌, ◌*◌, ◌/◌, ◌%◌, ◌^◌, ◌≤◌, ◌<◌, ◌≡◌, refl, ap, ◌∙◌, min, Bool, true, false,
  not, ◌&&◌, ◌||◌, some, [], ◌∷◌, ◌++◌, inl, inr, arith, ltb, leb, ◌==◌, Bytes, codes, length,
  strip_prefix, Bool-cases,
}
use beak.Prelude.Words.{u32, u64_mod}
use beak.Prelude.Decimal.{
  to_decimal, number, all_digits, is_digit, number-to_decimal, to_decimal-digits,
  to_decimal-nonempty,
}
use beak.Text.Hex.{to_hex, hex_digit}
use beak.Tar.FileName.{long_max}
use beak.Index.Rows.Columns.{length-to_hex}
use beak.Index.Rows.Eaten.{skip_space, leading, signed_number, atol, atoi}
use beak.Index.Loading.Scan.{
  has_number, scan_int, unsigned_number, scan_size, is_space, word, scan_word,
}

pub leading-append :
    (acc : ℕ) (s : Bytes) (c : ℕ) (t : Bytes)
    → all_digits s ≡ true
    → is_digit c ≡ false
    → leading acc (s ++ c ∷ t) ≡ number acc s
unfolding leading number all_digits
leading-append acc [] c t h k = rw k refl
leading-append acc (d ∷ s) c t h k =
    let good : is_digit d ≡ true = ground arith in
    rw good (leading-append (acc * 10 + (d - b'0')) s c t (ground arith) k)

leading-digits : (acc : ℕ) (s : Bytes) → all_digits s ≡ true → leading acc s ≡ number acc s
unfolding leading number all_digits
leading-digits acc [] h = refl
leading-digits acc (d ∷ s) h =
    let good : is_digit d ≡ true = ground arith in
    rw good (leading-digits (acc * 10 + (d - b'0')) s (ground arith))

-- A text of digits, behind a blank and in front of something else.
scan_digits :
    (s : Bytes) (c : ℕ) (t : Bytes)
    → all_digits s ≡ true
    → 0 < length s
    → is_digit c ≡ false
    → number 0 s < 2 ^ 32
    → scan_int (b' ' ∷ (s ++ c ∷ t)) ≡ some (number 0 s)
unfolding scan_int has_number skip_space atoi atol signed_number u32 all_digits is_digit
scan_digits [] c t h k other fits = absurd (omega arith)
scan_digits (d ∷ s) c t h k other fits =
    let space : (d == b' ' || leb 9 d && leb d 13) ≡ false = ground arith in
    let minus : (d == b'-') ≡ false = ground arith in
    let plus : (d == b'+') ≡ false = ground arith in
    let digit : (leb b'0' d && leb d b'9') ≡ true = ground arith in
    let small : min (number 0 (d ∷ s)) long_max ≡ number 0 (d ∷ s) = omega (arith, fits) in
    rw (space, minus, plus, leading-append 0 (d ∷ s) c t h other, digit, small)
      (ap some (omega (arith, fits)))

pub scan_int-to_decimal :
    (n c : ℕ) (t : Bytes)
    → n < 2 ^ 32
    → is_digit c ≡ false
    → scan_int (b' ' ∷ (to_decimal n ++ c ∷ t)) ≡ some n
scan_int-to_decimal n c t fits other =
    let e = number-to_decimal n in
    scan_digits (to_decimal n) c t (to_decimal-digits n) (to_decimal-nonempty n) other
      (omega (arith, e, fits))
    ∙ ap some e

size_digits :
    (s : Bytes)
    → all_digits s ≡ true
    → 0 < length s
    → number 0 s < u64_mod
    → scan_size (b' ' ∷ s) ≡ some (number 0 s)
unfolding scan_size has_number skip_space unsigned_number all_digits is_digit
size_digits [] h k fits = absurd (omega arith)
size_digits (d ∷ s) h k fits =
    let space : (d == b' ' || leb 9 d && leb d 13) ≡ false = ground arith in
    let minus : (d == b'-') ≡ false = ground arith in
    let plus : (d == b'+') ≡ false = ground arith in
    let digit : (leb b'0' d && leb d b'9') ≡ true = ground arith in
    let small : leb u64_mod (number 0 (d ∷ s)) ≡ false = ground (arith, fits) in
    rw (space, minus, plus, leading-digits 0 (d ∷ s) h, digit, small) refl

pub scan_size-to_decimal : (n : ℕ) → n < u64_mod → scan_size (b' ' ∷ to_decimal n) ≡ some n
scan_size-to_decimal n fits =
    let e = number-to_decimal n in
    size_digits (to_decimal n) (to_decimal-digits n) (to_decimal-nonempty n)
      (omega (arith, e, fits))
    ∙ ap some e

-- No character ends a word.
unfoldable is_solid : Bytes → Bool
is_solid [] = true
is_solid (c ∷ s) = not (is_space c) && is_solid s

word-solid : (s : Bytes) (n : ℕ) → is_solid s ≡ true → length s ≤ n → word n (s ++ codes "\n") ≡ s
unfolding word is_solid is_space
word-solid [] zero h k = refl
word-solid [] (suc n) h k = refl
word-solid (c ∷ s) zero h k = absurd (omega arith)
word-solid (c ∷ s) (suc n) h k =
    let e : (c == b' ' || leb 9 c && leb c 13) ≡ false = ground arith in
    rw (e, word-solid s n (ground arith) (omega arith)) refl

skip-solid : (s t : Bytes) → is_solid s ≡ true → 0 < length s → skip_space (s ++ t) ≡ s ++ t
unfolding skip_space is_solid is_space
skip-solid [] t h k = absurd (omega arith)
skip-solid (c ∷ s) t h k =
    let e : (c == b' ' || leb 9 c && leb c 13) ≡ false = ground arith in rw e refl

hex_digit-solid : (n : ℕ) → is_space (hex_digit n) ≡ false
unfolding is_space hex_digit
hex_digit-solid n = elim (Bool-cases (ltb n 10)) [
  | inl e ↦ rw e (ground arith)
  | inr e ↦ rw e (ground arith)
]

to_hex-solid : (s : Bytes) → is_solid (to_hex s) ≡ true
unfolding to_hex is_solid
to_hex-solid [] = refl
to_hex-solid (b ∷ s) =
    rw (hex_digit-solid (b % 256 / 16), hex_digit-solid (b % 16), to_hex-solid s) refl

blank_skipped : (s : Bytes) → skip_space (b' ' ∷ s) ≡ skip_space s
unfolding skip_space
blank_skipped s = refl

positive_test : (n : ℕ) → 0 < n → (n == 0) ≡ false
positive_test n h = ground arith

word_behind :
    (s : Bytes)
    → is_solid s ≡ true
    → 0 < length s
    → length s ≤ 64
    → scan_word (codes "#end") (codes "#end " ++ (s ++ codes "\n")) ≡ some s
unfolding scan_word strip_prefix
word_behind s h k l =
    let e : word 64 (skip_space (b' ' ∷ (s ++ codes "\n"))) ≡ s =
      ap (word 64) (blank_skipped (s ++ codes "\n") ∙ skip-solid s (codes "\n") h k)
      ∙ word-solid s 64 h l in
    let some_char : (length s == 0) ≡ false = positive_test (length s) k in rw (e, some_char) refl

pub scan_word-to_hex :
    (s : Bytes)
    → 0 < length s
    → length s ≤ 32
    → scan_word (codes "#end") (codes "#end " ++ (to_hex s ++ codes "\n")) ≡ some (to_hex s)
scan_word-to_hex s h k =
    let e = length-to_hex s in
    word_behind (to_hex s) (to_hex-solid s) (omega (arith, e, h)) (omega (arith, e, k))
