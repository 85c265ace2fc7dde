-- ===== src/Index/Rows/Columns.antt =====
-- src/tarentry.cc: reading one column of a row, and the numbers and pairs in the columns.
use beak.Prelude.{
  ℕ, zero, suc, ◌+◌, ◌-◌, ◌*◌, ◌^◌, ◌≤◌, ◌<◌, ◌≡◌, refl, ap, ◌∙◌, min, true, false, ◌&&◌, ◌||◌,
  none, List, [], ◌∷◌, ◌++◌, inl, inr, arith, ltb, leb, ◌==◌, Bytes, take, length, has_char,
  Bool-cases,
}
use beak.Prelude.Words.{u32}
use beak.Prelude.Decimal.{
  to_decimal, number, all_digits, is_digit, number-to_decimal, to_decimal-digits,
  to_decimal-nonempty,
}
use beak.Text.Eating.{Eaten, eat_to, is_end, eat_loop, stops, step_over, missed, eat_to-append}
use beak.Text.Hex.{to_hex, hex_digit}
use beak.Tar.FileName.{long_max}
use beak.Tar.FileName.Printing.{pad}
use beak.Tar.FileName.Numbers.{number-pad, pad-digits, free_of_digits, free-append}
use beak.Tar.FileName.Fields.{field-append}
use beak.Index.Rows.{columns}
use beak.Index.Rows.Eaten.{
  Eat, go_on, take_field, atol, atoi, leading, signed_number, skip_space, halves,
}

pub append_assoc : (s t u : Bytes) → (s ++ t) ++ u ≡ s ++ (t ++ u)
append_assoc [] t u = refl
append_assoc (c ∷ s) t u = ap (◌∷◌ c) (append_assoc s t u)

column_not_end : (c : Bytes) (v : Bytes) → is_end (c ++ 0 ∷ v) ≡ false
unfolding is_end
column_not_end [] v = refl
column_not_end (x ∷ c) v = refl

pub columns-append :
    (c : Bytes) (cs : List Bytes) (rest : Bytes)
    → columns (c ∷ cs) ++ rest ≡ c ++ 0 ∷ (columns cs ++ rest)
unfolding columns
columns-append c cs rest = append_assoc c (0 ∷ columns cs) rest

-- A field in front of its separator is taken, and what follows is read on, unless it is the end.
pub take_field-append :
    (s v : Bytes) (c max : ℕ) (next : Bytes → Bytes → Eat)
    → has_char s c ≡ false
    → length s ≤ max
    → is_end v ≡ false
    → take_field (s ++ c ∷ v) c max next ≡ next s v
unfolding take_field go_on
take_field-append s v c max next free fits more =
    ap (λ (e : Eaten). go_on e next) (eat_to-append s v c max free fits) ∙ rw more refl

pub take_column :
    (c d : Bytes) (cs : List Bytes) (rest : Bytes) (max : ℕ) (next : Bytes → Bytes → Eat)
    → has_char c 0 ≡ false
    → length c ≤ max
    → take_field (columns (c ∷ d ∷ cs) ++ rest) 0 max next ≡ next c (columns (d ∷ cs) ++ rest)
take_column c d cs rest max next free fits = rw (columns-append c (d ∷ cs) rest) (
    take_field-append c (columns (d ∷ cs) ++ rest) 0 max next free fits
      (ap is_end (columns-append d cs rest) ∙ column_not_end d (columns cs ++ rest)))

-- eatTo without a character to stop at takes what fits.
eat_loop_all : (s : Bytes) (max : ℕ) → length s ≤ max → eat_loop none max s ≡ (s, [])
unfolding eat_loop stops
eat_loop_all [] max h = refl
eat_loop_all (c ∷ s) zero h = absurd (omega arith)
eat_loop_all (c ∷ s) (suc max) h = rw (eat_loop_all s max (omega arith)) refl

pub eat_to_all :
    (s : Bytes) (max : ℕ)
    → length s ≤ max
    → eat_to s none max ≡ record { text = s; rest = []; eof = true; err = false }
unfolding eat_to step_over missed is_end
eat_to_all s max h = rw (eat_loop_all s max h) refl

leading_digits : (acc : ℕ) (s : Bytes) → all_digits s ≡ true → leading acc s ≡ number acc s
unfolding leading number all_digits
leading_digits acc [] h = refl
leading_digits acc (c ∷ s) h =
    let good : is_digit c ≡ true = ground arith in
    rw good (leading_digits (acc * 10 + (c - b'0')) s (ground arith))

atol_digits : (s : Bytes) → all_digits s ≡ true → 0 < length s → atol s ≡ min (number 0 s) long_max
unfolding atol signed_number skip_space all_digits is_digit
atol_digits [] h k = absurd (omega arith)
atol_digits (c ∷ s) h k =
    let space : (c == b' ' || leb 9 c && leb c 13) ≡ false = ground arith in
    let minus : (c == b'-') ≡ false = ground arith in
    let plus : (c == b'+') ≡ false = ground arith in
    rw (space, minus, plus, leading_digits 0 (c ∷ s) h) refl

pub atol-to_decimal : (n : ℕ) → n < 2 ^ 63 → atol (to_decimal n) ≡ n
atol-to_decimal n h =
    atol_digits (to_decimal n) (to_decimal-digits n) (to_decimal-nonempty n)
    ∙ rw (number-to_decimal n) (ground arith)

pub atoi-to_decimal : (n : ℕ) → n < 2 ^ 32 → atoi (to_decimal n) ≡ n
unfolding atoi u32
atoi-to_decimal n h = rw (atol-to_decimal n (omega arith)) (omega arith)

pad-nonempty : (k : ℕ) (s : Bytes) → 0 < length s → 0 < length (pad k s)
unfolding pad
pad-nonempty zero s h = h
pad-nonempty (suc k) s h = elim (Bool-cases (ltb (length s) (suc k))) [
  | inl e ↦ rw e (omega arith)
  | inr e ↦ rw e h
]

pub atol-pad : (k n : ℕ) → n < 2 ^ 63 → atol (pad k (to_decimal n)) ≡ n
atol-pad k n h =
    atol_digits (pad k (to_decimal n)) (pad-digits k (to_decimal n) (to_decimal-digits n))
      (pad-nonempty k (to_decimal n) (to_decimal-nonempty n))
    ∙ rw (number-pad k (to_decimal n), number-to_decimal n) (ground arith)

pub halves-append :
    (f rest : Bytes) (c : ℕ) → has_char f c ≡ false → halves c (f ++ c ∷ rest) ≡ (f, rest)
unfolding halves
halves-append f rest c h = rw (field-append f rest c h, halves) refl

pub take_short : (n : ℕ) (s : Bytes) → length s ≤ n → take n s ≡ s
take_short zero [] h = refl
take_short (suc n) [] h = refl
take_short zero (c ∷ s) h = absurd (omega arith)
take_short (suc n) (c ∷ s) h = ap (◌∷◌ c) (take_short n s (omega arith))

-- Decimal digits hold neither the separator nor punctuation.
pub decimal-free : (n c : ℕ) → is_digit c ≡ false → has_char (to_decimal n) c ≡ false
decimal-free n c h = free_of_digits (to_decimal n) c (to_decimal-digits n) h

pub decimal-pair_free :
    (n m x c : ℕ)
    → is_digit c ≡ false
    → (x == c) ≡ false
    → has_char (to_decimal n ++ x ∷ to_decimal m) c ≡ false
unfolding has_char
decimal-pair_free n m x c h k =
    free-append (to_decimal n) (x ∷ to_decimal m) c (decimal-free n c h) (rw k (decimal-free m c h))

pub length-to_hex : (s : Bytes) → length (to_hex s) ≡ length s + length s
unfolding to_hex
length-to_hex [] = omega arith
length-to_hex (b ∷ s) = omega (arith, length-to_hex s)

pub to_hex-free : (s : Bytes) → has_char (to_hex s) 0 ≡ false
unfolding to_hex has_char hex_digit
to_hex-free [] = refl
to_hex-free (b ∷ s) = ground (arith, to_hex-free s)
