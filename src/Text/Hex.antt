-- ===== src/Text/Hex.antt =====
-- src/util.cc: bytes as hexadecimal digits, and back. A char is a number below 256.
use beak.Prelude.{
  ℕ, zero, suc, not, ◌+◌, ◌-◌, ◌*◌, ◌/◌, ◌%◌, ◌<◌, ◌≡◌, refl, Bool, true, false, ◌&&◌, ◌||◌, Option,
  none, some, [], ◌∷◌, arith, ltb, leb, ◌==◌, if◌then◌else◌, ◌>>=◌, Bytes, All, ap, ◌∙◌,
}
use beak.Prelude.Decimal.{is_digit}

unfoldable pub hex_digit : ℕ → ℕ
hex_digit n = if ltb n 10 then b'0' + n else (b'a' - 10) + n

-- "%02x".
unfoldable pub to_hex : Bytes → Bytes
unfolding hex_digit
to_hex [] = []
to_hex (b ∷ s) = hex_digit (b % 256 / 16) ∷ hex_digit (b % 16) ∷ to_hex s

-- `none` is the code's -1.
unfoldable pub char2int : ℕ → Option ℕ
char2int input =
    if leb b'0' input && leb input b'9'
    then some (input - b'0')
    else if leb b'A' input && leb input b'F'
    then some (input - b'A' + 10)
    else if leb b'a' input && leb input b'f'
    then some (input - b'a' + 10)
    else none

-- The loop up to the zero that ends a C string. `none` is the code's false.
unfoldable pub hex2bin : Bytes → Option Bytes
unfolding char2int
hex2bin [] = some []
hex2bin (c ∷ []) = some []
hex2bin (c ∷ d ∷ s) = elim (c == 0 || d == 0) [
  | true ↦ some []
  | false ↦ elim (c == b' ') [
    | true ↦ hex2bin (d ∷ s)
    | false ↦ do a ← char2int c; b ← char2int d; rest ← hex2bin s; some ((a * 16 + b) % 256 ∷ rest)
  ]
]

unfoldable pub is_hex : ℕ → Bool
unfolding is_digit
is_hex c = is_digit c || (leb b'A' c && leb c b'F' || leb b'a' c && leb c b'f')

-- digitsOnly, digitsDotsAndMinusOnly and hexDigitsOnly of the first `len` characters: the
-- characters, or `none` for the code's false.
unfoldable pub chars_only : (ℕ → Bool) → ℕ → Bytes → Option Bytes
chars_only good zero p = some []
chars_only good (suc len) [] = none
chars_only good (suc len) (c ∷ p) =
    let rest = chars_only good len p in
    if c == 0 || not (good c) then none else (rest >>= λ s. some (c ∷ s))

unfoldable pub digits_only : ℕ → Bytes → Option Bytes
unfolding chars_only is_digit
digits_only = chars_only is_digit

unfoldable pub digits_dots_and_minus_only : ℕ → Bytes → Option Bytes
unfolding chars_only is_digit
digits_dots_and_minus_only = chars_only (λ c. is_digit c || (c == b'.' || c == b'-'))

unfoldable pub hex_digits_only : ℕ → Bytes → Option Bytes
unfolding chars_only is_hex
hex_digits_only = chars_only is_hex

pub char2int-hex_digit : (n : ℕ) → n < 16 → char2int (hex_digit n) ≡ some n
unfolding char2int hex_digit
char2int-hex_digit n h = ground arith

hex_digit_plain : (n : ℕ) → n < 16 → ((hex_digit n == 0) ≡ false) × ((hex_digit n == b' ') ≡ false)
unfolding hex_digit
hex_digit_plain n h = ground arith

hex2bin_step :
    (c d a b : ℕ) (s r : Bytes)
    → (c == 0) ≡ false
    → (d == 0) ≡ false
    → (c == b' ') ≡ false
    → char2int c ≡ some a
    → char2int d ≡ some b
    → hex2bin s ≡ some r
    → hex2bin (c ∷ d ∷ s) ≡ some ((a * 16 + b) % 256 ∷ r)
unfolding hex2bin
hex2bin_step c d a b s r c0 d0 blank ca db sr = rw (c0, d0, blank, ca, db, sr, hex2bin) refl

-- hex2bin reads back what toHex writes, for any bytes.
pub hex2bin-to_hex : (s : Bytes) → All (λ b. b < 256) s → hex2bin (to_hex s) ≡ some s
unfolding hex2bin to_hex
hex2bin-to_hex [] h = refl
hex2bin-to_hex (b ∷ s) h =
    let hi : b % 256 / 16 < 16 = omega arith in
    let lo : b % 16 < 16 = omega arith in
    let p = hex_digit_plain (b % 256 / 16) hi in
    let q = hex_digit_plain (b % 16) lo in
    let whole : (b % 256 / 16 * 16 + b % 16) % 256 ≡ b = omega (arith, h.0) in
    hex2bin_step (hex_digit (b % 256 / 16)) (hex_digit (b % 16)) (b % 256 / 16) (b % 16) (to_hex s)
      s p.0 q.0 p.1 (char2int-hex_digit (b % 256 / 16) hi) (char2int-hex_digit (b % 16) lo)
      (hex2bin-to_hex s h.1)
    ∙ ap (λ n. some (n ∷ s)) whole
