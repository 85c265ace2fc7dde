-- ===== src/Index/Loading/Scan.antt =====
-- What src/index.cc uses of sscanf: "%d", "%zu" and "%64s", each behind a text. `none` is a result
-- other than 1.
use beak.Prelude.{
  ℕ, zero, suc, ◌-◌, ◌%◌, Bool, false, ◌||◌, ◌&&◌, Option, none, some, [], ◌∷◌, leb, ◌==◌,
  if◌then◌else◌, ◌>>=◌, Bytes, length, strip_prefix,
}
use beak.Prelude.Words.{u64_mod}
use beak.Prelude.Decimal.{is_digit}
use beak.Index.Rows.Eaten.{skip_space, leading, atoi}

unfoldable pub has_number : Bytes → Bool
unfolding is_digit
has_number [] = false
has_number (c ∷ s) =
    if c == b'-' || c == b'+' then (elim s [ [] ↦ false | (d ∷ t) ↦ is_digit d ]) else is_digit c

unfoldable pub scan_int : Bytes → Option ℕ
unfolding has_number skip_space atoi
scan_int s = if has_number (skip_space s) then some (atoi s) else none

-- strtoul: a number that does not fit is the largest one.
unfoldable pub unsigned_number : Bytes → ℕ
unfolding leading
unsigned_number [] = 0
unsigned_number (c ∷ s) =
    let n = leading 0 (if c == b'-' || c == b'+' then s else c ∷ s) in
    if leb u64_mod n then u64_mod - 1 else if c == b'-' then (u64_mod - n) % u64_mod else n

unfoldable pub scan_size : Bytes → Option ℕ
unfolding has_number skip_space unsigned_number
scan_size s = if has_number (skip_space s) then some (unsigned_number (skip_space s)) else none

-- The text, and "%d" behind it.
unfoldable pub scan_counted : Bytes → Bytes → Option ℕ
unfolding strip_prefix scan_int
scan_counted prefix s = strip_prefix prefix s >>= scan_int

unfoldable pub is_space : ℕ → Bool
is_space c = c == b' ' || leb 9 c && leb c 13

unfoldable pub word : ℕ → Bytes → Bytes
unfolding is_space
word zero s = []
word (suc n) [] = []
word (suc n) (c ∷ s) = if is_space c then [] else c ∷ word n s

-- The text, and a word of at most 64 characters behind it.
unfoldable pub scan_word : Bytes → Bytes → Option Bytes
unfolding strip_prefix skip_space word
scan_word prefix s = strip_prefix prefix s >>= λ r.
    let w = word 64 (skip_space r) in if length w == 0 then none else some w
