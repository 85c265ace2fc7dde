-- ===== src/Config/Sizes.antt =====
-- src/util.cc: parseHumanReadable. The product of a fraction is taken in floating point, and is a
-- parameter: of the factor and the digits. `none` is RC::ERR, or back() of an empty string.
use beak.Prelude.{
  ℕ, ◌*◌, Bool, true, false, not, ◌&&◌, ◌||◌, Option, none, some, [], ◌∷◌, ltb, ◌==◌, if◌then◌else◌,
  ◌>>=◌, ◌>>◌, guard, Bytes, codes, length, has_char, equal,
}
use beak.Prelude.Words.{mul64}
use beak.Prelude.Decimal.{is_digit}
use beak.Index.Rows.Eaten.{atol}

unfoldable pub drop_blanks : Bytes → Bytes
drop_blanks [] = []
drop_blanks (c ∷ s) = if c == b' ' then drop_blanks s else c ∷ s

unfoldable pub without_blanks : Bytes → Bytes
without_blanks [] = []
without_blanks (c ∷ s) = let rest = without_blanks s in if c == b' ' then rest else c ∷ rest

-- The text up to its last digit, and what follows it without the blanks.
unfoldable pub cut_suffix : Bytes → Option (Bytes × Bytes)
unfolding is_digit without_blanks
cut_suffix [] = none
cut_suffix (c ∷ s) = elim (cut_suffix s) [
  | some r ↦ some (c ∷ r.0, r.1)
  | none ↦ if is_digit c then some (c ∷ [], without_blanks s) else none
]

unfoldable pub unit_factor : Bytes → ℕ
unfolding equal
unit_factor suffix =
    if equal suffix (codes "K") || equal suffix (codes "KiB")
    then 1024
    else if equal suffix (codes "M") || equal suffix (codes "MiB")
    then 1024 * 1024
    else if equal suffix (codes "G") || equal suffix (codes "GiB")
    then 1024 * 1024 * 1024
    else if equal suffix (codes "T") || equal suffix (codes "TiB")
    then 1024 * 1024 * 1024 * 1024
    else 1

-- Digits with at most one dot, behind a digit: the two flags.
unfoldable pub is_decimal : Bool → Bool → Bytes → Bool
unfolding is_digit
is_decimal digit dot [] = true
is_decimal digit dot (c ∷ s) =
    let rest = is_decimal (digit || is_digit c) (dot || not (is_digit c)) s in
    if is_digit c then rest else if c == b'.' && (digit && not dot) then rest else false

unfoldable pub parse_human_readable : (ℕ → Bytes → ℕ) → Bytes → Option ℕ
unfolding drop_blanks cut_suffix unit_factor is_decimal has_char atol mul64
parse_human_readable scaled s = cut_suffix (drop_blanks s) >>= λ r.
    guard (not (ltb 256 (length r.0)))
    >> (guard (is_decimal false false r.0)
        >> (let mul = unit_factor r.1 in
            some (if has_char r.0 b'.' then scaled mul r.0 else mul64 mul (atol r.0))))
