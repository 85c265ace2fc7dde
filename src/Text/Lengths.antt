-- ===== src/Text/Lengths.antt =====
-- src/util.cc: lengths of time, as in the keep rules. A time_t that is not negative is a number
-- below 2 ^ 63; the product that parseLengthOfTime computes is the 64-bit word it leaves in *out.
-- `none` is the code's false, or back() of an empty string.
use beak.Prelude.{
  ℕ, suc, ◌+◌, ◌-◌, ◌*◌, ◌/◌, ◌%◌, ◌^◌, ◌≤◌, ◌<◌, ◌≡◌, refl, true, false, not, Option, none, some,
  [], ◌∷◌, ◌++◌, inl, inr, arith, ltb, leb, ◌==◌, if◌then◌else◌, ◌>>=◌, ◌>>◌, guard, Bytes, length,
  length-append, codes, at, take, equal, Bool-cases, ap, ◌∙◌,
}
use beak.Prelude.Words.{mul64, u64_mod, mul64_exact}
use beak.Prelude.Decimal.{
  to_decimal, is_digit, all_digits, number, number-to_decimal, to_decimal-digits, length-to_decimal,
  to_decimal-nonempty,
}

abbrev pub day : ℕ
day = 3600 * 24

unfoldable pub get_length_of_time : ℕ → Bytes
get_length_of_time t =
    if t % (day * 366) == 0
    then to_decimal (t / (day * 366)) ++ codes "y"
    else if t % (day * 31) == 0
    then to_decimal (t / (day * 31)) ++ codes "m"
    else if t % (day * 7) == 0
    then to_decimal (t / (day * 7)) ++ codes "w"
    else if t % day == 0
    then to_decimal (t / day) ++ codes "d"
    else []

-- The multiplier of a unit.
unfoldable pub unit_length : ℕ → Option ℕ
unit_length c =
    if c == b'd'
    then some day
    else if c == b'w'
    then some (day * 7)
    else if c == b'm'
    then some (day * 31)
    else if c == b'y'
    then some (day * 366)
    else none

unfoldable pub parse_length_of_time : Bytes → Option ℕ
unfolding unit_length all_digits number mul64
parse_length_of_time s = if equal s (codes "forever") then some (day * 366 * 500) else (do
  guard (ltb 0 (length s))
  guard (leb (length s) 16)
  mul ← unit_length (at s (length s - 1))
  guard (all_digits (take (length s - 1) s))
  let out = mul64 mul (number 0 (take (length s - 1) s))
  guard (not (out == 0))
  some out)

last_of : (d : Bytes) (u : ℕ) → at (d ++ u ∷ []) (length (d ++ u ∷ []) - 1) ≡ u
unfolding at
last_of [] u = refl
last_of (c ∷ d) u =
    let e : suc (length (d ++ u ∷ [])) - 1 ≡ suc (length (d ++ u ∷ []) - 1) =
      omega (arith, length-append d (u ∷ [])) in
    rw e (last_of d u)

all_but_last : (d : Bytes) (u : ℕ) → take (length (d ++ u ∷ []) - 1) (d ++ u ∷ []) ≡ d
all_but_last [] u = refl
all_but_last (c ∷ d) u =
    let e : suc (length (d ++ u ∷ [])) - 1 ≡ suc (length (d ++ u ∷ []) - 1) =
      omega (arith, length-append d (u ∷ [])) in
    rw e (ap (◌∷◌ c) (all_but_last d u))

not_forever :
    (d : Bytes) (u : ℕ)
    → all_digits d ≡ true
    → 0 < length d
    → equal (d ++ u ∷ []) (codes "forever") ≡ false
unfolding equal all_digits is_digit
not_forever [] u h k = absurd (omega arith)
not_forever (c ∷ d) u h k = let e : (c == b'f') ≡ false = ground arith in rw e refl

-- A number with a unit is read as what it says.
parse_number :
    (n u mul : ℕ)
    → unit_length u ≡ some mul
    → n < 10 ^ 15
    → 0 < mul * n
    → mul * n < u64_mod
    → parse_length_of_time (to_decimal n ++ u ∷ []) ≡ some (mul * n)
unfolding parse_length_of_time
parse_number n u mul unit small pos fits =
    let digits = to_decimal-digits n in
    let some_digit = to_decimal-nonempty n in
    let e : length (to_decimal n ++ u ∷ []) ≡ length (to_decimal n) + 1 =
      length-append (to_decimal n) (u ∷ []) in
    let long : ltb 0 (length (to_decimal n ++ u ∷ [])) ≡ true = ground (arith, e) in
    let short : leb (length (to_decimal n ++ u ∷ [])) 16 ≡ true =
      ground (arith, e, length-to_decimal n 14 small) in
    let positive : (mul * n == 0) ≡ false = grind arith in
    rw
      (
        not_forever (to_decimal n) u digits some_digit,
        long,
        short,
        last_of (to_decimal n) u,
        all_but_last (to_decimal n) u,
        unit,
        digits,
        number-to_decimal n,
        mul64_exact mul n fits,
        positive,
      )
      refl

whole : (t d : ℕ) → (t % d == 0) ≡ true → 0 < d → d * (t / d) ≡ t
whole t d e h = grind arith

parse_unit :
    (t d u : ℕ)
    → unit_length u ≡ some d
    → (t % d == 0) ≡ true
    → day ≤ d
    → 0 < t
    → t < 2 ^ 63
    → parse_length_of_time (to_decimal (t / d) ++ u ∷ []) ≡ some t
parse_unit t d u unit e big pos fits =
    let same = whole t d e (omega (arith, big)) in
    let small : t / d < 10 ^ 15 = grind arith in
    parse_number (t / d) u d unit small (omega (arith, same, pos)) (omega (arith, same, fits))
    ∙ ap some same

-- A positive length of whole days that a time_t can hold is read back exactly from what
-- getLengthOfTime prints for it, whichever unit it picks.
pub parse_length-get_length :
    (t : ℕ)
    → 0 < t
    → t < 2 ^ 63
    → t % day ≡ 0
    → parse_length_of_time (get_length_of_time t) ≡ some t
unfolding get_length_of_time unit_length
parse_length-get_length t pos fits days = elim (Bool-cases (t % (day * 366) == 0)) [
  | inl e ↦ rw e (parse_unit t (day * 366) b'y' refl e (omega arith) pos fits)
  | inr ny ↦ elim (Bool-cases (t % (day * 31) == 0)) [
    | inl e ↦ rw (ny, e) (parse_unit t (day * 31) b'm' refl e (omega arith) pos fits)
    | inr nm ↦ elim (Bool-cases (t % (day * 7) == 0)) [
      | inl e ↦ rw (ny, nm, e) (parse_unit t (day * 7) b'w' refl e (omega arith) pos fits)
      | inr nw ↦
          let e : (t % day == 0) ≡ true = ground (arith, days) in
          rw (ny, nm, nw, e) (parse_unit t day b'd' refl e (omega arith) pos fits)
    ]
  ]
]
