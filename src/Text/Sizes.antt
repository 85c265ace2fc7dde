-- ===== src/Text/Sizes.antt =====
-- src/util.cc: sizes for people to read, and the rounding of sizes. A size_t is below 2 ^ 64.
-- `none` is an assertion that fails.
use beak.Prelude.{
  ℕ, ◌+◌, ◌-◌, ◌*◌, ◌/◌, ◌%◌, ◌≤◌, ◌<◌, ◌≡◌, refl, true, false, Option, some, [], ◌∷◌, ◌++◌, inl,
  inr, arith, ltb, ◌==◌, if◌then◌else◌, ◌>>◌, guard, Bytes, codes, Bool-cases, ap, sym, ◌∙◌, ==_iff,
  zero, suc, ◌⊎◌,
}
use beak.Prelude.Words.{add64, u64_mod}
use beak.Prelude.Decimal.{to_decimal, digits_loop}

abbrev kb : ℕ
kb = 1024

unfoldable pub human_readable : ℕ → Bytes
human_readable s =
    if ltb s kb
    then to_decimal s ++ codes " B"
    else if ltb s (kb * kb)
    then to_decimal (s / kb) ++ codes " KiB"
    else if ltb s (kb * kb * kb)
    then to_decimal (s / (kb * kb)) ++ codes " MiB"
    else if ltb s (kb * kb * kb * kb)
    then to_decimal (s / (kb * kb * kb)) ++ codes " GiB"
    else if ltb s (kb * kb * kb * kb * kb)
    then to_decimal (s / (kb * kb * kb * kb)) ++ codes " TiB"
    else to_decimal (s / (kb * kb * kb * kb * kb)) ++ codes " PiB"

unfoldable pub roundoff_human_readable : ℕ → ℕ
roundoff_human_readable s =
    if ltb s kb
    then s
    else if ltb s (kb * kb)
    then s / kb * kb
    else if ltb s (kb * kb * kb)
    then s / (kb * kb) * (kb * kb)
    else if ltb s (kb * kb * kb * kb)
    then s / (kb * kb * kb) * (kb * kb * kb)
    else if ltb s (kb * kb * kb * kb * kb)
    then s / (kb * kb * kb * kb) * (kb * kb * kb * kb)
    else s / (kb * kb * kb * kb * kb) * (kb * kb * kb * kb * kb)

-- Sizes of one unit: `d` bytes, shown under `name`, from `d` up to `s`.
abbrev OneUnit : ℕ → ℕ → Bytes → Type 0
OneUnit s d name =
    (0 < d)
    × (d ≤ s)
    × ((x : ℕ)
        → d ≤ x
        → x ≤ s
        → (human_readable x ≡ to_decimal (x / d) ++ name) × (roundoff_human_readable x ≡ x / d * d))

unit_of : (s : ℕ) → kb ≤ s → (d : ℕ) × (name : Bytes) × OneUnit s d name
unfolding human_readable roundoff_human_readable
unit_of s h = elim (Bool-cases (ltb s (kb * kb))) [
  | inl e ↦ (kb, codes " KiB", (omega arith, h, λ x le ge. ground arith))
  | inr e1 ↦ elim (Bool-cases (ltb s (kb * kb * kb))) [
    | inl e ↦ (kb * kb, codes " MiB", (omega arith, ground arith, λ x le ge. ground arith))
    | inr e2 ↦ elim (Bool-cases (ltb s (kb * kb * kb * kb))) [
      | inl e ↦ (kb * kb * kb, codes " GiB", (omega arith, ground arith, λ x le ge. ground arith))
      | inr e3 ↦ elim (Bool-cases (ltb s (kb * kb * kb * kb * kb))) [
        | inl e ↦
            (kb * kb * kb * kb, codes " TiB", (omega arith, ground arith, λ x le ge. ground arith))
        | inr e ↦ (
          kb * kb * kb * kb * kb,
          codes " PiB",
          (omega arith, ground arith, λ x le ge. ground arith),
        )
      ]
    ]
  ]
]

multiple : (s d : ℕ) → 0 < d → d ≤ s → (d ≤ s / d * d) × (s / d * d ≤ s) × (s / d * d / d ≡ s / d)
multiple s d h k = (grind arith, grind arith, grind arith)

roundoff_small : (s : ℕ) → s < kb → roundoff_human_readable s ≡ s
unfolding roundoff_human_readable
roundoff_small s h = ground arith

-- For a size of any magnitude, the rounded size is shown like the size itself, it is at most that
-- size, and rounding it again changes nothing.
pub roundoff_human_readable_lem :
    (s : ℕ)
    → (human_readable (roundoff_human_readable s) ≡ human_readable s)
      × (roundoff_human_readable s ≤ s)
      × (roundoff_human_readable (roundoff_human_readable s) ≡ roundoff_human_readable s)
roundoff_human_readable_lem s = elim (Bool-cases (ltb s kb)) [
  | inl e ↦
      let same = roundoff_small s (ground arith) in
      (ap human_readable same, omega (arith, same), ap roundoff_human_readable same)
  | inr e ↦
      let (d, name, (pos, le, shown)) = unit_of s (ground arith) in
      let (low, high, again) = multiple s d pos le in
      let here = shown s le (omega arith) in
      let there = shown (s / d * d) low high in
      (
        ap human_readable here.1 ∙ there.0 ∙ ap (λ n. to_decimal n ++ name) again ∙ sym here.0,
        omega (arith, here.1, high),
        ap roundoff_human_readable here.1 ∙ there.1 ∙ ap (λ n. n * d) again ∙ sym here.1,
      )
]

unfoldable pub up_to_block_size : ℕ → Option ℕ
unfolding add64
up_to_block_size s =
    let r = add64 s (512 - s % 512) in
    if s % 512 == 0 then some s else (guard (r % 512 == 0) >> some r)

unfoldable pub down_to_block_size : ℕ → Option ℕ
down_to_block_size s =
    if s % 512 == 0 then some s else (guard ((s - s % 512) % 512 == 0) >> some (s - s % 512))

-- Below the last block of a size_t, no assertion of the two roundings to blocks of 512 bytes fails;
-- the one result is the least multiple of 512 that is not below the size, the other one the
-- greatest that is not above it, and they are one block apart unless the size is a multiple itself.
pub block_size_lem :
    (s : ℕ)
    → s + 512 < u64_mod
    → (up : ℕ) × (down : ℕ) × (up_to_block_size s ≡ some up)
      × (down_to_block_size s ≡ some down)
      × (down % 512 ≡ 0)
      × (down ≤ s)
      × (s ≤ up)
      × (((s ≡ up) × (s ≡ down)) ⊎ (up ≡ down + 512))
unfolding up_to_block_size down_to_block_size add64
block_size_lem s h = elim (Bool-cases (s % 512 == 0)) [
  | inl e ↦ (
    s,
    s,
    rw e refl,
    rw e refl,
    (==_iff (s % 512) 0).0 e,
    omega arith,
    omega arith,
    inl (refl, refl),
  )
  | inr e ↦
      let over : (add64 s (512 - s % 512) % 512 == 0) ≡ true = ground arith in
      let under : ((s - s % 512) % 512 == 0) ≡ true = ground arith in
      (
        add64 s (512 - s % 512),
        s - s % 512,
        rw (e, over) refl,
        rw (e, under) refl,
        ground arith,
        omega arith,
        ground arith,
        inr (ground arith),
      )
]

-- The decimals: hundredths of the scale, from the part that the division leaves.
unfoldable pub helper : ℕ → ℕ → Bytes → Bytes
helper scale s suffix =
    let n = s / scale in
    let diff = s - n * scale in
    let dec = 100 * (diff + 1) / scale in
    if diff == 0
    then to_decimal n ++ (codes ".00" ++ suffix)
    else to_decimal n
      ++ ((if ltb dec 10 then codes ".0" else codes ".") ++ (to_decimal dec ++ suffix))

unfoldable pub human_readable_two_decimals : ℕ → Bytes
unfolding helper
human_readable_two_decimals s =
    if ltb s kb
    then to_decimal s ++ codes " B"
    else if ltb s (kb * kb)
    then helper kb s (codes " KiB")
    else if ltb s (kb * kb * kb)
    then helper (kb * kb) s (codes " MiB")
    else if ltb s (kb * kb * kb * kb)
    then helper (kb * kb * kb) s (codes " GiB")
    else if ltb s (kb * kb * kb * kb * kb)
    then helper (kb * kb * kb * kb) s (codes " TiB")
    else helper (kb * kb * kb * kb * kb) s (codes " PiB")

abbrev pub hundredths : ℕ → ℕ → ℕ
hundredths scale diff = if diff == 0 then 0 else 100 * (diff + 1) / scale

two_digits : (n : ℕ) → 10 ≤ n → n < 100 → to_decimal n ≡ (b'0' + n / 10) ∷ (b'0' + n % 10) ∷ []
unfolding to_decimal digits_loop
two_digits zero h k = absurd (omega arith)
two_digits (suc n) h k =
    let big : ltb (suc n) 10 ≡ false = ground arith in
    let small : ltb (suc n / 10) 10 ≡ true = ground arith in rw (big, small) refl

one_digit : (n : ℕ) → n < 10 → to_decimal n ≡ (b'0' + n) ∷ []
unfolding to_decimal digits_loop
one_digit n h = let small : ltb n 10 ≡ true = ground arith in rw small refl

-- Unless the remainder is one short of the scale, a size is shown with exactly two decimals, the
-- hundredths of the scale.
pub helper_two_decimals :
    (scale s : ℕ) (suffix : Bytes)
    → 0 < scale
    → s % scale + 1 < scale
    → helper scale s suffix
      ≡ to_decimal (s / scale)
        ++ (b'.'
            ∷ (b'0' + hundredths scale (s % scale) / 10)
            ∷ (b'0' + hundredths scale (s % scale) % 10)
            ∷ suffix)
unfolding helper
helper_two_decimals scale s suffix pos short =
    let rest : s - s / scale * scale ≡ s % scale = grind arith in
    elim (Bool-cases (s % scale == 0)) [
      | inl e ↦ rw (rest, e) refl
      | inr e ↦
          let small : 100 * (s % scale + 1) / scale < 100 = grind arith in
          elim (Bool-cases (ltb (100 * (s % scale + 1) / scale) 10)) [
            | inl one ↦
                let h : 100 * (s % scale + 1) / scale < 10 = ground arith in
                let tens : 100 * (s % scale + 1) / scale / 10 ≡ 0 = omega (arith, h) in
                let ones : 100 * (s % scale + 1) / scale % 10 ≡ 100 * (s % scale + 1) / scale =
                  omega (arith, h) in
                rw (rest, e, one, one_digit (100 * (s % scale + 1) / scale) h, tens, ones) refl
            | inr two ↦
                let h : 10 ≤ 100 * (s % scale + 1) / scale = ground arith in
                rw (rest, e, two, two_digits (100 * (s % scale + 1) / scale) h small) refl
          ]
    ]
