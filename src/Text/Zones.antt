-- ===== src/Text/Zones.antt =====
-- src/util.cc: offsets of time zones as text. `none` of the parser is the code's false; `none` of
-- the printer is an assertion that fails.
use beak.Prelude.{
  ℕ, suc, ◌+◌, ◌-◌, ◌*◌, ◌/◌, ◌%◌, ◌<◌, ◌≡◌, ◌↔◌, refl, true, ◌&&◌, ◌||◌, Option, none, some, [],
  ◌∷◌, inl, inr, arith, leb, ◌==◌, if◌then◌else◌, ◌>>◌, guard, Bytes, Bool-cases, ap, sym, ◌∙◌,
  some_inj,
}
use beak.Prelude.Decimal.{is_digit}
use beak.Prelude.Integers.{ℤ, pos, negsuc, negate}

unfoldable pub parse_time_zone_offset : Bytes → Option ℤ
unfolding is_digit negate
parse_time_zone_offset (sign ∷ h1 ∷ h2 ∷ m1 ∷ m2 ∷ []) = do
  guard (sign == b'-' || sign == b'+')
  guard (is_digit h1 && (is_digit h2 && (is_digit m1 && is_digit m2)))
  let offset = 60 * ((m2 - 48) + (m1 - 48) * 10) + 3600 * ((h2 - 48) + (h1 - 48) * 10)
  some (if sign == b'-' then negate offset else pos offset)
parse_time_zone_offset s = none

-- The part after the sign, for the absolute value.
unfoldable pub zone_digits : ℕ → ℕ → Option Bytes
zone_digits sign t = do
  let hours = t / 3600
  let hoursten = hours / 10
  let hoursone = hours - hoursten * 10
  let minutes = (t - hours * 3600) / 60
  let minutesten = minutes / 10
  let minutesone = minutes - minutesten * 10
  guard (t == hoursten * 3600 * 10 + hoursone * 3600 + minutesten * 60 * 10 + minutes * 60)
  guard (leb hoursten 1)
  guard (leb hoursone 9)
  guard (leb minutesten 5)
  guard (leb minutesone 9)
  some (sign ∷ (48 + hoursten) ∷ (48 + hoursone) ∷ (48 + minutesten) ∷ (48 + minutesone) ∷ [])

unfoldable pub get_time_zone_offset_as_string : ℤ → Option Bytes
unfolding zone_digits
get_time_zone_offset_as_string (pos t) = zone_digits b'+' t
get_time_zone_offset_as_string (negsuc t) = zone_digits b'-' (suc t)

-- The absolute value.
abbrev pub magnitude : ℤ → ℕ
magnitude (pos t) = t
magnitude (negsuc t) = suc t

-- The offset fits the four digits, as the assertions have it.
abbrev pub IsPrinted : ℕ → Type 0
IsPrinted t = (t < 20 * 3600) × (t % 3600 < 600) × (t % 60 ≡ 0)

zone_text : ℕ → ℕ → Bytes
zone_text sign t = sign ∷ (48 + t / 36000) ∷ (48 + t / 3600 % 10) ∷ 48 ∷ (48 + t % 3600 / 60) ∷ []

zone_digits_run : (sign t : ℕ) → IsPrinted t → zone_digits sign t ≡ some (zone_text sign t)
unfolding zone_digits zone_text
zone_digits_run sign t (short, early, whole) =
    let sum : (t
          == t / 3600 / 10 * 3600 * 10
            + (t / 3600 - t / 3600 / 10 * 10) * 3600
            + (t - t / 3600 * 3600) / 60 / 10 * 60 * 10
            + (t - t / 3600 * 3600) / 60 * 60)
        ≡ true =
      ground arith in
    let h1 : leb (t / 3600 / 10) 1 ≡ true = ground arith in
    let h2 : leb (t / 3600 - t / 3600 / 10 * 10) 9 ≡ true = ground arith in
    let m1 : leb ((t - t / 3600 * 3600) / 60 / 10) 5 ≡ true = ground arith in
    let m2 : leb ((t - t / 3600 * 3600) / 60 - (t - t / 3600 * 3600) / 60 / 10 * 10) 9 ≡ true =
      ground arith in
    let d1 : t / 3600 / 10 ≡ t / 36000 = omega arith in
    let d2 : t / 3600 - t / 3600 / 10 * 10 ≡ t / 3600 % 10 = omega arith in
    let d3 : 48 + (t - t / 3600 * 3600) / 60 / 10 ≡ 48 = omega (arith, early) in
    let d4 : (t - t / 3600 * 3600) / 60 - (t - t / 3600 * 3600) / 60 / 10 * 10 ≡ t % 3600 / 60 =
      omega (arith, early) in
    rw (sum, h1, h2, m1, m2, d2, d1, d3, d4) refl

zone_digits-IsPrinted : (sign t : ℕ) (s : Bytes) → zone_digits sign t ≡ some s → IsPrinted t
unfolding zone_digits
zone_digits-IsPrinted sign t s h =
    elim (Bool-cases (
      t
      == t / 3600 / 10 * 3600 * 10
        + (t / 3600 - t / 3600 / 10 * 10) * 3600
        + (t - t / 3600 * 3600) / 60 / 10 * 60 * 10
        + (t - t / 3600 * 3600) / 60 * 60)) [
          | inl sum ↦ elim (Bool-cases (leb (t / 3600 / 10) 1)) [
            | inl h1 ↦ (ground arith, ground arith, ground arith)
            | inr h1 ↦ absurd (cc (rw (sum, h1) at h))
          ]
          | inr sum ↦ absurd (cc (rw sum at h))
        ]

digit_back : (n : ℕ) → n < 10 → (is_digit (48 + n) ≡ true) × (48 + n - 48 ≡ n)
unfolding is_digit
digit_back n h = ground arith

parse_digits :
    (sign t : ℕ)
    → t < 20 * 3600
    → t % 3600 < 600
    → t % 60 ≡ 0
    → (sign == b'-' || sign == b'+') ≡ true
    → parse_time_zone_offset (zone_text sign t) ≡ some (if sign == b'-' then negate t else pos t)
unfolding parse_time_zone_offset zone_text
parse_digits sign t short early whole ok =
    let h1 = digit_back (t / 36000) (omega (arith, short)) in
    let h2 = digit_back (t / 3600 % 10) (omega arith) in
    let m2 = digit_back (t % 3600 / 60) (omega (arith, early)) in
    let sum : 60 * (t % 3600 / 60 + 0) + 3600 * (t / 3600 % 10 + t / 36000 * 10) ≡ t =
      omega (arith, early, whole) in
    rw (ok, h1.0, h2.0, m2.0, h1.1, h2.1, m2.1, sum) refl

-- getTimeZoneOffsetAsString returns for no offset other than the whole minutes of magnitude below
-- 20 hours whose minutes within the hour are below 10; for every other offset an assertion fails.
pub get_time_zone-IsPrinted :
    (z : ℤ) → ((s : Bytes) × (get_time_zone_offset_as_string z ≡ some s)) ↔ IsPrinted (magnitude z)
unfolding get_time_zone_offset_as_string
get_time_zone-IsPrinted (pos t) =
    (λ (s, e). zone_digits-IsPrinted b'+' t s e, λ p. (zone_text b'+' t, zone_digits_run b'+' t p))
get_time_zone-IsPrinted (negsuc t) = (
  λ (s, e). zone_digits-IsPrinted b'-' (suc t) s e,
  λ p. (zone_text b'-' (suc t), zone_digits_run b'-' (suc t) p),
)

-- What getTimeZoneOffsetAsString returns is read back as the same offset.
pub parse_zone-get_zone :
    (z : ℤ) (s : Bytes)
    → get_time_zone_offset_as_string z ≡ some s
    → parse_time_zone_offset s ≡ some z
unfolding get_time_zone_offset_as_string negate
parse_zone-get_zone (pos t) s h =
    let p = zone_digits-IsPrinted b'+' t s h in
    let same = some_inj (sym h ∙ zone_digits_run b'+' t p) in
    ap parse_time_zone_offset same ∙ parse_digits b'+' t p.0 p.1 p.2 refl
parse_zone-get_zone (negsuc t) s h =
    let p = zone_digits-IsPrinted b'-' (suc t) s h in
    let same = some_inj (sym h ∙ zone_digits_run b'-' (suc t) p) in
    ap parse_time_zone_offset same ∙ parse_digits b'-' (suc t) p.0 p.1 p.2 refl
