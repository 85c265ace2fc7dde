-- ===== src/Config/Keeps/Texts.antt =====
-- src/util.cc and src/configuration.cc: the texts of keys and lengths in a keep rule, as they are
-- scanned.
use beak.Prelude.{
  ℕ, zero, suc, ◌*◌, ◌/◌, ◌%◌, ◌^◌, ◌≤◌, ◌<◌, ◌≡◌, refl, ap, sym, ◌∙◌, Bool, true, false, not, ◌&&◌,
  ◌||◌, Option, none, some, [], ◌∷◌, ◌++◌, inl, inr, arith, ◌==◌, if◌then◌else◌, Bytes, length,
  length-append, has_char, Bool-cases,
}
use beak.Prelude.Decimal.{to_decimal, all_digits, is_digit, to_decimal-digits, length-to_decimal}
use beak.Text.Eating.{
  Eaten, eat_to, eat_loop, stops, missed, step_over, is_end, is_blank, eat_whitespace, trim_end,
  trim_whitespace, eat_to_skip_whitespace, eat_to-append,
}
use beak.Text.Lengths.{day, get_length_of_time, parse_length_of_time, parse_length-get_length}

-- No blank anywhere.
unfoldable pub solid : Bytes → Bool
unfolding is_blank
solid [] = true
solid (c ∷ s) = not (is_blank c) && solid s

eat_whitespace-solid :
    (s v : Bytes) → solid s ≡ true → 0 < length s → eat_whitespace (s ++ v) ≡ s ++ v
unfolding eat_whitespace solid
eat_whitespace-solid [] v h k = absurd (omega arith)
eat_whitespace-solid (c ∷ s) v h k = let e : is_blank c ≡ false = ground arith in rw e refl

trim_end-solid : (s : Bytes) → solid s ≡ true → trim_end s ≡ s
unfolding trim_end solid
trim_end-solid [] h = refl
trim_end-solid (c ∷ s) h =
    let e : is_blank c ≡ false = ground arith in rw (e, trim_end-solid s (ground arith)) refl

pub append_nothing : (s : Bytes) → s ++ [] ≡ s
append_nothing [] = refl
append_nothing (c ∷ s) = ap (◌∷◌ c) (append_nothing s)

trim-solid : (s : Bytes) → solid s ≡ true → 0 < length s → trim_whitespace s ≡ s
unfolding trim_whitespace
trim-solid s h k =
    ap trim_end (
      ap eat_whitespace (sym (append_nothing s)) ∙ eat_whitespace-solid s [] h k ∙ append_nothing s)
    ∙ trim_end-solid s h

pub solid-free : (s : Bytes) → solid s ≡ true → has_char s b' ' ≡ false
unfolding solid has_char is_blank
solid-free [] h = refl
solid-free (c ∷ s) h = ground (arith, solid-free s)

-- The separator is not there.
eat_loop_missing :
    (s : Bytes) (c max : ℕ)
    → has_char s c ≡ false
    → length s ≤ max
    → eat_loop (some c) max s ≡ (s, [])
unfolding eat_loop stops has_char
eat_loop_missing [] c max free fits = refl
eat_loop_missing (x ∷ s) c zero free fits = absurd (omega arith)
eat_loop_missing (x ∷ s) c (suc max) free fits =
    let other : (x == c) ≡ false = ground arith in
    rw (other, eat_loop_missing s c max (ground arith) (omega arith)) refl

eat_to_missing :
    (s : Bytes) (c max : ℕ)
    → has_char s c ≡ false
    → length s ≤ max
    → eat_to s (some c) max ≡ record { text = s; rest = []; eof = true; err = true }
unfolding eat_to missed step_over is_end
eat_to_missing s c max free fits = rw (eat_loop_missing s c max free fits) refl

abbrev skipping : Bytes → Option ℕ → Bool → Eaten → Eaten
skipping w c err e =
    if is_end w
    then record { text = []; rest = w; eof = true; err = elim c [ none ↦ err | some x ↦ true ] }
    else record { text = trim_whitespace e.text; rest = e.rest; eof = e.eof; err = e.err }

pub solid-going : (s v : Bytes) → 0 < length s → is_end (s ++ v) ≡ false
unfolding is_end
solid-going [] v h = absurd (omega arith)
solid-going (c ∷ s) v h = refl

-- A solid text is read up to its separator.
pub skip-field :
    (s v : Bytes) (c : ℕ) (err : Bool)
    → solid s ≡ true
    → 0 < length s
    → has_char s c ≡ false
    → length s ≤ 16
    → eat_to_skip_whitespace (s ++ c ∷ v) (some c) 16 err
      ≡ record { text = s; rest = v; eof = is_end v; err = false }
unfolding eat_to_skip_whitespace
skip-field s v c err h k free fits =
    ap (λ w. skipping w (some c) err (eat_to w (some c) 16)) (eat_whitespace-solid s (c ∷ v) h k)
    ∙ ap (skipping (s ++ c ∷ v) (some c) err) (eat_to-append s v c 16 free fits)
    ∙ rw (solid-going s (c ∷ v) k, trim-solid s h k) refl

-- Or up to the end.
pub skip-last :
    (s : Bytes) (c : ℕ) (err : Bool)
    → solid s ≡ true
    → 0 < length s
    → has_char s c ≡ false
    → length s ≤ 16
    → eat_to_skip_whitespace s (some c) 16 err
      ≡ record { text = s; rest = []; eof = true; err = true }
unfolding eat_to_skip_whitespace
skip-last s c err h k free fits =
    let going = ap is_end (sym (append_nothing s)) ∙ solid-going s [] k in
    ap (λ w. skipping w (some c) err (eat_to w (some c) 16))
      (ap eat_whitespace (sym (append_nothing s))
        ∙ eat_whitespace-solid s [] h k
        ∙ append_nothing s)
    ∙ ap (skipping s (some c) err) (eat_to_missing s c 16 free fits)
    ∙ rw (going, trim-solid s h k) refl

-- What the text of a length is: no blank, and read back.
pub record IsLength (t : ℕ) : Type 0 where
  pub is_solid : solid (get_length_of_time t) ≡ true
  pub nonempty : 0 < length (get_length_of_time t)
  pub fits : length (get_length_of_time t) ≤ 16
  pub back : parse_length_of_time (get_length_of_time t) ≡ some t

digits-solid :
    (s : Bytes) (u : ℕ) → all_digits s ≡ true → is_blank u ≡ false → solid (s ++ u ∷ []) ≡ true
unfolding all_digits is_digit solid is_blank
digits-solid [] u h k = rw k refl
digits-solid (c ∷ s) u h k =
    let e : (c == b' ' || c == b'\t') ≡ false = ground arith in
    rw (e, digits-solid s u (ground arith) k) refl

abbrev IsUnitText : Bytes → Type 0
IsUnitText s = (solid s ≡ true) × (0 < length s) × (length s ≤ 16)

unit-text : (n u : ℕ) → n < 10 ^ 15 → is_blank u ≡ false → IsUnitText (to_decimal n ++ u ∷ [])
unit-text n u small plain =
    let e = length-append (to_decimal n) (u ∷ []) in
    (
      digits-solid (to_decimal n) u (to_decimal-digits n) plain,
      omega (arith, e),
      omega (arith, e, length-to_decimal n 14 small),
    )

length-text : (t : ℕ) → t < 2 ^ 63 → t % day ≡ 0 → IsUnitText (get_length_of_time t)
unfolding get_length_of_time is_blank
length-text t fits days = elim (Bool-cases (t % (day * 366) == 0)) [
  | inl e ↦ rw e (unit-text (t / (day * 366)) b'y' (omega arith) refl)
  | inr ny ↦ elim (Bool-cases (t % (day * 31) == 0)) [
    | inl e ↦ rw (ny, e) (unit-text (t / (day * 31)) b'm' (omega arith) refl)
    | inr nm ↦ elim (Bool-cases (t % (day * 7) == 0)) [
      | inl e ↦ rw (ny, nm, e) (unit-text (t / (day * 7)) b'w' (omega arith) refl)
      | inr nw ↦
          let e : (t % day == 0) ≡ true = ground (arith, days) in
          rw (ny, nm, nw, e) (unit-text (t / day) b'd' (omega arith) refl)
    ]
  ]
]

-- Zero, or a whole number of days.
abbrev pub IsWhole : ℕ → Type 0
IsWhole t = (t < 2 ^ 63) × (t % day ≡ 0)

pub whole-IsLength : (t : ℕ) → IsWhole t → 0 < t → IsLength t
whole-IsLength t (fits, days) pos =
    let (s, n, l) = length-text t fits days in
    record { is_solid = s; nonempty = n; fits = l; back = parse_length-get_length t pos fits days }
