-- ===== src/Text/Eating.antt =====
-- src/util.cc: eatTo and its companions, the scanner of the index files. The iterator is the part
-- of the vector that it still has before it; the character `none` is the code's -1.
use beak.Prelude.{
  ℕ, zero, suc, ◌≤◌, ◌≡◌, refl, Bool, true, false, not, ◌&&◌, ◌||◌, Option, none, some, [], ◌∷◌,
  ◌++◌, ◌⊎◌, inl, inr, arith, ◌==◌, if◌then◌else◌, Bytes, length, has_char, Bool-cases, ap, ◌∙◌,
  ==_refl, ==_iff,
}

-- What was read, the rest, and the two flags.
pub record Eaten : Type 0 where
  pub text : Bytes
  pub rest : Bytes
  pub eof : Bool
  pub err : Bool

unfoldable pub is_end : Bytes → Bool
is_end [] = true
is_end (x ∷ v) = false

-- The character is the one to stop at.
unfoldable pub stops : Option ℕ → ℕ → Bool
stops none x = false
stops (some c) x = x == c

-- The loop: the text and what the iterator has before it afterwards.
unfoldable pub eat_loop : Option ℕ → ℕ → Bytes → Bytes × Bytes
unfolding stops
eat_loop c max [] = ([], [])
eat_loop c zero (x ∷ v) = ([], x ∷ v)
eat_loop c (suc max) (x ∷ v) =
    let r = eat_loop c max v in if stops c x then ([], x ∷ v) else (x ∷ r.0, r.1)

-- The character to stop at was not there.
unfoldable pub missed : Option ℕ → Bytes → Bool
missed none v = false
missed (some c) [] = true
missed (some c) (x ∷ v) = not (x == c)

unfoldable pub step_over : Bytes → Bytes
step_over [] = []
step_over (x ∷ v) = v

unfoldable pub eat_to : Bytes → Option ℕ → ℕ → Eaten
unfolding eat_loop missed step_over is_end
eat_to v c max =
    let r = eat_loop c max v in
    let rest = step_over r.1 in
    record { text = r.0; rest = rest; eof = is_end rest; err = missed c r.1 }

unfoldable pub is_blank : ℕ → Bool
is_blank x = x == b' ' || x == b'\t'

-- eatWhitespace: the iterator afterwards; it tells the end by `is_end`.
unfoldable pub eat_whitespace : Bytes → Bytes
unfolding is_blank
eat_whitespace [] = []
eat_whitespace (x ∷ v) = if is_blank x then eat_whitespace v else x ∷ v

-- The erasing of the blanks at the end.
unfoldable pub trim_end : Bytes → Bytes
unfolding is_blank is_end
trim_end [] = []
trim_end (x ∷ s) = let t = trim_end s in if is_blank x && is_end t then [] else x ∷ t

unfoldable pub trim_whitespace : Bytes → Bytes
unfolding eat_whitespace trim_end
trim_whitespace s = trim_end (eat_whitespace s)

unfoldable pub eat_to_skip_whitespace : Bytes → Option ℕ → ℕ → Bool → Eaten
unfolding eat_to eat_whitespace trim_whitespace is_end
eat_to_skip_whitespace v c max err =
    let w = eat_whitespace v in
    let e = eat_to w c max in
    if is_end w
    then record { text = []; rest = w; eof = true; err = elim c [ none ↦ err | some x ↦ true ] }
    else record { text = trim_whitespace e.text; rest = e.rest; eof = e.eof; err = e.err }

eat_loop-append :
    (s v : Bytes) (c max : ℕ)
    → has_char s c ≡ false
    → length s ≤ max
    → eat_loop (some c) max (s ++ c ∷ v) ≡ (s, c ∷ v)
unfolding eat_loop stops has_char
eat_loop-append [] v c zero free fits = refl
eat_loop-append [] v c (suc max) free fits = rw (==_refl c) refl
eat_loop-append (x ∷ s) v c zero free fits = absurd (omega arith)
eat_loop-append (x ∷ s) v c (suc max) free fits =
    let other : (x == c) ≡ false = ground arith in
    rw (other, eat_loop-append s v c max (ground arith) (omega arith)) refl

-- A field that does not hold the separator, and is not longer than the limit, is read back exactly
-- from in front of a separator and anything else; the scanner then stands behind the separator,
-- sees no error, and sees the end exactly if nothing follows.
pub eat_to-append :
    (s v : Bytes) (c max : ℕ)
    → has_char s c ≡ false
    → length s ≤ max
    → eat_to (s ++ c ∷ v) (some c) max ≡ record { text = s; rest = v; eof = is_end v; err = false }
unfolding eat_to step_over missed
eat_to-append s v c max free fits = rw (eat_loop-append s v c max free fits, ==_refl c) refl

-- The loop on any text: the text in order, the separator not in what was read, and the limit.
eat_loop_lem :
    (max : ℕ) (v : Bytes) (c : ℕ)
    → (v ≡ (eat_loop (some c) max v).0 ++ (eat_loop (some c) max v).1)
      × (has_char (eat_loop (some c) max v).0 c ≡ false)
      × (length (eat_loop (some c) max v).0 ≤ max)
unfolding eat_loop stops has_char
eat_loop_lem zero [] c = (refl, refl, omega arith)
eat_loop_lem (suc max) [] c = (refl, refl, omega arith)
eat_loop_lem zero (x ∷ v) c = (refl, refl, omega arith)
eat_loop_lem (suc max) (x ∷ v) c =
    let (order, free, fits) = eat_loop_lem max v c in
    elim (Bool-cases (x == c)) [
      | inl e ↦ rw e (refl, refl, omega arith)
      | inr e ↦ rw (e, e) (ap (◌∷◌ x) order, free, omega (arith, fits))
    ]

gap_of :
    (c : ℕ) (v : Bytes)
    → (gap : Bytes) × (v ≡ gap ++ step_over v)
      × (length gap ≤ 1)
      × ((missed (some c) v ≡ true) ⊎ (gap ≡ c ∷ []))
unfolding step_over missed
gap_of c [] = ([], refl, omega arith, inl refl)
gap_of c (x ∷ v) = elim (Bool-cases (x == c)) [
  | inl e ↦ (x ∷ [], refl, omega arith, inr (ap (λ y. y ∷ []) ((==_iff x c).0 e)))
  | inr e ↦ (x ∷ [], refl, omega arith, inl (ap not e))
]

-- Whatever the limit and the text, what was read and what is left are the text in order, up to at
-- most one character between them; what was read does not hold the separator and is within the
-- limit. If no error is reported, the character between them is the separator.
pub eat_to_lem :
    (v : Bytes) (c max : ℕ)
    → ((gap : Bytes) × (v ≡ (eat_to v (some c) max).text ++ (gap ++ (eat_to v (some c) max).rest))
        × (length gap ≤ 1)
        × (((eat_to v (some c) max).err ≡ true) ⊎ (gap ≡ c ∷ [])))
      × (has_char (eat_to v (some c) max).text c ≡ false)
      × (length (eat_to v (some c) max).text ≤ max)
unfolding eat_to
eat_to_lem v c max =
    let (order, free, fits) = eat_loop_lem max v c in
    let (gap, joined, short, flag) = gap_of c (eat_loop (some c) max v).1 in
    ((gap, order ∙ ap (λ r. (eat_loop (some c) max v).0 ++ r) joined, short, flag), free, fits)
