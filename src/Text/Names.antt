-- ===== src/Text/Names.antt =====
-- src/util.cc: names that every file system can store, prefixes, and the counting of lines.
use beak.Prelude.{
  ℕ, ◌+◌, ◌-◌, ◌/◌, ◌%◌, ◌<◌, ◌≡◌, ◌≢◌, ◌↔◌, refl, Bool, true, false, not, ◌&&◌, ◌||◌, [], ◌∷◌,
  ◌++◌, inl, inr, arith, codes, ltb, ◌==◌, if◌then◌else◌, Bytes, length, length-append, take, drop,
  equal, equal_iff, take-append-drop, Bool-cases, All, ap, sym, ◌∙◌, subst,
}

-- "%02X".
unfoldable pub hex_upper : ℕ → ℕ
hex_upper n = if ltb n 10 then b'0' + n else (b'A' - 10) + n

unfoldable pub is_forbidden : ℕ → Bool
is_forbidden c =
    ltb c 32
    || (c == 127
        || (c == b'<'
            || (c == b'>'
                || (c == b':'
                    || (c == b'"' || (c == b'\\' || (c == b'|' || (c == b'?' || c == b'*'))))))))

unfoldable pub safe_char : ℕ → Bytes
unfolding is_forbidden hex_upper
safe_char c =
    if c == b'/'
    then codes "_"
    else if c == b' '
    then codes "~"
    else if is_forbidden c
    then b'%' ∷ hex_upper (c / 16) ∷ hex_upper (c % 16) ∷ []
    else c ∷ []

-- makeSafeDirectory, for bytes below 256.
unfoldable pub make_safe_directory : Bytes → Bytes
unfolding safe_char
make_safe_directory [] = []
make_safe_directory (c ∷ s) = safe_char c ++ make_safe_directory s

unfoldable pub starts_with : Bytes → Bytes → Bool
starts_with s prefix =
    length prefix == 0
    || (not (ltb (length s) (length prefix)) && equal (take (length prefix) s) prefix)

-- count_newlines: how many there are, and where the last one is.
unfoldable pub count_loop : Bytes → ℕ → ℕ → ℕ → ℕ × ℕ
count_loop [] num_nl offset nl_pos = (num_nl, nl_pos)
count_loop (c ∷ v) num_nl offset nl_pos =
    if c == b'\n'
    then count_loop v (num_nl + 1) (offset + 1) offset
    else count_loop v num_nl (offset + 1) nl_pos

unfoldable pub count_newlines : Bytes → ℕ × ℕ
unfolding count_loop
count_newlines v = count_loop v 0 0 0

-- A character above the blank, but no delete and none of / < > : " \ | ? *.
abbrev pub IsSafe : ℕ → Type 0
IsSafe c = (32 < c) × (c ≢ 127) × All (λ (d : ℕ). c ≢ d) (codes "/<>:\"\\|?*")

All-append : (s t : Bytes) → All IsSafe s → All IsSafe t → All IsSafe (s ++ t)
All-append [] t h k = k
All-append (c ∷ s) t h k = (h.0, All-append s t h.1 k)

hex_upper-IsSafe : (n : ℕ) → n < 16 → IsSafe (hex_upper n)
unfolding hex_upper is_forbidden
hex_upper-IsSafe n h = ground arith

others-IsSafe :
    (c : ℕ) → (c == b'/') ≡ false → (c == b' ') ≡ false → is_forbidden c ≡ false → IsSafe c
unfolding is_forbidden
others-IsSafe c slash blank e = ground arith

safe_char-IsSafe : (c : ℕ) → c < 256 → All IsSafe (safe_char c)
unfolding safe_char is_forbidden
safe_char-IsSafe c h = elim (Bool-cases (c == b'/')) [
  | inl e ↦ rw e (omega arith, tt)
  | inr slash ↦ elim (Bool-cases (c == b' ')) [
    | inl e ↦ rw (slash, e) (omega arith, tt)
    | inr blank ↦ elim (Bool-cases (is_forbidden c)) [
      | inl e ↦
          rw (slash, blank, e)
            (
              omega arith,
              (
                hex_upper-IsSafe (c / 16) (omega (arith, h)),
                (hex_upper-IsSafe (c % 16) (omega arith), tt),
              ),
            )
      | inr e ↦ rw (slash, blank, e) (others-IsSafe c slash blank e, tt)
    ]
  ]
]

-- The safe name of any text of bytes has no control character, no blank, no delete and none of
-- / < > : " \ | ? *.
pub make_safe_directory-IsSafe :
    (s : Bytes) → All (λ c. c < 256) s → All IsSafe (make_safe_directory s)
unfolding make_safe_directory
make_safe_directory-IsSafe [] h = tt
make_safe_directory-IsSafe (c ∷ s) h =
    All-append (safe_char c) (make_safe_directory s) (safe_char-IsSafe c h.0)
      (make_safe_directory-IsSafe s h.1)

take_all : (s t : Bytes) → take (length s) (s ++ t) ≡ s
take_all [] t = refl
take_all (c ∷ s) t = ap (◌∷◌ c) (take_all s t)

starts_of_append : (prefix rest : Bytes) → starts_with (prefix ++ rest) prefix ≡ true
unfolding starts_with
starts_of_append prefix rest = elim (Bool-cases (length prefix == 0)) [
  | inl e ↦ rw e refl
  | inr e ↦
      let long : ltb (length (prefix ++ rest)) (length prefix) ≡ false =
        ground (arith, length-append prefix rest) in
      rw (e, long, take_all prefix rest, (equal_iff prefix prefix).1 refl) refl
]

-- starts_with tells exactly whether the text is the prefix and something after it.
pub starts_with_iff :
    (s prefix : Bytes) → (starts_with s prefix ≡ true) ↔ ((rest : Bytes) × (s ≡ prefix ++ rest))
unfolding starts_with
starts_with_iff s prefix = (
  there prefix,
  λ (rest, e).
      subst (λ (u : Bytes). starts_with u prefix ≡ true) (sym e) (starts_of_append prefix rest),
)
  where
    there : (prefix : Bytes) → starts_with s prefix ≡ true → (rest : Bytes) × (s ≡ prefix ++ rest)
    there [] h = (s, refl)
    there (c ∷ p) h =
        let same : equal (take (length (c ∷ p)) s) (c ∷ p) ≡ true = ground arith in
        (
          drop (length (c ∷ p)) s,
          sym (take-append-drop (length (c ∷ p)) s)
              ∙ ap (λ (u : Bytes). u ++ drop (length (c ∷ p)) s) ((equal_iff _ _).0 same),
        )
