-- ===== src/FileSystem/Parents.antt =====
-- src/filesystem.cc: the parent of a name in a directory is the directory.
use beak.Prelude.{
  ℕ, ◌+◌, ◌≤◌, ◌<◌, ◌≡◌, refl, ap, ◌∙◌, false, none, some, [], ◌∷◌, ◌++◌, arith, ◌==◌, inl, inr,
  Bool-cases, Bytes, length, has_char,
}
use beak.FileSystem.Paths.{drop_back, lookup, last_slash, dirname, parent}

length-drop_back : (c : ℕ) (s : Bytes) → length s ≤ length (drop_back c s) + 1
unfolding drop_back
length-drop_back c [] = omega arith
length-drop_back c (x ∷ []) = elim (Bool-cases (x == c)) [
  | inl e ↦ rw e (omega arith)
  | inr e ↦ rw e (omega arith)
]
length-drop_back c (x ∷ y ∷ s) = omega (arith, length-drop_back c (y ∷ s))

drop_back-free : (c d : ℕ) (s : Bytes) → has_char s d ≡ false → has_char (drop_back c s) d ≡ false
unfolding drop_back has_char
drop_back-free c d [] h = h
drop_back-free c d (x ∷ []) h = elim (Bool-cases (x == c)) [ inl e ↦ rw e refl | inr e ↦ rw e h ]
drop_back-free c d (x ∷ y ∷ s) h = ground (arith, drop_back-free c d (y ∷ s))

-- What is dropped at the end is dropped behind the last slash.
drop_back-behind :
    (c x : ℕ) (s t : Bytes) → 0 < length t → drop_back c (s ++ x ∷ t) ≡ s ++ x ∷ drop_back c t
unfolding drop_back
drop_back-behind c x [] [] h = absurd (omega arith)
drop_back-behind c x [] (y ∷ t) h = refl
drop_back-behind c x (z ∷ []) t h = ap (λ r. z ∷ r) (drop_back-behind c x [] t h)
drop_back-behind c x (z ∷ y ∷ s) t h = ap (λ r. z ∷ r) (drop_back-behind c x (y ∷ s) t h)

last_slash-none : (t : Bytes) → has_char t b'/' ≡ false → last_slash t ≡ none
unfolding last_slash has_char
last_slash-none [] h = refl
last_slash-none (x ∷ t) h =
    let other : (x == b'/') ≡ false = ground arith in
    rw (last_slash-none t (ground arith), other) refl

last_slash-behind :
    (s t : Bytes) → has_char t b'/' ≡ false → last_slash (s ++ b'/' ∷ t) ≡ some (s, t)
unfolding last_slash
last_slash-behind [] t h = rw (last_slash-none t h) refl
last_slash-behind (x ∷ s) t h = rw (last_slash-behind s t h) refl

pub parent-in_dir :
    (dir b : Bytes)
    → has_char b b'/' ≡ false
    → 5 ≤ length b
    → parent (lookup (dir ++ b'/' ∷ b)) ≡ some (lookup dir)
unfolding parent dirname lookup
parent-in_dir dir b free long =
    let b1 : Bytes = drop_back b'\n' b in
    let b2 : Bytes = drop_back b'/' b1 in
    let b3 : Bytes = drop_back b'/' b2 in
    let l1 = length-drop_back b'\n' b in
    let l2 = length-drop_back b'/' b1 in
    let l3 = length-drop_back b'/' b2 in
    let dropped =
      ap (drop_back b'/') (
        ap (drop_back b'/') (
          ap (drop_back b'/') (drop_back-behind b'\n' b'/' dir b (omega arith))
          ∙ drop_back-behind b'/' b'/' dir b1 (omega (arith, l1)))
        ∙ drop_back-behind b'/' b'/' dir b2 (omega (arith, l1, l2)))
      ∙ drop_back-behind b'/' b'/' dir b3 (omega (arith, l1, l2, l3)) in
    let still_free = drop_back-free b'/' b'/' b3 (
      drop_back-free b'/' b'/' b2
        (drop_back-free b'/' b'/' b1 (drop_back-free b'\n' b'/' b free))) in
    rw (dropped, last_slash-behind dir (drop_back b'/' b3) still_free) refl
