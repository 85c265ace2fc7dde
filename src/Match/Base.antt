-- ===== src/Match/Base.antt =====
-- src/match.cc: the last element of a path (strrchr), and the tests at its two ends.
use mathlib.Core.List.{append-nil, append_assoc}
use beak.Prelude.{
  ℕ, ◌-◌, ◌≡◌, refl, true, false, ◌||◌, [], ◌∷◌, ◌++◌, inl, inr, arith, ◌==◌, if◌then◌else◌, Bytes,
  length, take, drop, take-append-drop, has_char, equal_iff, length-append, Bool-cases, subst, sym,
  ap, ◌∙◌, ◌↔◌, le→leb, ==_iff,
}
use beak.Match.{last_element, ends_with}
use beak.Match.Spec.{IsDir, IsName}

has_char-append : (s t : Bytes) (c : ℕ) → has_char (s ++ t) c ≡ (has_char s c || has_char t c)
unfolding has_char
has_char-append [] t c = refl
has_char-append (x ∷ s) t c = ground (arith, has_char-append s t c)

last_element-IsName :
    (dir b s : Bytes)
    → IsDir dir
    → has_char b b'/' ≡ false
    → IsName (dir ++ (b ++ s)) (last_element (b ++ s) s)
unfolding last_element has_char
last_element-IsName dir b [] d h = record {
  dir = dir;
  is_dir = d;
  no_slash = rw append-nil h;
  joined = refl;
}
last_element-IsName dir b (c ∷ s) d h = elim (Bool-cases (c == b'/')) [
  | inl slash ↦
      let e : c ≡ b'/' = (==_iff c b'/').0 slash in
      let step =
        last_element-IsName (dir ++ (b ++ b'/' ∷ [])) [] s (inr (dir ++ b, simp append_assoc))
          refl in
      rw slash (rw e (subst (λ (u : Bytes). IsName u (last_element s s)) (simp append_assoc) step))
  | inr other ↦
      let step = last_element-IsName dir (b ++ c ∷ []) s d (rw has_char-append (ground arith)) in
      let join : (b ++ c ∷ []) ++ s ≡ b ++ c ∷ s = simp append_assoc in
      rw other (subst (λ (u : Bytes). IsName (dir ++ u) (last_element u s)) join step)
]

last_element-plain :
    (best name : Bytes) → has_char name b'/' ≡ false → last_element best name ≡ best
unfolding last_element has_char
last_element-plain best [] h = refl
last_element-plain best (c ∷ name) h = ground (arith, last_element-plain best name)

last_element-slash :
    (best d name : Bytes) → has_char name b'/' ≡ false → last_element best (d ++ b'/' ∷ name) ≡ name
unfolding last_element
last_element-slash best [] name h = last_element-plain name name h
last_element-slash best (c ∷ d) name h =
    last_element-slash (if c == b'/' then d ++ b'/' ∷ name else best) d name h

last_element_at :
    (path name dir : Bytes)
    → has_char name b'/' ≡ false
    → IsDir dir
    → path ≡ dir ++ name
    → last_element path path ≡ name
last_element_at path name dir h (inl e) j =
    let same : path ≡ name = rw e at j in last_element-plain path path (rw same h) ∙ same
last_element_at path name dir h (inr (d, e)) j =
    let split : path ≡ d ++ b'/' ∷ name = j ∙ ap (λ (u : Bytes). u ++ name) e ∙ simp append_assoc in
    ap (last_element path) split ∙ last_element-slash path d name h

-- A path has one last element, and the code finds it.
pub IsName-unique : (path name : Bytes) → IsName path name → last_element path path ≡ name
IsName-unique path name v = last_element_at path name v.dir v.no_slash v.is_dir v.joined

pub path-IsName : (path : Bytes) → IsName path (last_element path path)
unfolding has_char
path-IsName path = last_element-IsName [] [] path (inl refl) refl

drop-append : (x p : Bytes) → drop (length (x ++ p) - length p) (x ++ p) ≡ p
drop-append x p =
    let e : length (x ++ p) - length p ≡ length x = omega (arith, length-append x p) in rw e (go x)
  where
    go : (x : Bytes) → drop (length x) (x ++ p) ≡ p
    go [] = refl
    go (c ∷ x) = go x

ends_with→append : (p s : Bytes) → ends_with p s ≡ true → (x : Bytes) × (s ≡ x ++ p)
unfolding ends_with
ends_with→append p s h =
    let n = length s - length p in
    let e : drop n s ≡ p = (equal_iff _ _).0 (ground arith) in
    (take n s, sym (take-append-drop n s) ∙ ap (λ (u : Bytes). take n s ++ u) e)

append→ends_with : (p x : Bytes) → ends_with p (x ++ p) ≡ true
unfolding ends_with
append→ends_with p x = rw (
  le→leb (length p) (length (x ++ p)) (omega (arith, length-append x p)),
  (equal_iff _ _).1 (drop-append x p),
)

pub ends_with_iff : (p s : Bytes) → (ends_with p s ≡ true) ↔ ((x : Bytes) × (s ≡ x ++ p))
ends_with_iff p s = (
  ends_with→append p s,
  λ h. subst (λ (u : Bytes). ends_with p u ≡ true) (sym h.1) (append→ends_with p h.0),
)
