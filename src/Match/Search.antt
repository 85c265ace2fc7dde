-- ===== src/Match/Search.antt =====
-- src/match.cc: the search loop with strstr finds an occurrence at a segment's end if there is one.
use beak.Prelude.{
  ℕ, zero, suc, ◌+◌, ◌≤◌, ◌<◌, ◌≡◌, refl, Bool, true, false, ◌||◌, none, some, [], ◌∷◌, ◌++◌, ◌⊎◌,
  inl, inr, arith, Bytes, length, strip_prefix, strip_prefix-append, append_of_strip_prefix,
  Bool-cases, Option-cases, subst, sym, ap, ◌↔◌,
}
use beak.Match.{segment_ends, begins_segment, strstr, doublestar_loop, match_doublestar}
use beak.Match.Spec.{EndsSegment}

segment_ends_iff : (s : Bytes) → (segment_ends s ≡ true) ↔ EndsSegment s
unfolding segment_ends
segment_ends_iff [] = (λ h. inl refl, λ h. refl)
segment_ends_iff (c ∷ s) =
    (λ h. inr (s, ground arith), elim [ inl e ↦ cc | inr (r, e) ↦ ground arith ])

-- The pattern begins the text, and the segment ends behind it.
pub begins_segment_iff :
    (p s : Bytes) → (begins_segment p s ≡ true) ↔ ((r : Bytes) × (s ≡ p ++ r) × EndsSegment r)
unfolding begins_segment
begins_segment_iff p s = (there (Option-cases (strip_prefix p s)), back)
  where
    there :
        (strip_prefix p s ≡ none) ⊎ ((r : Bytes) × (strip_prefix p s ≡ some r))
        → begins_segment p s ≡ true
        → (r : Bytes) × (s ≡ p ++ r) × EndsSegment r
    there (inl e) h = cc (rw (e, begins_segment) at h)
    there (inr (r, e)) h =
        (r, append_of_strip_prefix p s r e, (segment_ends_iff r).0 (rw (e, begins_segment) at h))

    back : (r : Bytes) × (s ≡ p ++ r) × EndsSegment r → begins_segment p s ≡ true
    back (r, e, v) =
        subst (λ (u : Bytes). begins_segment p u ≡ true) (sym e)
          (rw (strip_prefix-append p r, begins_segment) ((segment_ends_iff r).1 v))

-- Every place of the text is looked at.
scan : Bytes → Bytes → Bool
scan p [] = begins_segment p []
scan p (c ∷ s) = begins_segment p (c ∷ s) || scan p s

begins_none : (p s : Bytes) → strip_prefix p s ≡ none → begins_segment p s ≡ false
unfolding begins_segment
begins_none p s e = rw (e, begins_segment) refl

-- strstr skips only places that do not count.
strstr_lem :
    (p s : Bytes)
    → ((strstr p s ≡ none) × (scan p s ≡ false))
      ⊎ ((t : Bytes) × (r : Bytes) × (strstr p s ≡ some t)
          × (strip_prefix p t ≡ some r)
          × (scan p s ≡ scan p t)
          × (length t ≤ length s))
unfolding strstr scan
strstr_lem p [] = elim (Option-cases (strip_prefix p [])) [
  | inl e ↦ inl (rw (e, strstr) refl, begins_none p [] e)
  | inr (r, e) ↦ inr ([], r, rw (e, strstr) refl, e, refl, omega arith)
]
strstr_lem p (c ∷ s) = elim (Option-cases (strip_prefix p (c ∷ s))) [
  | inr (r, e) ↦ inr (c ∷ s, r, rw (e, strstr) refl, e, refl, omega arith)
  | inl e ↦
      let miss = begins_none p (c ∷ s) e in
      elim (strstr_lem p s) [
        | inl (a, b) ↦ inl (rw (e, strstr) a, rw miss b)
        | inr (t, r, a, b, d, l) ↦ inr (t, r, rw (e, strstr) a, b, rw miss d, omega arith)
      ]
]

found_at_end : (p r : Bytes) → strip_prefix p [] ≡ some r → begins_segment p [] ≡ true
unfolding strip_prefix begins_segment segment_ends
found_at_end [] r e = refl
found_at_end (x ∷ p) r e = cc

scan_found : (p s : Bytes) → begins_segment p s ≡ true → scan p s ≡ true
unfolding scan
scan_found p [] h = h
scan_found p (c ∷ s) h = rw h refl

-- One round of the loop, at an occurrence.
loop_step :
    (fuel : ℕ) (p t r : Bytes)
    → ((s : Bytes) → length s < fuel → doublestar_loop fuel p (strstr p s) ≡ some (scan p s))
    → strip_prefix p t ≡ some r
    → length t ≤ fuel
    → doublestar_loop (suc fuel) p (some t) ≡ some (scan p t)
unfolding doublestar_loop scan
loop_step fuel p [] r again b l = let hit = found_at_end p r b in rw hit refl
loop_step fuel p (c ∷ t) r again b l = elim (Bool-cases (begins_segment p (c ∷ t))) [
  | inl hit ↦ rw hit refl
  | inr miss ↦ rw miss (again t (omega arith))
]

-- With more rounds than the text has characters the loop ends, with the answer of the full scan.
doublestar_loop_lem :
    (fuel : ℕ) (p s : Bytes)
    → length s < fuel
    → doublestar_loop fuel p (strstr p s) ≡ some (scan p s)
doublestar_loop_lem zero p s h = absurd (omega arith)
doublestar_loop_lem (suc fuel) p s h = elim (strstr_lem p s) [
  | inl (a, b) ↦ rw (a, b) (unfold doublestar_loop in refl)
  | inr (t, r, a, b, d, l) ↦
      rw (a, d) (loop_step fuel p t r (doublestar_loop_lem fuel p) b (omega arith))
]

-- An occurrence of the pattern that ends at a segment's end.
abbrev pub Occurs : Bytes → Bytes → Type 0
Occurs p s = (before : Bytes) × (rest : Bytes) × (s ≡ before ++ (p ++ rest)) × EndsSegment rest

scan→Occurs : (p s : Bytes) → scan p s ≡ true → Occurs p s
unfolding scan
scan→Occurs p [] h = let (r, e, v) = (begins_segment_iff p []).0 h in ([], r, e, v)
scan→Occurs p (c ∷ s) h = elim (Bool-cases (begins_segment p (c ∷ s))) [
  | inl hit ↦ let (r, e, v) = (begins_segment_iff p (c ∷ s)).0 hit in ([], r, e, v)
  | inr miss ↦
      let (before, rest, e, v) = scan→Occurs p s (rw miss at h) in
      (c ∷ before, rest, ap (◌∷◌ c) e, v)
]

Occurs→scan : (p before rest : Bytes) → EndsSegment rest → scan p (before ++ (p ++ rest)) ≡ true
unfolding scan
Occurs→scan p [] rest v =
    scan_found p (p ++ rest) ((begins_segment_iff p (p ++ rest)).1 (rest, refl, v))
Occurs→scan p (c ∷ before) rest v = ground (arith, Occurs→scan p before rest v)

-- The search ends with an answer, which is true exactly if the pattern occurs so.
pub match_doublestar_lem :
    (p s : Bytes) → (b : Bool) × (match_doublestar p s ≡ some b) × ((b ≡ true) ↔ Occurs p s)
unfolding match_doublestar
match_doublestar_lem p s = (
  scan p s,
  doublestar_loop_lem (length s + 2) p s (omega arith),
  (
    scan→Occurs p s,
    λ o. subst (λ (u : Bytes). scan p u ≡ true) (sym o.2) (Occurs→scan p o.0 o.1 o.3),
  ),
)
