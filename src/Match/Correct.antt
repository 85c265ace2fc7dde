-- ===== src/Match/Correct.antt =====
-- src/match.cc: match answers, and rightly.
use beak.Prelude.{
  ◌≡◌, refl, Bool, true, false, Option, none, some, ◌++◌, ◌⊎◌, inl, inr, Bytes, strip_prefix,
  strip_prefix-append, append_of_strip_prefix, equal, equal_iff, Bool-cases, Option-cases, subst,
  sym, ◌↔◌,
}
use beak.Match.{Match, match, match_last, last_element, ends_with, begins_segment}
use beak.Match.Spec.{
  IsMatch, rooted_below, rooted_exact, below, name_ends, name_begins, name_is, IsName,
}
use beak.Match.Base.{IsName-unique, path-IsName, ends_with_iff}
use beak.Match.Search.{begins_segment_iff, match_doublestar_lem}

-- The run ended with an answer, and the answer is right about `P`.
abbrev pub Answers : Type 0 → Option Bool → Type 0
Answers P r = (b : Bool) × (r ≡ some b) × ((b ≡ true) ↔ P)

-- The text begins with the pattern.
begins : Bytes → Bytes → Bool
begins p s = elim (strip_prefix p s) [ none ↦ false | some r ↦ true ]

begins_iff : (p s : Bytes) → (begins p s ≡ true) ↔ ((x : Bytes) × (s ≡ p ++ x))
unfolding begins
begins_iff p s = (there (Option-cases (strip_prefix p s)), back)
  where
    there :
        (strip_prefix p s ≡ none) ⊎ ((r : Bytes) × (strip_prefix p s ≡ some r))
        → begins p s ≡ true
        → (x : Bytes) × (s ≡ p ++ x)
    there (inl e) h = cc (rw (e, begins) at h)
    there (inr (r, e)) h = (r, append_of_strip_prefix p s r e)

    back : (x : Bytes) × (s ≡ p ++ x) → begins p s ≡ true
    back (x, e) =
        subst (λ (u : Bytes). begins p u ≡ true) (sym e) (rw (strip_prefix-append p x, begins) refl)

module _ (m : Match) (path : Bytes) where
  match_rooted : m.rooted ≡ true → Answers (IsMatch m path) (match m path)
  unfolding match
  match_rooted r = elim (Bool-cases m.suffix_doublestar) [
    | inl d ↦ (
      begins_segment m.pattern path,
      rw (r, d) refl,
      (
        λ h.
            let (rest, e, v) = (begins_segment_iff m.pattern path).0 h in rooted_below r d rest e v,
        elim [
          | rooted_below _ _ rest e v ↦ (begins_segment_iff m.pattern path).1 (rest, e, v)
          | rooted_exact _ n _ ↦ absurd (cc)
          | below n _ _ _ _ _ ↦ absurd (cc)
          | name_ends n _ _ _ _ ↦ absurd (cc)
          | name_begins n _ _ _ _ _ ↦ absurd (cc)
          | name_is n _ _ _ _ ↦ absurd (cc)
        ],
      ),
    )
    | inr d ↦ (
      equal m.pattern path,
      rw (r, d) refl,
      (
        λ h. rooted_exact r d (sym ((equal_iff m.pattern path).0 h)),
        elim [
          | rooted_below _ n _ _ _ ↦ absurd (cc)
          | rooted_exact _ _ e ↦ (equal_iff m.pattern path).1 (sym e)
          | below n _ _ _ _ _ ↦ absurd (cc)
          | name_ends n _ _ _ _ ↦ absurd (cc)
          | name_begins n _ _ _ _ _ ↦ absurd (cc)
          | name_is n _ _ _ _ ↦ absurd (cc)
        ],
      ),
    )
  ]

  match_below :
      m.rooted ≡ false → m.suffix_doublestar ≡ true → Answers (IsMatch m path) (match m path)
  unfolding match
  match_below r d =
      let (b, run, iff) = match_doublestar_lem m.pattern path in
      (
        b,
        rw (r, d) run,
        (
          λ h. let (before, rest, e, v) = iff.0 h in below r d before rest e v,
          elim [
            | rooted_below n _ _ _ _ ↦ absurd (cc)
            | rooted_exact n _ _ ↦ absurd (cc)
            | below _ _ before rest e v ↦ iff.1 (before, rest, e, v)
            | name_ends _ n _ _ _ ↦ absurd (cc)
            | name_begins _ n _ _ _ _ ↦ absurd (cc)
            | name_is _ n _ _ _ ↦ absurd (cc)
          ],
        ),
      )

  abbrev name : Bytes
  name = last_element path path

  -- The tests of the last element, and what the path's last element has to be.
  match_last-Answers :
      (b : Bool)
      → m.rooted ≡ false
      → m.suffix_doublestar ≡ false
      → match_last m name ≡ b
      → (b ≡ true) ↔ IsMatch m path
      → Answers (IsMatch m path) (match m path)
  unfolding match
  match_last-Answers b r d e iff = (b, rw (r, d, e) refl, iff)

  match_name :
      m.rooted ≡ false → m.suffix_doublestar ≡ false → Answers (IsMatch m path) (match m path)
  unfolding match_last begins
  match_name r d = elim (Bool-cases m.prefix_singlestar) [
    | inl p ↦ match_last-Answers (ends_with m.pattern name) r d (rw p refl) (
      λ h.
          let (x, e) = (ends_with_iff m.pattern name).0 h in
          name_ends r d p x (subst (λ (u : Bytes). IsName path u) e (path-IsName path)),
      elim [
        | rooted_below n _ _ _ _ ↦ absurd (cc)
        | rooted_exact n _ _ ↦ absurd (cc)
        | below _ n _ _ _ _ ↦ absurd (cc)
        | name_ends _ _ _ x v ↦
            (ends_with_iff m.pattern name).1 (x, IsName-unique path (x ++ m.pattern) v)
        | name_begins _ _ n _ _ _ ↦ absurd (cc)
        | name_is _ _ n _ _ ↦ absurd (cc)
      ],
    )
    | inr p ↦ elim (Bool-cases m.suffix_singlestar) [
      | inl s ↦ match_last-Answers (begins m.pattern name) r d (rw (p, s) refl) (
        λ h.
            let (x, e) = (begins_iff m.pattern name).0 h in
            name_begins r d p s x (subst (λ (u : Bytes). IsName path u) e (path-IsName path)),
        elim [
          | rooted_below n _ _ _ _ ↦ absurd (cc)
          | rooted_exact n _ _ ↦ absurd (cc)
          | below _ n _ _ _ _ ↦ absurd (cc)
          | name_ends _ _ n _ _ ↦ absurd (cc)
          | name_begins _ _ _ _ x v ↦
              (begins_iff m.pattern name).1 (x, IsName-unique path (m.pattern ++ x) v)
          | name_is _ _ _ n _ ↦ absurd (cc)
        ],
      )
      | inr s ↦ match_last-Answers (equal name m.pattern) r d (rw (p, s) refl) (
        λ h. name_is r d p s (
            subst (λ (u : Bytes). IsName path u) ((equal_iff name m.pattern).0 h)
              (path-IsName path)),
        elim [
          | rooted_below n _ _ _ _ ↦ absurd (cc)
          | rooted_exact n _ _ ↦ absurd (cc)
          | below _ n _ _ _ _ ↦ absurd (cc)
          | name_ends _ _ n _ _ ↦ absurd (cc)
          | name_begins _ _ _ n _ _ ↦ absurd (cc)
          | name_is _ _ _ _ v ↦ (equal_iff name m.pattern).1 (IsName-unique path m.pattern v)
        ],
      )
    ]
  ]

-- `match` ends with an answer for every pattern that is stored and every path, and the answer is
-- true exactly if the path matches in the sense of IsMatch.
pub match-Answers : (m : Match) (path : Bytes) → Answers (IsMatch m path) (match m path)
match-Answers m path = elim (Bool-cases m.rooted) [
  | inl r ↦ match_rooted m path r
  | inr r ↦ elim (Bool-cases m.suffix_doublestar) [
    | inl d ↦ match_below m path r d
    | inr d ↦ match_name m path r d
  ]
]
