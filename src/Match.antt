-- ===== src/Match.antt =====
-- src/match.cc: the patterns that select files. A text is its bytes, none of them zero. `none` of
-- `use` is the failed assertion, the call of error(...) that ends the program, or back() of an
-- empty string.
pub mod Spec
pub mod Base
pub mod Search
pub mod Correct
mod Tests
use beak.Prelude.{
  ℕ, zero, suc, ◌+◌, ◌-◌, Bool, true, false, not, ◌&&◌, ◌||◌, Option, none, some, List, [], ◌∷◌,
  ltb, leb, ◌==◌, if◌then◌else◌, ◌>>=◌, ◌>>◌, guard, Bytes, length, take, drop, at, has_char, equal,
  strip_prefix,
}

pub record Match : Type 0 where
  pub pattern : Bytes
  pub rooted : Bool
  pub suffix_doublestar : Bool
  pub suffix_singlestar : Bool
  pub prefix_singlestar : Bool

-- The pattern ends in "/**".
unfoldable pub ends_in_doublestar : Bytes → Bool
ends_in_doublestar p =
    leb 3 (length p)
    && (at p (length p - 1) == b'*' && (at p (length p - 2) == b'*' && at p (length p - 3) == b'/'))

unfoldable pub cut_end : ℕ → Bool → Bytes → Bytes
cut_end n cut p = if cut then take (length p - n) p else p

unfoldable pub has_star_or_slash : Bytes → Bool
has_star_or_slash p = has_char p b'*' || has_char p b'/'

unfoldable pub use_pattern : Bytes → Option Match
use_pattern pattern = do
  guard (ltb 0 (length pattern))
  let rooted = at pattern 0 == b'/'
  let doublestar = ends_in_doublestar pattern
  let p1 = cut_end 3 doublestar pattern
  guard (not (doublestar && has_char p1 b'*'))
  guard (ltb 0 (length p1))
  let suffix = at p1 (length p1 - 1) == b'*'
  let p2 = cut_end 1 suffix p1
  guard (not (suffix && has_star_or_slash p2))
  let prefix = at p2 0 == b'*'
  let p3 = if prefix then drop 1 p2 else p2
  guard (not (prefix && has_star_or_slash p3))
  some (record {
    pattern = p3;
    rooted = rooted;
    suffix_doublestar = doublestar;
    suffix_singlestar = suffix;
    prefix_singlestar = prefix;
  })

-- The path segment ends here: at the end of the text or at a slash.
unfoldable pub segment_ends : Bytes → Bool
segment_ends [] = true
segment_ends (c ∷ s) = c == b'/'

unfoldable pub begins_segment : Bytes → Bytes → Bool
unfolding segment_ends
begins_segment pattern s = elim (strip_prefix pattern s) [ none ↦ false | some r ↦ segment_ends r ]

-- strstr: the text from the first occurrence on.
unfoldable pub strstr : Bytes → Bytes → Option Bytes
strstr pattern [] = elim (strip_prefix pattern []) [ none ↦ none | some r ↦ some [] ]
strstr pattern (c ∷ s) =
    let rest = strstr pattern s in
    elim (strip_prefix pattern (c ∷ s)) [ none ↦ rest | some r ↦ some (c ∷ s) ]

-- The loop over the occurrences, from `p` on. `none` of the result: the fuel ran out.
unfoldable pub doublestar_loop : ℕ → Bytes → Option Bytes → Option Bool
doublestar_loop zero pattern p = none
doublestar_loop (suc fuel) pattern none = some false
doublestar_loop (suc fuel) pattern (some p) =
    let rest = doublestar_loop fuel pattern (strstr pattern (drop 1 p)) in
    if begins_segment pattern p then some true else rest

unfoldable pub match_doublestar : Bytes → Bytes → Option Bool
unfolding doublestar_loop strstr begins_segment
match_doublestar pattern path = doublestar_loop (length path + 2) pattern (strstr pattern path)

-- The text after the last slash (strrchr), or all of it.
unfoldable pub last_element : Bytes → Bytes → Bytes
last_element best [] = best
last_element best (c ∷ s) = last_element (if c == b'/' then s else best) s

unfoldable pub ends_with : Bytes → Bytes → Bool
ends_with pattern p =
    leb (length pattern) (length p) && equal (drop (length p - length pattern) p) pattern

unfoldable pub match_last : Match → Bytes → Bool
unfolding ends_with
match_last m p =
    if m.prefix_singlestar
    then ends_with m.pattern p
    else if m.suffix_singlestar
    then (elim (strip_prefix m.pattern p) [ none ↦ false | some r ↦ true ])
    else equal p m.pattern

unfoldable pub match : Match → Bytes → Option Bool
unfolding match_last last_element begins_segment
match m path =
    if m.rooted
    then some (if m.suffix_doublestar then begins_segment m.pattern path else equal m.pattern path)
    else if m.suffix_doublestar
    then match_doublestar m.pattern path
    else some (match_last m (last_element path path))
