-- ===== src/Match/Tests.antt =====
-- Runs of the pattern matching, and its theorem at concrete inputs.
use beak.Prelude.{
  ◌≡◌, refl, Bool, true, false, Option, none, some, Bytes, codes, has_char, at, equal, strip_prefix,
  ◌>>=◌,
}
use beak.Match.{
  Match, use_pattern, match, cut_end, ends_in_doublestar, has_star_or_slash, begins_segment,
  segment_ends, strstr, doublestar_loop, match_doublestar, last_element, ends_with, match_last,
}
use beak.Match.Spec.{IsMatch}
use beak.Match.Correct.{Answers, match-Answers}

abbrev run : Bytes → Bytes → Option Bool
run pattern path = use_pattern pattern >>= λ m. match m path

suffix_run : run (codes "*.mp3") (codes "/music/a.mp3") ≡ some true
unfolding use_pattern match cut_end ends_in_doublestar has_star_or_slash last_element ends_with
    match_last has_char at equal
suffix_run = refl

below_run : run (codes "cache/**") (codes "/home/cachex/cache/f") ≡ some true
unfolding use_pattern match cut_end ends_in_doublestar has_star_or_slash has_char at
    match_doublestar doublestar_loop strstr begins_segment segment_ends strip_prefix
below_run = refl

two_stars_run : use_pattern (codes "a*/**") ≡ none
unfolding use_pattern cut_end ends_in_doublestar has_star_or_slash has_char at
two_stars_run = refl

abbrev mp3 : Match
mp3 = record {
  pattern = codes ".mp3";
  rooted = false;
  suffix_doublestar = false;
  suffix_singlestar = false;
  prefix_singlestar = true;
}

match-Answers_example :
    Answers (IsMatch mp3 (codes "/music/a.mp3")) (match mp3 (codes "/music/a.mp3"))
match-Answers_example = match-Answers mp3 (codes "/music/a.mp3")
