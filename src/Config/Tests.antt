-- ===== src/Config/Tests.antt =====
-- Runs of the configuration's functions, and their theorems at concrete inputs.
use beak.Prelude.{
  ℕ, ◌*◌, ◌≡◌, refl, Bool, true, false, none, some, List, [], ◌∷◌, inl, arith, codes, equal, at,
}
use beak.Prelude.Words.{add64}
use beak.Prelude.Decimal.{to_decimal, digits_loop}
use beak.Prelude.Maps.{Map, get, put}
use beak.Text.Lengths.{get_length_of_time}
use beak.FileSystem.Paths.{drop_back}
use beak.Prune.{
  Keep, PruneImplementation, new_prune, add_points, add_point_in_time, prune,
  to_month_identifier_since_epoch, to_weeks_since_epoch, to_days_since_epoch, nanos,
}
use beak.Config.Keeps.{parse_keep, parse_loop, keep_text, key_text, subset_of}
use beak.Config.Keeps.RoundTrip.{parse_keep-keep_text}
use beak.Config.Keeps.Subset.{subset_of-prune}

abbrev day : ℕ
day = 3600 * 24

abbrev usual : Keep
usual = record { all = 2 * day; daily = 0; weekly = 70 * day; monthly = 366 * day }

keep_run : keep_text usual ≡ codes "all:2d weekly:10w monthly:1y"
unfolding keep_text key_text drop_back get_length_of_time to_decimal digits_loop
keep_run = refl

parse_keep-keep_text_example : parse_keep (keep_text usual) ≡ some usual
parse_keep-keep_text_example =
    parse_keep-keep_text usual (omega arith, refl) (omega arith, refl) (omega arith, refl)
      (omega arith, refl) (inl (omega arith))

-- A rule that keeps nothing is printed as an empty text, which is not a rule.
nothing_run : parse_keep [] ≡ none
unfolding parse_keep
nothing_run = refl

-- The keys come in their order.
order_run : parse_keep (codes "weekly:2w all:2d") ≡ none
unfolding parse_keep parse_loop equal at
order_run = refl

abbrev short_rule : Keep
short_rule = record { all = 0; daily = 0; weekly = 30 * day; monthly = 0 }

abbrev long_rule : Keep
long_rule = record { all = 0; daily = day * 2; weekly = 30 * day; monthly = 0 }

abbrev at_day : ℕ → ℕ
at_day n = n * day * nanos

abbrev history : List ℕ
history = at_day 17866 ∷ at_day 17867 ∷ at_day 17868 ∷ []

abbrev short_answer : Map Bool
short_answer = (at_day 17866, false) ∷ (at_day 17867, true) ∷ (at_day 17868, true) ∷ []

short_run :
    (s : PruneImplementation) × (add_points (new_prune (at_day 17869) short_rule) history ≡ some s)
    × (prune s ≡ some short_answer)
unfolding add_points add_point_in_time new_prune prune put to_month_identifier_since_epoch
    to_weeks_since_epoch to_days_since_epoch add64
short_run = (_, refl, refl)

long_run :
    (s : PruneImplementation) × (add_points (new_prune (at_day 17869) long_rule) history ≡ some s)
    × (prune s ≡ some short_answer)
unfolding add_points add_point_in_time new_prune prune put to_month_identifier_since_epoch
    to_weeks_since_epoch to_days_since_epoch add64
long_run = (_, refl, refl)

short_kept : get (at_day 17867) short_answer ≡ some true
unfolding get
short_kept = refl

shorter : subset_of short_rule long_rule ≡ true
unfolding subset_of
shorter = refl

subset_of-prune_example : get (at_day 17867) short_answer ≡ some true
subset_of-prune_example =
    subset_of-prune (at_day 17869) short_rule long_rule (at_day 17866)
      (at_day 17867 ∷ at_day 17868 ∷ []) short_run.0 long_run.0 short_answer short_answer
      (at_day 17867) shorter (omega arith) (short_run.1, short_run.2) (long_run.1, long_run.2)
      short_kept
