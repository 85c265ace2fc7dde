-- ===== src/Text/Tests.antt =====
-- Runs of the text functions, and their theorems at concrete inputs.
use beak.Prelude.{◌≡◌, refl, ◌↔◌, false, none, some, arith, Bytes, codes, has_char, equal, at, All}
use beak.Prelude.Words.{mul64}
use beak.Prelude.Decimal.{to_decimal, digits_loop, is_digit, all_digits, number}
use beak.Prelude.Integers.{pos, negsuc}
use beak.Text.Sizes.{helper, human_readable_two_decimals}
use beak.Text.Eating.{
  eat_to, eat_loop, step_over, missed, stops, is_end, eat_to_skip_whitespace, eat_whitespace,
  trim_whitespace, trim_end, is_blank,
}
use beak.Text.Lengths.{
  get_length_of_time, parse_length_of_time, parse_length-get_length, unit_length,
}
use beak.Text.Zones.{
  get_time_zone_offset_as_string, zone_digits, get_time_zone-IsPrinted, IsPrinted, magnitude,
}
use beak.Text.Names.{
  make_safe_directory, make_safe_directory-IsSafe, IsSafe, safe_char, is_forbidden, hex_upper,
  count_newlines, count_loop,
}

-- A kibibyte short of two is shown with three decimals.
two_decimals_run : human_readable_two_decimals 2047 ≡ codes "1.100 KiB"
unfolding human_readable_two_decimals helper to_decimal digits_loop
two_decimals_run = refl

two_decimals_run_less : human_readable_two_decimals 2040 ≡ codes "1.99 KiB"
unfolding human_readable_two_decimals helper to_decimal digits_loop
two_decimals_run_less = refl

safe_run : make_safe_directory (codes "/a b:c") ≡ codes "_a~b%3Ac"
unfolding make_safe_directory safe_char is_forbidden hex_upper
safe_run = refl

newlines_run : count_newlines (codes "a\nbc\nd") ≡ (2, 4)
unfolding count_newlines count_loop
newlines_run = refl

skip_run :
    eat_to_skip_whitespace (codes "  key = value") (some b'=') 64 false
    ≡ record { text = codes "key"; rest = codes " value"; eof = false; err = false }
unfolding eat_to_skip_whitespace eat_to eat_whitespace trim_whitespace trim_end is_blank eat_loop
    step_over missed stops is_end
skip_run = refl

-- Half past five hours is no offset that can be printed.
half_hour_run : get_time_zone_offset_as_string (pos 19800) ≡ none
unfolding get_time_zone_offset_as_string zone_digits
half_hour_run = refl

hour_run : get_time_zone_offset_as_string (negsuc 7199) ≡ some (codes "-0200")
unfolding get_time_zone_offset_as_string zone_digits
hour_run = refl

length_run : parse_length_of_time (codes "2w") ≡ some 1209600
unfolding parse_length_of_time unit_length all_digits is_digit number mul64 equal at
length_run = refl

no_colon : has_char (codes "ab") b':' ≡ false
unfolding has_char
no_colon = refl

parse_length-get_length_example : parse_length_of_time (get_length_of_time 1209600) ≡ some 1209600
parse_length-get_length_example = parse_length-get_length 1209600 (omega arith) (omega arith) refl

get_time_zone-IsPrinted_example :
    ((s : Bytes) × (get_time_zone_offset_as_string (pos 19800) ≡ some s))
    ↔ IsPrinted (magnitude (pos 19800))
get_time_zone-IsPrinted_example = get_time_zone-IsPrinted (pos 19800)

make_safe_directory-IsSafe_example : All IsSafe (make_safe_directory (codes "/a"))
make_safe_directory-IsSafe_example =
    make_safe_directory-IsSafe (codes "/a") (omega arith, (omega arith, tt))
