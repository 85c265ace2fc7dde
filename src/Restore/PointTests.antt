-- ===== src/Restore/PointTests.antt =====
-- Two points in time, listed and chosen, and the theorem at them.
use beak.Prelude.{ℕ, ◌≡◌, refl, some, [], ◌∷◌, arith, String, Bytes, codes, at, equal}
use beak.Prelude.Words.{u32, sub32}
use beak.Prelude.Decimal.{to_decimal, digits_loop, number, is_digit, all_digits}
use beak.Text.Hex.{is_hex, char2int, chars_only, digits_only, hex_digits_only}
use beak.Text.Names.{starts_with}
use beak.Match.{last_element}
use beak.Tar.Split.{is_index}
use beak.Tar.FileName.{
  type_from_char, suffixtype, field, first_field, atol, strtol, hex_number, parse_file_name_version,
  parse_base_name, parse_file_name,
}
use beak.Index.Rows.Eaten.{atoi, signed_number, leading, skip_space}
use beak.Restore.Points.{
  PointInTime, relative_point, absolute_point, earlier, insert_point, sort_points, entry_name,
  count, name_points, find_point_in_time, new_point, index_points, look_for_points_in_time,
  nth_point, as_size, set_point_in_time,
}
use beak.Restore.Points.Listing.{find_point_in_time-direntry}
use beak.Restore.Points.Choice.{IsPlaced, set_point_in_time-IsPlaced}

abbrev newer_name : Bytes
newer_name = codes "beak_z_1597335691.456088.2020-08-13.162131_4626d1b7_1-1_1536_2000.gz"

abbrev older_name : Bytes
older_name = codes "beak_z_1597335600.000000.2020-08-13.162000_4626d1b8_1-1_1536_2000.gz"

abbrev an_age : ℕ → ℕ → Bytes
an_age sec nsec = codes "ago"

abbrev a_minute : ℕ → Bytes
a_minute sec = codes "20200813_1821"

abbrev point : ℕ → ℕ → ℕ → String → Bytes → PointInTime
point i sec nsec entry name = record {
  key = i;
  sec = sec;
  nsec = nsec;
  ago = codes "ago";
  datetime = codes "20200813_1821";
  direntry = codes entry;
  filename = name;
}

abbrev older : PointInTime
older = point 0 1597335600 0 "@0 ago" older_name

abbrev newer : PointInTime
newer = point 1 1597335691 456088000 "@1 ago" newer_name

look_for_points_in_time_run :
    look_for_points_in_time an_age a_minute relative_point
      (some (newer_name ∷ codes "note.txt" ∷ older_name ∷ []))
    ≡ some (older ∷ newer ∷ [])
unfolding look_for_points_in_time index_points new_point sort_points insert_point earlier
    name_points entry_name count to_decimal digits_loop parse_file_name last_element parse_base_name
    starts_with equal at type_from_char parse_file_name_version first_field field digits_only
    hex_digits_only chars_only is_digit is_hex atol strtol number hex_number char2int sub32 u32
    suffixtype is_index
look_for_points_in_time_run = refl

-- The number of the entry of a directory counts from the oldest, the number of the command line
-- from the newest.
find_point_in_time_run : find_point_in_time (codes "@0 ago") (older ∷ newer ∷ []) ≡ some older
unfolding find_point_in_time equal
find_point_in_time_run = refl

set_point_in_time_run : set_point_in_time (codes "@0") (older ∷ newer ∷ []) ≡ some (some newer)
unfolding set_point_in_time at all_digits is_digit as_size atoi atol signed_number leading
    skip_space u32 nth_point
set_point_in_time_run = refl

-- The third of three points of one minute gets the name of the second.
name_points_run :
    name_points absolute_point 0 [] (point 0 1 0 "" [] ∷ point 0 2 0 "" [] ∷ point 0 3 0 "" [] ∷ [])
    ≡ point 0 1 0 "20200813_1821" []
      ∷ point 1 2 0 "20200813_1821_1" []
      ∷ point 2 3 0 "20200813_1821_1" []
      ∷ []
unfolding name_points entry_name count equal to_decimal digits_loop
name_points_run = refl

set_point_in_time-IsPlaced_example :
    (p : PointInTime) × (set_point_in_time (b'@' ∷ to_decimal 0) (older ∷ newer ∷ [])
      ≡ some (some p))
    × IsPlaced 0 p (older ∷ newer ∷ [])
set_point_in_time-IsPlaced_example =
    set_point_in_time-IsPlaced an_age a_minute relative_point
      (some (newer_name ∷ codes "note.txt" ∷ older_name ∷ [])) (older ∷ newer ∷ []) 0
      look_for_points_in_time_run (omega arith) (omega arith)

newest_run : nth_point 1 (older ∷ newer ∷ []) ≡ some newer
unfolding nth_point
newest_run = refl

find_point_in_time-direntry_example :
    find_point_in_time (codes "@1 ago") (older ∷ newer ∷ []) ≡ some newer
find_point_in_time-direntry_example =
    find_point_in_time-direntry an_age a_minute relative_point
      (some (newer_name ∷ codes "note.txt" ∷ older_name ∷ [])) (older ∷ newer ∷ []) 1 newer tt
      look_for_points_in_time_run newest_run
