-- ===== src/Tar/FileName/Tests.antt =====
-- The name of a stored file, printed and parsed, and the round trip at it.
use beak.Prelude.{
  ◌-◌, ◌≤◌, ◌≡◌, refl, true, false, none, some, ◌++◌, ◌⊎◌, arith, Bytes, codes, length, at, equal,
}
use beak.Prelude.Words.{u32, sub32}
use beak.Prelude.Decimal.{to_decimal, digits_loop, number, is_digit}
use beak.Text.Hex.{is_hex, hex_digit, char2int, chars_only, digits_only, hex_digits_only}
use beak.Text.Names.{starts_with}
use beak.Match.{last_element}
use beak.Tar.Split.{index_file}
use beak.Tar.FileName.{
  TarFileName, new_tar_file_name, chartype, type_from_char, suffixtype, field, first_field, atol,
  strtol, hex_number, parse_file_name_version, parse_base_name, parse_file_name,
}
use beak.Tar.FileName.Printing.{
  pad, hex_loop, to_hexadecimal, width_loop, hex_padded, gmtime, strftime, base_name,
  write_tar_file_name,
}
use beak.Tar.FileName.Numbers.{all_hex}
use beak.Tar.FileName.RoundTrip.{IsNameable, restored, parse-write}

abbrev index : TarFileName
index = record {
  type = index_file;
  version = 2;
  sec = 1597335691;
  nsec = 456088000;
  size = 1536;
  ondisk_size = 2000;
  backup_size = 0;
  header_hash = codes "4626d1b7";
  part_nr = 0;
  num_parts = 1;
  old_style = false;
}

abbrev index_name : Bytes
index_name = codes "beak_z_1597335691.456088.2020-08-13.162131_4626d1b7_1-1_1536_2000.gz"

write_run : write_tar_file_name 1024 none index ≡ some index_name
unfolding write_tar_file_name base_name chartype to_decimal digits_loop pad strftime gmtime
    hex_padded width_loop to_hexadecimal hex_loop hex_digit u32 suffixtype
write_run = refl

parse_run : parse_file_name new_tar_file_name (codes "a/b/" ++ index_name) ≡ some index
unfolding parse_file_name last_element parse_base_name starts_with equal at type_from_char
    parse_file_name_version first_field field digits_only hex_digits_only chars_only is_digit is_hex
    atol strtol number hex_number char2int sub32 u32 suffixtype
parse_run = refl

parse_suffix_run :
    parse_file_name new_tar_file_name (codes "beak_z_1.456088_46_1-1_1536_2000.tar") ≡ none
unfolding parse_file_name last_element parse_base_name starts_with equal at type_from_char
    parse_file_name_version first_field field digits_only hex_digits_only chars_only is_digit is_hex
    atol strtol number hex_number char2int sub32 u32 suffixtype
parse_suffix_run = refl

index_hash : all_hex (codes "4626d1b7") ≡ true
unfolding all_hex is_hex is_digit
index_hash = refl

index-IsNameable : IsNameable index
index-IsNameable = record {
  sec_fits = omega arith;
  micros = refl;
  nsec_fits = omega arith;
  size_fits = omega arith;
  ondisk_fits = omega arith;
  hash_hex = index_hash;
  part_below = omega arith;
  few_parts = omega arith;
}

parse-write_example :
    (name : Bytes) × (write_tar_file_name 1024 (some (codes "backup")) index ≡ some name)
    × ((1024 - 1 ≤ length name)
        ⊎ (parse_file_name new_tar_file_name name ≡ some (restored index index-IsNameable)))
parse-write_example = parse-write index index-IsNameable 1024 (some (codes "backup"))
