-- ===== src/Restore/Tests.antt =====
-- A file in four parts, the reads of it, and the theorems at it.
use beak.Prelude.{
  ℕ, zero, suc, ◌+◌, ◌*◌, ◌%◌, ◌<◌, ◌≡◌, ◌∙◌, refl, sym, false, none, some, [], ◌∷◌, ◌++◌, arith,
  some_inj, Bytes, codes, drop, String, at, equal,
}
use beak.Prelude.Words.{u32, add64, sub64, mul64, sub32}
use beak.Prelude.Decimal.{to_decimal, digits_loop, number, is_digit}
use beak.Prelude.Integers.{pos}
use beak.Text.Hex.{is_hex, hex_digit, char2int, chars_only, digits_only, hex_digits_only}
use beak.Text.Names.{starts_with}
use beak.Match.{last_element}
use beak.FileSystem.Paths.{lookup, parent, prepend_path, dirname, drop_back, last_slash}
use beak.Tar.Split.{split_large_file_tar}
use beak.Tar.FileName.{
  TarFileName, new_tar_file_name, chartype, type_from_char, suffixtype, field, first_field, atol,
  strtol, hex_number, parse_file_name_version, parse_base_name, parse_file_name,
}
use beak.Tar.FileName.Printing.{
  pad, hex_loop, to_hexadecimal, width_loop, hex_padded, gmtime, strftime, base_name,
  write_tar_file_name,
}
use beak.Tar.Parts.{PartSizes, calculate_origin_tar_offset}
use beak.Tar.Parts.Origin.{IsSplitFile, IsDataOffset, origin_exact}
use beak.Restore.{
  RestoreEntry, Pread, find_part_containing_offset, length_of_part, content_size, disk_size,
  part_file, read_entry,
}
use beak.Restore.Parts.{HasSizes, find_part_containing_offset_origin}
use beak.Restore.Reading.{bytes_from}
use beak.Restore.Contents.{PartsAreThere, read_entry_contents}

abbrev four_parts : PartSizes
four_parts = record {
  tar_contents = split_large_file_tar;
  content_size = 7168;
  num_parts = 4;
  part_size = 2560;
  last_part_size = 1024;
  part_header_size = 512;
  ondisk_part_size = 2560;
  ondisk_last_part_size = 1024;
}

four_parts-IsSplitFile : IsSplitFile four_parts
four_parts-IsSplitFile = omega arith

abbrev part_name : String → Bytes
part_name s = codes "/store/beak_i_1597335691.456088.2020-08-13.162131_4626d1b7_" ++ codes s

abbrev film : RestoreEntry
film = record {
  st_mode = 33188;
  st_uid = 1000;
  st_gid = 1000;
  st_rdev = (0, 0);
  st_size = 6600;
  mtim_sec = 1597335691;
  mtim_nsec = 456088000;
  path = codes "/film";
  tarr = drop 7 (part_name "1-4_2560_2560.tar");
  is_sym_link = false;
  symlink = [];
  offset = 512;
  num_parts = 4;
  part_offset = 512;
  part_size = 2560;
  last_part_size = 1024;
  ondisk_part_size = 2560;
  ondisk_last_part_size = 1024;
}

film-HasSizes : HasSizes film four_parts
film-HasSizes = omega arith

abbrev stored : TarFileName
stored = record {
  type = split_large_file_tar;
  version = 2;
  sec = 1597335691;
  nsec = 456088000;
  size = 2560;
  ondisk_size = 2560;
  backup_size = 0;
  header_hash = codes "4626d1b7";
  part_nr = 0;
  num_parts = 4;
  old_style = false;
}

find_run : find_part_containing_offset film 5632 ≡ some (2, 1536)
unfolding find_part_containing_offset sub64 mul64 add64 u32
find_run = refl

find_part_containing_offset_origin_example :
    (k : ℕ) × (offset : ℕ) × (find_part_containing_offset film 5632 ≡ some (k, offset))
    × IsDataOffset four_parts k offset
    × (offset < length_of_part film k)
    × (calculate_origin_tar_offset four_parts k offset ≡ some 5632)
find_part_containing_offset_origin_example =
    find_part_containing_offset_origin film four_parts 5632 four_parts-IsSplitFile film-HasSizes
      (omega arith)

-- The number of the part in the name of its file.
unfoldable part_number : Bytes → ℕ
unfolding parse_file_name last_element parse_base_name starts_with equal at type_from_char
    parse_file_name_version first_field field digits_only hex_digits_only chars_only is_digit is_hex
    atol strtol number hex_number char2int sub32 u32 suffixtype
part_number name = elim (parse_file_name new_tar_file_name name) [ none ↦ 0 | some t ↦ t.part_nr ]

abbrev tar_byte : ℕ → ℕ
tar_byte i = i % 251

-- A disk that holds the four parts.
abbrev disk : Pread
disk file buffer amount offset = (
  pos amount,
  bytes_from tar_byte (offset + part_number file * 2048) amount ++ drop amount buffer,
)

named :
    (k : ℕ)
    → k < 4
    → (file : Bytes) × (part_file (codes "/store") film stored k ≡ some file)
      × (part_number file ≡ k)
unfolding part_file parent prepend_path dirname drop_back last_slash lookup content_size disk_size
    write_tar_file_name base_name chartype to_decimal digits_loop pad strftime gmtime hex_padded
    width_loop to_hexadecimal hex_loop hex_digit u32 suffixtype sub32 part_number at
named zero h = (part_name "1-4_2560_2560.tar", refl, refl)
named (suc zero) h = (part_name "2-4_2560_2560.tar", refl, refl)
named (suc (suc zero)) h = (part_name "3-4_2560_2560.tar", refl, refl)
named (suc (suc (suc zero))) h = (part_name "4-4_1024_1024.tar", refl, refl)
named (suc (suc (suc (suc k)))) h = absurd (omega arith)

disk-PartsAreThere : PartsAreThere disk (codes "/store") film stored four_parts tar_byte
disk-PartsAreThere k offset amount origin buffer holds some_left inside small at_origin =
    let (file, is_file, is_part) = named k holds.2 in
    let exact =
      origin_exact four_parts k offset four_parts-IsSplitFile holds.2 holds.3 (omega arith) in
    let same : offset + k * 2048 ≡ origin = some_inj (sym exact ∙ at_origin) in
    (file, is_file, rw (is_part, same) refl)

film_named :
    parse_file_name new_tar_file_name (prepend_path (codes "/store") film.tarr) ≡ some stored
unfolding parse_file_name last_element parse_base_name starts_with equal at type_from_char
    parse_file_name_version first_field field digits_only hex_digits_only chars_only is_digit is_hex
    atol strtol number hex_number char2int sub32 u32 suffixtype prepend_path lookup drop_back
film_named = refl

-- Four bytes over the end of the first part.
read_entry_contents_example :
    read_entry disk (codes "/store") film (0 ∷ 0 ∷ 0 ∷ 0 ∷ 0 ∷ []) 4 2046
    ≡ some (pos 4, bytes_from tar_byte 2558 4 ++ (0 ∷ []))
read_entry_contents_example =
    read_entry_contents disk (codes "/store") film stored four_parts tar_byte
      (0 ∷ 0 ∷ 0 ∷ 0 ∷ 0 ∷ []) 4 2046 four_parts-IsSplitFile film-HasSizes disk-PartsAreThere
      film_named (omega arith) (omega arith) (omega arith)
