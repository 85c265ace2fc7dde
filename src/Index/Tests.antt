-- ===== src/Index/Tests.antt =====
-- Runs of the index files' functions, and their theorems at concrete inputs.
use beak.Prelude.{equal, has_char, none, true, false, [], ◌∷◌, ◌++◌}
use beak.Prelude.{◌≡◌, ◌<◌, refl, some, Bytes, codes, at, inr, arith}
use beak.Prelude.Words.{add64, u32}
use beak.Prelude.Decimal.{to_decimal, digits_loop}
use beak.Text.Hex.{to_hex, hex_digit}
use beak.Text.Eating.{eat_to, eat_loop, stops, step_over, missed, is_end}
use beak.Tar.Split.{small_files_tar}
use beak.Tar.Parts.{part_content_size, disk_size}
use beak.Tar.FileName.{chartype, suffixtype}
use beak.Tar.FileName.Printing.{
  write_tar_file_name, base_name, pad, strftime, gmtime, hex_padded, width_loop, to_hexadecimal,
  hex_loop,
}
use beak.Index.Rows.{
  StoredTarFile, RowEntry, tar_text, is_dir_tar, tar_file_name, link_text, cook_entry,
}
use beak.Index.Rows.Eaten.{IndexEntry, got, stopped, eat_entry, take_field, go_on, read_link}
use beak.Prelude.{not}
use beak.Index.Permissions.{s_iflnk}
use beak.Index.Rows.Links.{read_link-link_text}
use beak.Index.Rows.RoundTrip.{IsIndexable, indexed, eat-cook}
use beak.Index.Permissions.{
  permission_string, type_char, is_kind, bit_char, exec_char, has_bit, string_to_permission,
  permission_bits, read_type, read_bit, read_exec,
}
use beak.Index.Permissions.Completed.{completed, HasType, string-permission_string}

-- A directory with the permissions 0755, and a regular file with 04644.
directory_run : permission_string 16877 ≡ some (codes "drwxr-xr-x")
unfolding permission_string type_char is_kind bit_char exec_char has_bit
directory_run = refl

setuid_run : permission_string 35236 ≡ some (codes "-rwsr--r--")
unfolding permission_string type_char is_kind bit_char exec_char has_bit
setuid_run = refl

file_run : string_to_permission (codes "-rw-r--r--") ≡ 33188
unfolding string_to_permission permission_bits read_type read_bit read_exec at
file_run = refl

file-HasType : HasType 33188
unfolding is_kind
file-HasType = (omega arith, inr (inr (inr (inr (inr (inr refl))))))

string-permission_string_example :
    (s : Bytes) × (permission_string 33188 ≡ some s)
    × (string_to_permission s ≡ completed 33188)
    × (0 < completed 33188)
string-permission_string_example = string-permission_string 33188 file-HasType

abbrev pub photo_tar : StoredTarFile
photo_tar = record {
  sizes = record {
    tar_contents = small_files_tar;
    content_size = 1536;
    num_parts = 1;
    part_size = 1536;
    last_part_size = 0;
    part_header_size = 0;
    ondisk_part_size = 2000;
    ondisk_last_part_size = 0;
  };
  mtim_sec = 1597335691;
  mtim_nsec = 456088000;
  sha256_hash = 70 ∷ 38 ∷ [];
}

abbrev pub photo : RowEntry
photo = record {
  st_mode = 33188;
  st_uid = 1000;
  st_gid = 100;
  st_size = 745;
  st_rdev = (0, 0);
  mtim_sec = 1597335690;
  mtim_nsec = 12;
  tarpath = codes "a/b.jpg";
  link = none;
  tar_file = photo_tar;
  tar_offset = 0;
  header_size = 512;
  meta_hash = 171 ∷ 205 ∷ [];
}

photo_tar_name :
    tar_text photo
    ≡ some (codes "beak_s_1597335691.456088.2020-08-13.162131_4626_1-1_1536_2000.tar")
unfolding tar_text is_dir_tar tar_file_name part_content_size disk_size write_tar_file_name
    base_name chartype to_decimal digits_loop pad strftime gmtime hex_padded width_loop
    to_hexadecimal hex_loop hex_digit u32 suffixtype to_hex
photo_tar_name = refl

pub photo-IsIndexable : IsIndexable photo
unfolding has_char link_text add64
photo-IsIndexable = record {
  typed = file-HasType;
  uid_fits = omega arith;
  gid_fits = omega arith;
  size_fits = omega arith;
  major_fits = omega arith;
  minor_fits = omega arith;
  sec_fits = omega arith;
  nsec_fits = omega arith;
  path_free = refl;
  path_fits = omega arith;
  link_free = refl;
  link_fits = omega arith;
  tar_name = codes "beak_s_1597335691.456088.2020-08-13.162131_4626_1-1_1536_2000.tar";
  named = photo_tar_name;
  name_free = refl;
  name_fits = omega arith;
  parts = record {
    some_parts = omega arith;
    parts_fit = omega arith;
    header_fits = omega arith;
    size_fits = omega arith;
    last_size_fits = omega arith;
    disk_fits = omega arith;
    last_disk_fits = omega arith;
  };
  offset_fits = omega arith;
  hash_fits = omega arith;
}

abbrev pub fresh : IndexEntry
fresh = record {
  st_mode = 0;
  st_uid = 0;
  st_gid = 0;
  st_rdev = (0, 0);
  st_size = 0;
  mtim_sec = 0;
  mtim_nsec = 0;
  offset = 0;
  tarr = [];
  path = [];
  link = [];
  is_sym_link = false;
  is_hard_link = false;
  num_parts = 0;
  part_offset = 0;
  part_size = 0;
  last_part_size = 0;
  ondisk_part_size = 0;
  ondisk_last_part_size = 0;
}

eat-cook_example :
    (row : Bytes) × (cook_entry (codes "head") photo ≡ some (codes "head" ++ row))
    × (eat_entry none (some (codes "safe")) fresh (row ++ codes "rest")
        ≡ got
            (indexed photo photo-IsIndexable none (some (codes "safe")) fresh)
            (codes "rest")
            (is_end (codes "rest")))
eat-cook_example =
    eat-cook photo photo-IsIndexable none (some (codes "safe")) fresh (codes "head") (codes "rest")

-- A row that stops after the permissions is an error.
short_run : eat_entry none none fresh (codes "-rw-r--r--") ≡ stopped true true
unfolding eat_entry take_field go_on eat_to eat_loop stops step_over missed is_end
short_run = refl

-- The link of a hard link and of a symbolic one.
hard_link_run : (read_link fresh (codes " link to a/b")).is_hard_link ≡ true
unfolding read_link equal
hard_link_run = refl

abbrev photo_link : RowEntry
photo_link = record photo { link = some (codes "a/b") }

read_link-link_text_example : read_link fresh (link_text photo_link) ≡ record fresh {
  link = codes "a/b";
  st_size = 3;
  is_sym_link = is_kind s_iflnk 33188;
  is_hard_link = not (is_kind s_iflnk 33188);
}
read_link-link_text_example = read_link-link_text fresh photo_link (codes "a/b") refl (omega arith)
