-- ===== src/Tar/FileName.antt =====
-- src/tarfile.h and src/tarfile.cc: TarFileName, the names of the stored files, and their parsing.
-- The positions that the parser finds in the name are kept as the texts between them. `none` of the
-- parser is the code's false; `none` of the printer is an assertion that fails.
pub mod Printing
pub mod Numbers
pub mod Fields
pub mod Values
pub mod RoundTrip
mod Tests
use beak.Prelude.{
  ℕ, zero, suc, ◌+◌, ◌-◌, ◌*◌, ◌/◌, ◌%◌, ◌^◌, min, Bool, true, false, not, ◌&&◌, Option, none, some,
  List, [], ◌∷◌, ◌++◌, ltb, leb, ◌==◌, if◌then◌else◌, ◌>>=◌, ◌>>◌, guard, Bytes, codes, length,
  take, drop, at, equal,
}
use beak.Prelude.Words.{u32, sub32}
use beak.Prelude.Decimal.{to_decimal, number}
use beak.Text.Hex.{hex_digit, char2int, digits_only, hex_digits_only}
use beak.Text.Names.{starts_with}
use beak.Match.{last_element}
use beak.Tar.Split.{
  TarContents, index_file, dir_tar, small_files_tar, medium_files_tar, single_large_file_tar,
  split_large_file_tar, content_split_large_file_tar,
}

pub record TarFileName : Type 0 where
  pub type : TarContents
  pub version : ℕ
  pub sec : ℕ
  pub nsec : ℕ
  pub size : ℕ
  pub ondisk_size : ℕ
  pub backup_size : ℕ
  pub header_hash : Bytes
  pub part_nr : ℕ
  pub num_parts : ℕ
  pub old_style : Bool

abbrev pub new_tar_file_name : TarFileName
new_tar_file_name = record {
  type = index_file;
  version = 2;
  sec = 0;
  nsec = 0;
  size = 0;
  ondisk_size = 0;
  backup_size = 0;
  header_hash = [];
  part_nr = 0;
  num_parts = 0;
  old_style = false;
}

unfoldable pub chartype : TarContents → ℕ
chartype index_file = b'z'
chartype dir_tar = b'y'
chartype small_files_tar = b's'
chartype medium_files_tar = b'm'
chartype single_large_file_tar = b'l'
chartype split_large_file_tar = b'i'
chartype content_split_large_file_tar = b'c'

unfoldable pub type_from_char : ℕ → Option TarContents
type_from_char c =
    if c == b'z'
    then some index_file
    else if c == b'y'
    then some dir_tar
    else if c == b's'
    then some small_files_tar
    else if c == b'm'
    then some medium_files_tar
    else if c == b'l'
    then some single_large_file_tar
    else if c == b'i'
    then some split_large_file_tar
    else if c == b'c'
    then some content_split_large_file_tar
    else none

unfoldable pub suffixtype : TarContents → Bytes
suffixtype index_file = codes "gz"
suffixtype dir_tar = codes "tar"
suffixtype small_files_tar = codes "tar"
suffixtype medium_files_tar = codes "tar"
suffixtype single_large_file_tar = codes "tar"
suffixtype split_large_file_tar = codes "tar"
suffixtype content_split_large_file_tar = codes "bin"

-- name.find(c, from): what stands before the character, and what stands behind it.
unfoldable pub field : ℕ → Bytes → Option (Bytes × Bytes)
field c [] = none
field c (x ∷ s) =
    let rest = field c s in if x == c then some ([], s) else (rest >>= λ r. some (x ∷ r.0, r.1))

-- The search for the first dot starts one character later.
unfoldable pub first_field : Bytes → Option (Bytes × Bytes)
unfolding field
first_field [] = none
first_field (x ∷ s) = field b'.' s >>= λ r. some (x ∷ r.0, r.1)

-- atol and strtol of digits; they stop at the largest long.
abbrev pub long_max : ℕ
long_max = 2 ^ 63 - 1

unfoldable pub atol : Bytes → ℕ
unfolding number
atol s = min (number 0 s) long_max

unfoldable pub hex_number : ℕ → Bytes → ℕ
hex_number acc [] = acc
hex_number acc (c ∷ s) = hex_number (elim (char2int c) [ none ↦ acc | some d ↦ acc * 16 + d ]) s

unfoldable pub strtol : Bytes → ℕ
unfolding hex_number
strtol s = min (hex_number 0 s) long_max

unfoldable pub parse_file_name_version : TarFileName → Bytes → Option TarFileName
unfolding first_field field digits_only hex_digits_only atol strtol sub32 u32 suffixtype
parse_file_name_version t name = do
  f1 ← first_field name
  f2 ← field b'_' f1.1
  f3 ← field b'_' f2.1
  f4 ← field b'-' f3.1
  f5 ← field b'_' f4.1
  f6 ← field b'_' f5.1
  f7 ← field b'.' f6.1
  secss ← digits_only (length f1.0) f1.0
  let len = length f2.0
  guard (not (ltb len 6))
  usecss ← digits_only 6 f2.0
  hash ← hex_digits_only (length f3.0) f3.0
  partnrs ← hex_digits_only (length f4.0) f4.0
  numparts ← hex_digits_only (length f5.0) f5.0
  sizes ← digits_only (length f6.0) f6.0
  ondisk_sizes ← digits_only (length f7.0) f7.0
  guard (equal (suffixtype t.type) f7.1)
  some (record {
    type = t.type;
    version = t.version;
    sec = atol secss;
    nsec = 1000 * atol usecss;
    size = atol sizes;
    ondisk_size = atol ondisk_sizes;
    backup_size = t.backup_size;
    header_hash = t.header_hash ++ hash;
    part_nr = sub32 (u32 (strtol partnrs)) 1;
    num_parts = u32 (strtol numparts);
    old_style = if len == 6 then true else t.old_style;
  })

-- The type is set on the given name, whatever it holds.
abbrev set_type : TarContents → TarFileName → TarFileName
set_type c t = record {
  type = c;
  version = t.version;
  sec = t.sec;
  nsec = t.nsec;
  size = t.size;
  ondisk_size = t.ondisk_size;
  backup_size = t.backup_size;
  header_hash = t.header_hash;
  part_nr = t.part_nr;
  num_parts = t.num_parts;
  old_style = t.old_style;
}

-- The text from the last slash on is looked at.
unfoldable pub parse_base_name : TarFileName → Bytes → Option TarFileName
unfolding starts_with at type_from_char parse_file_name_version
parse_base_name t base = do
  let prefix = take 7 base
  guard (starts_with prefix (codes "beak_"))
  guard (at prefix 6 == b'_')
  type ← type_from_char (at prefix 5)
  parse_file_name_version (set_type type t) (drop 7 base)

unfoldable pub parse_file_name : TarFileName → Bytes → Option TarFileName
unfolding last_element parse_base_name
parse_file_name t name =
    guard (not (length name == 0)) >> parse_base_name t (last_element name name)
