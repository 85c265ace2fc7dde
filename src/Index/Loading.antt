-- ===== src/Index/Loading.antt =====
-- src/index.cc: Index::loadIndex, which reads an index file back. The calls of on_entry and on_tar
-- are the entries and the tars in their order. SHA-256 is a parameter. A number read with "%d" is
-- the 32-bit word of its int.
pub mod Scan
pub mod Tars
pub mod Result
pub mod Numbers
pub mod Lines
pub mod Stable
pub mod Rests
pub mod Checked
use beak.Prelude.{
  ℕ, zero, suc, ◌+◌, ◌-◌, ◌*◌, ◌^◌, Bool, true, false, not, ◌||◌, Option, none, some, List, [], ◌∷◌,
  ◌++◌, ltb, ◌==◌, if◌then◌else◌, ◌>>=◌, Bytes, codes, length, take, drop, equal,
}
use beak.Text.Eating.{eat_to, is_end}
use beak.Text.Names.{starts_with}
use beak.Index.Rows.Eaten.{IndexEntry, got, stopped, eat_entry}
use beak.Index.Loading.Scan.{scan_int, scan_size, scan_counted}

-- What the first lines say.
pub record Header : Type 0 where
  pub config : Bytes
  pub size : ℕ
  pub num_files : ℕ

-- What a line of the header leads to: the next one, the entries, or RC::ERR.
pub data Line : Type 0 where
  next last : Header → Line
  bad : Line

unfoldable pub is_ignored : Bytes → Bool
unfolding starts_with
is_ignored line =
    starts_with line (codes "#filecolumns ")
    || (starts_with line (codes "#uids ")
        || (starts_with line (codes "#gids ") || starts_with line (codes "#delta ")))

unfoldable pub read_line : Header → Bytes → Line
unfolding starts_with scan_size scan_int is_ignored
read_line h line =
    if starts_with line (codes "#config ")
    then next (record h { config = drop 8 line })
    else if starts_with line (codes "#size ")
    then (elim (scan_size (drop 5 line)) [ none ↦ bad | some n ↦ next (record h { size = n }) ])
    else if is_ignored line
    then next h
    else if starts_with line (codes "#files ")
    then (elim (scan_int (drop 6 line)) [ none ↦ bad | some n ↦ last (record h { num_files = n }) ])
    else next h

-- The lines up to the number of files. A line that is read is not empty with its end, so that the
-- fuel of the text's length is enough.
unfoldable pub read_lines : ℕ → Header → Bytes → Option Header
unfolding eat_to read_line
read_lines zero h data_ = none
read_lines (suc fuel) h data_ =
    let e = eat_to data_ (some b'\n') 1024 in
    if e.err then none else elim (read_line h e.text) [
      | next h1 ↦ read_lines fuel h1 e.rest
      | last h1 ↦ some h1
      | bad ↦ none
    ]

abbrev pub header_max : ℕ
header_max = 30 * 1024 * 1024

-- The text of the version, and the lines behind it; `rest` follows the header.
unfoldable pub read_version : ℕ → Bytes → Bytes → Bytes → Option (Header × Bytes)
unfolding starts_with equal read_lines
read_version size rest type data_ =
    if not (starts_with type (codes "#beak "))
    then none
    else if not (equal (drop 6 type) (codes "0.9"))
    then none
    else (read_lines (suc (length data_)) (record { config = []; size = size; num_files = 0 }) data_
        >>= λ h. some (h, rest))

unfoldable pub read_data : ℕ → Bytes → Bytes → Option (Header × Bytes)
unfolding eat_to read_version
read_data size rest data_ =
    let type = eat_to data_ (some b'\n') 64 in read_version size rest type.text type.rest

-- The header, and what follows it. The error of the first eatTo is not looked at.
unfoldable pub read_header : ℕ → Bytes → Option (Header × Bytes)
unfolding eat_to read_data
read_header size v =
    let header = eat_to v (some 0) header_max in read_data size header.rest header.text

-- The calls of on_entry, the number of files that are left, and the iterator.
pub record LoadedFiles : Type 0 where
  pub entries : List IndexEntry
  pub left : ℕ
  pub rest : Bytes

unfoldable pub load_files :
    Option Bytes → Option Bytes → ℕ → IndexEntry → Bytes → Bool → LoadedFiles
unfolding is_end eat_entry
load_files dir safedir zero ie v eof = record { entries = []; left = 0; rest = v }
load_files dir safedir (suc num_files) ie v eof =
    if is_end v || eof
    then record { entries = []; left = suc num_files; rest = v }
    else elim (eat_entry dir safedir ie v) [
      | got e rest end ↦
          let r = load_files dir safedir num_files e rest end in
          record { entries = e ∷ r.entries; left = r.left; rest = r.rest }
      | stopped err end ↦ record { entries = []; left = suc num_files; rest = v }
    ]

-- The names of the parts: how many are left, and the iterator.
unfoldable pub load_parts : ℕ → Bytes → ℕ × Bytes
unfolding is_end eat_to
load_parts zero v = (0, v)
load_parts (suc num_parts) v =
    let name = eat_to v (some 0) 4096 in
    if is_end v || name.err then (suc num_parts, v) else load_parts num_parts name.rest
