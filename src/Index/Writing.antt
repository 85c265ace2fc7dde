-- ===== src/Index/Writing.antt =====
-- src/backup.cc: the contents of an index file, as the backup writes them for one of its storage
-- directories. A tar file stands with the entry that it belongs to; the paths of that entry are
-- those below the storage directory. `none` is an assertion that fails.
pub mod Header
pub mod Files
pub mod Tars
pub mod Singles
pub mod PartNames
pub mod Ranges
pub mod End
pub mod RoundTrip
use beak.Prelude.{
  ℕ, zero, suc, ◌+◌, ◌-◌, Bool, true, false, Option, none, some, List, [], ◌∷◌, ◌++◌, ltb, ◌==◌,
  if◌then◌else◌, ◌>>=◌, Bytes, codes, length, drop, at,
}
use beak.Prelude.Words.{add64, sub32}
use beak.Prelude.Decimal.{to_decimal}
use beak.Text.Hex.{to_hex}
use beak.Tar.Split.{TarContents, content_split_large_file_tar}
use beak.Tar.FileName.Printing.{write_tar_file_name}
use beak.Index.Rows.{StoredTarFile, RowEntry, tar_file_name, cook_entry}
use beak.Index.Loading.Tars.{drop_front_slash}

pub record StoredTar : Type 0 where
  pub path : Bytes
  pub safepath : Bytes
  pub file : StoredTarFile
  pub single_content : Bytes

pub record IndexContents : Type 0 where
  pub config : Bytes
  pub uids : List ℕ
  pub gids : List ℕ
  pub entries : List RowEntry
  pub tars : List StoredTar

unfoldable pub backup_size : List StoredTar → ℕ → ℕ
unfolding add64
backup_size [] size = size
backup_size (t ∷ ts) size = backup_size ts (add64 size t.file.sizes.content_size)

unfoldable pub spaced : List ℕ → Bytes
unfolding to_decimal
spaced [] = []
spaced (x ∷ xs) = b' ' ∷ (to_decimal x ++ spaced xs)

abbrev pub cook_columns : Bytes
cook_columns =
    codes "with 11 columns: permissions acl uid/gid size mtime path link tarfile_nr offset "
    ++ codes "multipart(num,partoffset,size,last_size,disksize,last_disksize) path_size_mtime_hash "

-- A line of the header: its key, and what it says.
abbrev pub line : Bytes → Bytes → Bytes
line key text = key ++ (text ++ codes "\n")

unfoldable pub header_text : IndexContents → Bytes
unfolding backup_size spaced to_decimal
header_text c =
    line (codes "#beak ") (codes "0.9")
    ++ (line (codes "#config ") c.config
        ++ (line (codes "#size ") (to_decimal (backup_size c.tars 0))
            ++ (line (codes "#uids") (spaced c.uids)
                ++ (line (codes "#gids") (spaced c.gids)
                    ++ (line (codes "#delta") []
                        ++ line (codes "#files ")
                            (to_decimal (length c.entries) ++ b' ' ∷ cook_columns))))))

unfoldable pub cook_entries : List RowEntry → Bytes → Option Bytes
unfolding cook_entry
cook_entries [] listing = some listing
cook_entries (e ∷ es) listing = cook_entry listing e >>= cook_entries es

-- The slash in front of the path, and the one behind it.
unfoldable pub location_text : Bytes → Bytes
location_text path = b'/' ∷ (if ltb 0 (length path) then path ++ codes "/" else [])

-- The name of a part; `drop_slash` is found on the first one.
unfoldable pub stored_name : StoredTar → ℕ → Option Bytes
unfolding tar_file_name write_tar_file_name
stored_name t part = tar_file_name t.file part >>= write_tar_file_name 1024 (some t.safepath)

unfoldable pub range_text : StoredTar → Option Bytes
unfolding stored_name drop_front_slash sub32
range_text t = stored_name t 0 >>= λ first.
    if ltb 1 t.file.sizes.num_parts
    then (stored_name t (sub32 t.file.sizes.num_parts 1) >>= λ last. some (
        drop_front_slash first
        ++ (codes " ... " ++ (if at first 0 == b'/' then drop 1 last else last))))
    else some (drop_front_slash first)

-- The four columns of a tar file.
unfoldable pub tar_row : StoredTar → Option Bytes
unfolding location_text range_text
tar_row t = range_text t >>= λ name.
    some (location_text t.path ++ 0 ∷ 0 ∷ 0 ∷ (name ++ codes "\n" ++ 0 ∷ []))

unfoldable pub tar_rows : List StoredTar → Option Bytes
unfolding tar_row
tar_rows [] = some []
tar_rows (t ∷ ts) = do row ← tar_row t; rows ← tar_rows ts; some (row ++ rows)

unfoldable pub is_content_split : TarContents → Bool
is_content_split content_split_large_file_tar = true
is_content_split other = false

unfoldable pub num_content_splits : List StoredTar → ℕ
unfolding is_content_split
num_content_splits [] = 0
num_content_splits (t ∷ ts) =
    let rest = num_content_splits ts in
    if is_content_split t.file.sizes.tar_contents then suc rest else rest

unfoldable pub part_rows : List StoredTar → Bytes
unfolding is_content_split to_decimal
part_rows [] = []
part_rows (t ∷ ts) =
    let rest = part_rows ts in
    if is_content_split t.file.sizes.tar_contents
    then t.single_content ++ 0 ∷ (to_decimal t.file.sizes.num_parts ++ codes "\n" ++ 0 ∷ rest)
    else rest

unfoldable pub tars_text : List StoredTar → Bytes
unfolding to_decimal
tars_text ts = line (codes "#tars ") (
    to_decimal (length ts)
    ++ codes " with 4 columns: backup_location basis_tarfile delta_tarfile tarfile")

unfoldable pub parts_count : List StoredTar → Bytes
unfolding num_content_splits to_decimal
parts_count ts = line (codes "#parts ") (to_decimal (num_content_splits ts))

-- Everything that the checksum is about.
unfoldable pub summed : IndexContents → Option Bytes
unfolding header_text cook_entries tars_text tar_rows parts_count part_rows
summed c = do
  files ← cook_entries c.entries (header_text c ++ 0 ∷ [])
  rows ← tar_rows c.tars
  some (files ++ (tars_text c.tars ++ 0 ∷ (rows ++ (parts_count c.tars ++ 0 ∷ part_rows c.tars))))

unfoldable pub index_contents : (Bytes → Bytes) → IndexContents → Option Bytes
unfolding summed to_hex
index_contents sha256 c = summed c >>= λ cont.
    some (cont ++ (codes "#end " ++ (to_hex (sha256 cont) ++ codes "\n" ++ 0 ∷ [])))
