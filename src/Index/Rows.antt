-- ===== src/Index/Rows.antt =====
-- src/tarentry.cc: cookEntry, which writes the row of an entry into the listing of an index file,
-- and the parts of a tar file that the row speaks of. `none` is an assertion that fails. The
-- separator is the zero byte. A device number is the pair of its major and minor number, as the
-- system's macros take it apart and put it together.
pub mod Eaten
pub mod Rests
pub mod Links
pub mod Columns
pub mod Texts
pub mod Stages
pub mod Measures
pub mod Lists
pub mod Numbers
pub mod RoundTrip
use beak.Prelude.{
  ℕ, ◌+◌, ◌-◌, ◌<◌, Bool, true, false, ◌||◌, Option, none, some, List, [], ◌∷◌, ◌++◌, ◌==◌,
  if◌then◌else◌, ◌>>=◌, Bytes, codes, take, length,
}
use beak.Prelude.Words.{add64, sub32}
use beak.Prelude.Decimal.{to_decimal}
use beak.Text.Hex.{to_hex}
use beak.Tar.Split.{TarContents, dir_tar}
use beak.Tar.Parts.{PartSizes, part_content_size, disk_size}
use beak.Tar.FileName.{TarFileName, chartype}
use beak.Tar.FileName.Printing.{pad, write_tar_file_name}
use beak.Index.Permissions.{permission_string, is_kind, s_ifreg, s_ifchr, s_ifblk, s_iflnk}

-- The fields of a TarFile that its name and its entries' rows speak of.
pub record StoredTarFile : Type 0 where
  pub sizes : PartSizes
  pub mtim_sec : ℕ
  pub mtim_nsec : ℕ
  pub sha256_hash : Bytes

-- TarFileName(TarFile *tf, uint partnr).
unfoldable pub tar_file_name : StoredTarFile → ℕ → Option TarFileName
unfolding to_hex part_content_size disk_size
tar_file_name tf partnr = do
  size ← part_content_size tf.sizes partnr
  ondisk ← disk_size tf.sizes partnr
  some (record {
    type = tf.sizes.tar_contents;
    version = 2;
    sec = tf.mtim_sec;
    nsec = tf.mtim_nsec;
    size = size;
    ondisk_size = ondisk;
    backup_size = 0;
    header_hash = to_hex tf.sha256_hash;
    part_nr = partnr;
    num_parts = tf.sizes.num_parts;
    old_style = false;
  })

-- The fields of a TarEntry that its row speaks of.
pub record RowEntry : Type 0 where
  pub st_mode : ℕ
  pub st_uid : ℕ
  pub st_gid : ℕ
  pub st_size : ℕ
  pub st_rdev : ℕ × ℕ
  pub mtim_sec : ℕ
  pub mtim_nsec : ℕ
  pub tarpath : Bytes
  pub link : Option Bytes
  pub tar_file : StoredTarFile
  pub tar_offset : ℕ
  pub header_size : ℕ
  pub meta_hash : Bytes

unfoldable pub owner_text : RowEntry → Bytes
unfolding to_decimal
owner_text e = to_decimal e.st_uid ++ b'/' ∷ to_decimal e.st_gid

unfoldable pub is_device : ℕ → Bool
unfolding is_kind
is_device mode = is_kind s_ifchr mode || is_kind s_ifblk mode

unfoldable pub size_text : RowEntry → Bytes
unfolding to_decimal is_device is_kind
size_text e =
    if is_kind s_ifreg e.st_mode
    then to_decimal e.st_size
    else if is_device e.st_mode
    then to_decimal e.st_rdev.0 ++ b',' ∷ to_decimal e.st_rdev.1
    else codes "0"

-- snprintf into a buffer of 32 characters.
unfoldable pub time_text : RowEntry → Bytes
unfolding to_decimal pad
time_text e = take 31 (to_decimal e.mtim_sec ++ b'.' ∷ pad 9 (to_decimal e.mtim_nsec))

unfoldable pub link_text : RowEntry → Bytes
unfolding is_kind
link_text e = elim e.link [
  | none ↦ []
  | some l ↦ (if is_kind s_iflnk e.st_mode then codes " -> " else codes " link to ") ++ l
]

unfoldable pub is_dir_tar : TarContents → Bool
is_dir_tar dir_tar = true
is_dir_tar other = false

unfoldable pub tar_text : RowEntry → Option Bytes
unfolding is_dir_tar tar_file_name write_tar_file_name
tar_text e =
    if is_dir_tar e.tar_file.sizes.tar_contents
    then some []
    else (tar_file_name e.tar_file 0 >>= λ t. write_tar_file_name 256 none t)

-- snprintf into a buffer of 256 characters.
unfoldable pub parts_text : PartSizes → Option Bytes
unfolding part_content_size disk_size sub32 to_decimal
parts_text t = if t.num_parts == 1 then some (codes "1") else (do
  size ← part_content_size t 0
  last_size ← part_content_size t (sub32 t.num_parts 1)
  disk ← disk_size t 0
  last_disk ← disk_size t (sub32 t.num_parts 1)
  some (
      take 255 (
        to_decimal t.num_parts
        ++ (b','
            ∷ (to_decimal t.part_header_size
                ++ (b','
                    ∷ (to_decimal size
                        ++ (b','
                            ∷ (to_decimal last_size
                                ++ (b','
                                    ∷ (to_decimal disk ++ (b',' ∷ to_decimal last_disk))))))))))))

-- The columns, each with the separator behind it.
unfoldable pub columns : List Bytes → Bytes
columns [] = []
columns (c ∷ cs) = c ++ 0 ∷ columns cs

unfoldable pub cook_entry : Bytes → RowEntry → Option Bytes
unfolding permission_string owner_text size_text time_text link_text tar_text parts_text columns
    to_hex add64 to_decimal
cook_entry listing e = do
  permissions ← permission_string e.st_mode
  tar ← tar_text e
  parts ← parts_text e.tar_file.sizes
  some (
      listing
      ++ columns (
          permissions
          ∷ []
          ∷ owner_text e
          ∷ size_text e
          ∷ time_text e
          ∷ e.tarpath
          ∷ link_text e
          ∷ tar
          ∷ to_decimal (add64 e.tar_offset e.header_size)
          ∷ parts
          ∷ (to_hex e.meta_hash ++ codes "\n")
          ∷ []))
