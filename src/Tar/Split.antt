-- ===== src/Tar/Split.antt =====
-- src/tarfile.cc: how a large virtual tar file is cut into parts. The functions splitParts_,
-- onDiskSize_, fixSize, partContentSize, diskSize and calculateOriginTarOffset, and
-- roundToThousandMultiple of src/util.cc. A failed assertion is `none`.
pub mod Sizes
use beak.Prelude.{
  ℕ, ◌+◌, ◌-◌, ◌*◌, ◌/◌, ◌%◌, ◌≤◌, ◌<◌, ◌≡◌, refl, Bool, true, false, not, ◌&&◌, ◌||◌, Option, none,
  some, arith, ltb, leb, ◌==◌, if◌then◌else◌, ◌>>=◌, ◌>>◌, guard,
}
use beak.Prelude.Words.{add64, sub64, mul64, u32, sub32}

pub data TarHeaderStyle : Type 0 where
  none_style simple full : TarHeaderStyle

pub data PaddingStyle : Type 0 where
  no_padding relative absolute : PaddingStyle

pub data TarContents : Type 0 where
  index_file dir_tar small_files_tar medium_files_tar : TarContents
  single_large_file_tar split_large_file_tar content_split_large_file_tar : TarContents

unfoldable pub is_index : TarContents → Bool
is_index index_file = true
is_index _ = false

unfoldable pub is_single_large : TarContents → Bool
is_single_large single_large_file_tar = true
is_single_large _ = false

-- What splitParts_ returns through its pointers.
pub record Parts : Type 0 where
  pub num_parts : ℕ
  pub part_size : ℕ
  pub last_part_size : ℕ
  pub part_header_size : ℕ

unfoldable pub header_size : TarHeaderStyle → ℕ
header_size none_style = 0
header_size simple = 512
header_size full = 512

-- The two outcomes of the comparison of `stores` with the total size.
finish_split : ℕ → ℕ → ℕ → ℕ → ℕ → Option Parts
finish_split total p h n stores =
    if stores == total
    then some (record { num_parts = n; part_size = p; last_part_size = p; part_header_size = h })
    else (do
      let n' = u32 (n + 1)
      let last = sub64 (add64 h total) stores
      let stored_last = sub64 (sub64 total p) (mul64 (sub32 n' 2) (sub64 p h))
      guard (last == add64 stored_last h)
      some (record { num_parts = n'; part_size = p; last_part_size = last; part_header_size = h }))

unfoldable pub split_parts : ℕ → ℕ → TarHeaderStyle → Option Parts
unfolding header_size finish_split
split_parts total split_size ths = do
  let h = header_size ths
  guard (ltb h split_size)
  let n = u32 (sub64 total h / sub64 split_size h)
  let stores = add64 split_size (mul64 (sub32 n 1) (sub64 split_size h))
  finish_split total split_size h n stores
