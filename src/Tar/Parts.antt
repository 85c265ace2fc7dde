-- ===== src/Tar/Parts.antt =====
-- src/tarfile.cc: the sizes that a TarFile records once its entries are in place (fixSize), what
-- its accessors say of each part, and where a byte of a part lies in the unsplit tar file.
pub mod Rounding
pub mod Fixing
pub mod Origin
pub mod Places
use beak.Prelude.{
  ℕ, ◌+◌, ◌-◌, ◌*◌, ◌%◌, Bool, true, false, not, ◌&&◌, ◌||◌, Option, none, some, ltb, leb, ◌==◌,
  if◌then◌else◌, ◌>>=◌, ◌>>◌, guard,
}
use beak.Prelude.Words.{add64, sub64, mul64, sub32}
use beak.Tar.Split.{
  TarHeaderStyle, PaddingStyle, no_padding, relative, absolute, TarContents, split_large_file_tar,
  is_index, is_single_large, Parts, split_parts,
}

-- The fields of TarFile that speak of its sizes.
pub record PartSizes : Type 0 where
  pub tar_contents : TarContents
  pub content_size : ℕ
  pub num_parts : ℕ
  pub part_size : ℕ
  pub last_part_size : ℕ
  pub part_header_size : ℕ
  pub ondisk_part_size : ℕ
  pub ondisk_last_part_size : ℕ

-- `modv` of roundToThousandMultiple.
unfoldable pub rounding_unit : ℕ → ℕ
rounding_unit from =
    if ltb 1_000_000 from
    then 1_000_000
    else if ltb 100_000 from
    then 100_000
    else if ltb 10_000 from
    then 10_000
    else 1_000

-- Rounding up to the nearest boundary.
unfoldable pub round_up : ℕ → ℕ → Option ℕ
round_up from modv =
    let up = add64 from (modv - from % modv) in
    if from % modv == 0 then some from else (guard (up % modv == 0) >> some up)

unfoldable pub round_to_thousand_multiple : ℕ → Option ℕ
round_to_thousand_multiple from = round_up from (rounding_unit from)

unfoldable pub on_disk_size : ℕ → TarContents → PaddingStyle → ℕ → Option ℕ
on_disk_size from type no_padding target_size = some from
on_disk_size from type absolute target_size =
    if from == 0
    then some 0
    else if not (is_index type) && leb from target_size
    then some target_size
    else round_to_thousand_multiple from
on_disk_size from type relative target_size =
    if from == 0 then some 0 else round_to_thousand_multiple from

-- The split branch of fixSize.
unfoldable pub fix_split : PartSizes → ℕ → ℕ → TarHeaderStyle → PaddingStyle → ℕ → Option PartSizes
fix_split t content split_size ths pad target_size = do
  s ← split_parts content split_size ths
  let type = if ltb 1 s.num_parts then split_large_file_tar else t.tar_contents
  disk ← on_disk_size s.part_size type pad target_size
  last_disk ← on_disk_size s.last_part_size type pad target_size
  some (record {
    tar_contents = type;
    content_size = content;
    num_parts = s.num_parts;
    part_size = s.part_size;
    last_part_size = s.last_part_size;
    part_header_size = s.part_header_size;
    ondisk_part_size = disk;
    ondisk_last_part_size = last_disk;
  })

-- The other branch: one part, whose last part's sizes stay as they were.
unfoldable pub fix_whole : PartSizes → ℕ → PaddingStyle → ℕ → Option PartSizes
fix_whole t content pad target_size = do
  disk ← on_disk_size content t.tar_contents pad target_size
  some (record t {
    content_size = content;
    num_parts = 1;
    part_size = content;
    part_header_size = 0;
    ondisk_part_size = disk;
  })

-- `content` is current_tar_offset_.
unfoldable pub fix_size : PartSizes → ℕ → ℕ → TarHeaderStyle → PaddingStyle → ℕ → Option PartSizes
fix_size t content split_size ths pad target_size =
    if leb content split_size || not (is_single_large t.tar_contents)
    then fix_whole t content pad target_size
    else fix_split t content split_size ths pad target_size

unfoldable pub part_content_size : PartSizes → ℕ → Option ℕ
part_content_size t partnr = do
  guard (ltb partnr t.num_parts)
  if t.num_parts == 1
      then (guard (t.content_size == t.part_size) >> some t.part_size)
      else some (if ltb partnr (sub32 t.num_parts 1) then t.part_size else t.last_part_size)

unfoldable pub disk_size : PartSizes → ℕ → Option ℕ
disk_size t partnr = do
  guard (ltb partnr t.num_parts)
  some (
      if t.num_parts == 1
      then t.ondisk_part_size
      else if ltb partnr (sub32 t.num_parts 1)
      then t.ondisk_part_size
      else t.ondisk_last_part_size)

unfoldable pub calculate_origin_tar_offset : PartSizes → ℕ → ℕ → Option ℕ
calculate_origin_tar_offset t partnr offset = do
  guard (ltb partnr t.num_parts)
  if partnr == 0 then some offset else (do
    guard (leb t.part_header_size offset)
    some (
        add64 (add64 (sub64 offset t.part_header_size) t.part_size)
          (mul64 (sub32 partnr 1) (sub64 t.part_size t.part_header_size))))
