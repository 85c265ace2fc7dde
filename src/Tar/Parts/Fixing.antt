-- ===== src/Tar/Parts/Fixing.antt =====
-- src/tarfile.cc, fixSize: what the recorded sizes say afterwards.
use beak.Prelude.{
  ℕ, ◌+◌, ◌-◌, ◌/◌, ◌≤◌, ◌<◌, ◌≡◌, refl, true, false, not, ◌||◌, some, arith, ltb, leb, ◌⊎◌, inl,
  inr, Bool-cases, lt→ltb,
}
use beak.Prelude.Words.{u64_mod, u32_mod}
use beak.Tar.Split.{
  TarHeaderStyle, PaddingStyle, split_large_file_tar, is_single_large, Parts, header_size,
}
use beak.Tar.Split.Sizes.{IsSplit, split_parts-IsSplit}
use beak.Tar.Parts.{PartSizes, fix_size, fix_whole, fix_split}
use beak.Tar.Parts.Rounding.{on_disk_size-le}
use beak.Tar.Parts.Origin.{IsSplitFile}

-- The sizes given to fixSize, and the words they have to fit.
pub record FitsWords (content split_size : ℕ) (ths : TarHeaderStyle) : Type 0 where
  pub header_fits : header_size ths < split_size
  pub content_fits : 1_000_000 + content < u64_mod
  pub count_fits : (content - header_size ths) / (split_size - header_size ths) + 1 < u32_mod

header_size-le : (ths : TarHeaderStyle) → header_size ths ≤ 512
unfolding header_size
header_size-le TarHeaderStyle.none_style = omega arith
header_size-le TarHeaderStyle.simple = omega arith
header_size-le TarHeaderStyle.full = omega arith

-- One part that is the whole file.
pub record IsWhole (t : PartSizes) (size : ℕ) : Type 0 where
  pub single : t.num_parts ≡ 1
  pub all_content : t.part_size ≡ size
  pub content : t.content_size ≡ size
  pub no_header : t.part_header_size ≡ 0
  pub padded : size ≤ t.ondisk_part_size

-- Several parts, in the type of a split file.
pub record IsCut (t : PartSizes) (size split_size : ℕ) (ths : TarHeaderStyle) : Type 0 where
  pub as_split : IsSplitFile t
  pub parts_are : t.part_size ≡ split_size
  pub content : t.content_size ≡ size
  pub headers_are : t.part_header_size ≡ header_size ths
  pub retyped : t.tar_contents ≡ split_large_file_tar
  pub padded : t.part_size ≤ t.ondisk_part_size
  pub last_padded : t.last_part_size ≤ t.ondisk_last_part_size

fix_whole-IsWhole :
    (t : PartSizes) (content : ℕ) (pad : PaddingStyle) (target : ℕ)
    → 1_000_000 + content < u64_mod
    → (r : PartSizes) × (fix_whole t content pad target ≡ some r) × IsWhole r content
unfolding fix_whole
fix_whole-IsWhole t content pad target h =
    let (disk, run, le) = on_disk_size-le content t.tar_contents pad target (omega arith) in
    (
      record t {
        content_size = content;
        num_parts = 1;
        part_size = content;
        part_header_size = 0;
        ondisk_part_size = disk;
      },
      rw run,
      record { single = refl; all_content = refl; content = refl; no_header = refl; padded = le },
    )

-- The record that the split branch stores.
abbrev cut_record : ℕ → Parts → ℕ → ℕ → PartSizes
cut_record content s disk last_disk = record {
  tar_contents = split_large_file_tar;
  content_size = content;
  num_parts = s.num_parts;
  part_size = s.part_size;
  last_part_size = s.last_part_size;
  part_header_size = s.part_header_size;
  ondisk_part_size = disk;
  ondisk_last_part_size = last_disk;
}

cut_record-IsCut :
    (content split_size disk last_disk : ℕ) (ths : TarHeaderStyle) (s : Parts)
    → FitsWords content split_size ths
    → IsSplit content split_size (header_size ths) s
    → s.part_size ≤ disk
    → s.last_part_size ≤ last_disk
    → IsCut (cut_record content s disk last_disk) content split_size ths
cut_record-IsCut content split_size disk last_disk ths s f split a b = record {
  as_split = record {
    header_fits = omega (arith, f.header_fits, split.same_part_size, split.same_header);
    several = split.several;
    count_fits = split.count_fits;
    last_holds_data = omega (arith, split.last_holds_data, split.same_header);
    last_fits = omega (arith, split.last_fits, split.same_part_size);
    conserved = grind (arith, split.conserved, split.same_header, split.same_part_size);
    size_fits = omega (arith, split.same_header, header_size-le ths, f.content_fits);
  };
  parts_are = split.same_part_size;
  content = refl;
  headers_are = split.same_header;
  retyped = refl;
  padded = a;
  last_padded = b;
}

fix_split-IsCut :
    (t : PartSizes) (content split_size : ℕ) (ths : TarHeaderStyle) (pad : PaddingStyle)
    (target : ℕ)
    → FitsWords content split_size ths
    → split_size < content
    → (r : PartSizes) × (fix_split t content split_size ths pad target ≡ some r)
      × IsCut r content split_size ths
unfolding fix_split
fix_split-IsCut t content split_size ths pad target f h =
    let (s, run, split) =
      split_parts-IsSplit content split_size ths f.header_fits h
        (omega (arith, header_size-le ths, f.content_fits)) f.count_fits in
    let several : ltb 1 s.num_parts ≡ true = lt→ltb 1 s.num_parts split.several in
    let (disk, run_disk, le) =
      on_disk_size-le s.part_size split_large_file_tar pad target
        (omega (arith, f.content_fits, split.same_part_size)) in
    let (last_disk, run_last, last_le) =
      on_disk_size-le s.last_part_size split_large_file_tar pad target
        (omega (arith, f.content_fits, split.last_fits)) in
    (
      cut_record content s disk last_disk,
      rw (run, several, run_disk, run_last),
      cut_record-IsCut content split_size disk last_disk ths s f split le last_le,
    )

-- fixSize passes every assertion. A file that is no larger than the split size, or that holds
-- anything but one large file, stays whole; any other is cut into parts of the split size, in the
-- way that IsSplitFile says. On disk no part is shorter than its content.
pub fix_size_lem :
    (t : PartSizes) (content split_size : ℕ) (ths : TarHeaderStyle) (pad : PaddingStyle)
    (target : ℕ)
    → FitsWords content split_size ths
    → (r : PartSizes) × (fix_size t content split_size ths pad target ≡ some r)
      × ((split_size < content)
            × (is_single_large t.tar_contents ≡ true)
            × IsCut r content split_size ths
          ⊎ ((content ≤ split_size) ⊎ (is_single_large t.tar_contents ≡ false)) × IsWhole r content)
unfolding fix_size
fix_size_lem t content split_size ths pad target f =
    elim (Bool-cases (leb content split_size || not (is_single_large t.tar_contents))) [
      | inl whole ↦
          let (r, run, w) = fix_whole-IsWhole t content pad target f.content_fits in
          (r, rw whole run, inr (ground arith, w))
      | inr cut ↦
          let (r, run, c) = fix_split-IsCut t content split_size ths pad target f (ground arith) in
          (r, rw cut run, inl (ground arith, ground arith, c))
    ]
