-- ===== src/Tar/Tests.antt =====
-- Runs of the tar file model, and the theorems at concrete inputs.
use beak.Prelude.{
  ℕ, ◌+◌, ◌%◌, ◌≤◌, ◌<◌, ◌≡◌, refl, true, false, none, some, [], ◌∷◌, ◌++◌, ◌⊎◌, arith, codes,
}
use beak.Prelude.Words.{add64, sub64, mul64, u32, sub32}
use beak.Tar.Split.{
  none_style, simple, relative, single_large_file_tar, split_large_file_tar, Parts, split_parts,
  header_size, is_single_large,
}
use beak.Tar.Split.Sizes.{IsSplit, split_parts-IsSplit}
use beak.Tar.Parts.{PartSizes, fix_size, calculate_origin_tar_offset, part_content_size}
use beak.Tar.Parts.Fixing.{IsCut, IsWhole, fix_size_lem}
use beak.Tar.Parts.Origin.{IsSplitFile, IsDataOffset}
use beak.Tar.Parts.Places.{calculate_origin_tar_offset-onto, calculate_origin_tar_offset_inj}
use beak.Tar.Entries.{lookup, Timespec, TarEntry, TarFile, prepend_hard_links, find_tar_entry}
use beak.Tar.Entries.Layout.{IsLaidOut, shifted, placed, total_size}
use beak.Tar.Entries.Adding.{prepend_hard_links_lem}
use beak.Tar.Entries.Lookup.{find_tar_entry_lem}
use beak.Tar.Header.{EntryMeta, EntrySizes, update_sizes, calculate_header_size}
use beak.Tar.Header.Blocks.{update_sizes_lem}

-- The example of the comment in splitParts_, scaled to a header of 512 bytes.
split_parts_run :
    split_parts 7168 2560 simple
    ≡ some
        (record { num_parts = 4; part_size = 2560; last_part_size = 1024; part_header_size = 512 })
unfolding split_parts add64 sub64 mul64 u32 sub32
split_parts_run = refl

split_parts-IsSplit_example :
    (s : Parts) × (split_parts 7168 2560 simple ≡ some s) × IsSplit 7168 2560 (header_size simple) s
unfolding header_size
split_parts-IsSplit_example =
    split_parts-IsSplit 7168 2560 simple (omega arith) (omega arith) (omega arith) (omega arith)

abbrev unsplit : PartSizes
unsplit = record {
  tar_contents = single_large_file_tar;
  content_size = 0;
  num_parts = 1;
  part_size = 0;
  last_part_size = 0;
  part_header_size = 0;
  ondisk_part_size = 0;
  ondisk_last_part_size = 0;
}

fix_size_lem_example :
    (r : PartSizes) × (fix_size unsplit 7168 2560 simple relative 0 ≡ some r)
    × ((2560 < 7168) × (is_single_large single_large_file_tar ≡ true) × IsCut r 7168 2560 simple
        ⊎ ((7168 ≤ 2560) ⊎ (is_single_large single_large_file_tar ≡ false)) × IsWhole r 7168)
unfolding header_size
fix_size_lem_example =
    fix_size_lem unsplit 7168 2560 simple relative 0
      (record { header_fits = omega arith; content_fits = omega arith; count_fits = omega arith })

abbrev four_parts : PartSizes
four_parts = record {
  tar_contents = split_large_file_tar;
  content_size = 7168;
  num_parts = 4;
  part_size = 2560;
  last_part_size = 1024;
  part_header_size = 512;
  ondisk_part_size = 2560;
  ondisk_last_part_size = 1024;
}

four_parts-IsSplitFile : IsSplitFile four_parts
four_parts-IsSplitFile = omega arith

calculate_origin_tar_offset_run : calculate_origin_tar_offset four_parts 2 1536 ≡ some 5632
unfolding calculate_origin_tar_offset add64 sub64 mul64 sub32
calculate_origin_tar_offset_run = refl

calculate_origin_tar_offset-onto_example :
    (k : ℕ) × (offset : ℕ) × IsDataOffset four_parts k offset
    × (calculate_origin_tar_offset four_parts k offset ≡ some 5632)
calculate_origin_tar_offset-onto_example =
    calculate_origin_tar_offset-onto four_parts 5632 four_parts-IsSplitFile (omega arith)

data_offset : IsDataOffset four_parts 2 1536
unfolding part_content_size sub32
data_offset = (2560, refl, omega arith, omega arith, omega arith)

calculate_origin_tar_offset_inj_example : (◌≡◌ {A = ℕ} 2 2) × (◌≡◌ {A = ℕ} 1536 1536)
calculate_origin_tar_offset_inj_example =
    calculate_origin_tar_offset_inj four_parts 2 2 1536 1536 four_parts-IsSplitFile data_offset
      data_offset refl

abbrev at_time : ℕ → ℕ → Timespec
at_time s n = record { tv_sec = s; tv_nsec = n }

abbrev entry : ℕ → ℕ → ℕ → TarEntry
entry id size offset = record {
  id = id;
  blocked_size = size;
  mtim = at_time 7 2500;
  tar_offset = offset;
}

abbrev two_entries : TarFile
two_entries = record {
  contents = (0, entry 1 512 0) ∷ (512, entry 2 1024 512) ∷ [];
  hard_links = entry 3 512 0 ∷ [];
  offsets = 0 ∷ 512 ∷ [];
  current_tar_offset = 1536;
  mtim = at_time 5 0;
}

two_entries-IsLaidOut : IsLaidOut two_entries
two_entries-IsLaidOut = record { laid = omega arith; keyed = refl; fits = omega arith }

prepend_hard_links_lem_example :
    IsLaidOut (prepend_hard_links two_entries)
    × ((prepend_hard_links two_entries).contents
        ≡ placed 0 two_entries.hard_links
          ++ shifted (total_size two_entries.hard_links) two_entries.contents)
    × ((prepend_hard_links two_entries).hard_links ≡ [])
prepend_hard_links_lem_example =
    prepend_hard_links_lem two_entries two_entries-IsLaidOut (omega arith) (omega arith)

find_tar_entry_run : find_tar_entry two_entries 1536 700 ≡ some (some (entry 2 1024 512, 512))
unfolding find_tar_entry
find_tar_entry_run = refl

abbrev long_name : EntryMeta
long_name = record {
  tarpath = codes "alfa/beta";
  link = none;
  is_regular_file = true;
  is_hard_linked = false;
  st_size = 700;
  tar_header_style = simple;
}

find_tar_entry_lem_example :
    (1536 < 700) × (find_tar_entry two_entries 1536 700 ≡ some none)
    ⊎ ((o : ℕ) × (te : TarEntry) × (700 ≤ 1536)
        × (find_tar_entry two_entries 1536 700 ≡ some (some (te, o)))
        × (lookup o two_entries.contents ≡ some te)
        × (te.tar_offset ≡ o)
        × (o ≤ 700)
        × ((700 < o + te.blocked_size) ⊎ ((◌≡◌ {A = ℕ} 700 1536) × (o + te.blocked_size ≡ 1536))))
find_tar_entry_lem_example = find_tar_entry_lem two_entries 700 two_entries-IsLaidOut (λ e. cc)

update_sizes_run : update_sizes long_name ≡ some (record { header_size = 512; blocked_size = 1536 })
unfolding update_sizes calculate_header_size add64 mul64
update_sizes_run = refl

update_sizes_lem_example :
    (s : EntrySizes) × (update_sizes long_name ≡ some s)
    × (s.header_size % 512 ≡ 0)
    × (s.blocked_size % 512 ≡ 0)
    × (s.header_size + 700 ≤ s.blocked_size)
    × (s.blocked_size < s.header_size + 700 + 512)
    × ((simple ≡ none_style) ⊎ (512 ≤ s.header_size))
update_sizes_lem_example = update_sizes_lem long_name (omega arith)
