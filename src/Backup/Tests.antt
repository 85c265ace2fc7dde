-- ===== src/Backup/Tests.antt =====
-- Small trees backed up, and the theorems at them.
use beak.Prelude.{
  ℕ, ◌≡◌, refl, Bool, true, false, none, some, List, [], ◌∷◌, ◌++◌, arith, Bytes, codes, equal,
  ◌==◌, if◌then◌else◌,
}
use beak.Prelude.Words.{add64, sub64, mul64}
use beak.Text.Sizes.{down_to_block_size}
use beak.Tar.Split.{full, split_parts, header_size}
use beak.Tar.Parts.{round_to_thousand_multiple, rounding_unit, round_up}
use beak.Backup.Settings.{
  TarSizes, choose_sizes, choose_target_size, choose_trigger_size, choose_split_size, HasRoom,
  choose_sizes-HasRoom,
}
use beak.Backup.HardLinks.{ScannedFile, find_hard_links}
use beak.Backup.HardLinks.First.{files_of, link_all, find_hard_links-link_all}
use beak.Backup.Tree.{
  TreePath, same_path, Directories, find_parent_tcd, is_storage_dir, collection_dir, Entries,
  add_entries, take_hard_links, insert_first, links_first,
}
use beak.Backup.Tree.Nearest.{
  IsNearest, AreListed, Collects, collection_dir-IsNearest, find_parent_tcd-collection_dir,
  add_entries-Collects,
}
use beak.Backup.Sizes.{
  find_loop, find_num_tars_from_size, NumTars, calculate_num_tars, sum_sizes, add_size,
  choose_num_tars,
}
use beak.Backup.Sizes.Powers.{
  IsLeast, IsPlan, sum, find_num_tars_from_size-IsLeast, calculate_num_tars-IsPlan,
}
use beak.Backup.Grouping.{Member, Tars, group_files}
use beak.Backup.Grouping.Placed.{count_entries}
use beak.Backup.Grouping.Steps.{entries_of}
use beak.Backup.Grouping.Once.{AreLaidOut, times_stored, group_files-Once}

find_num_tars_from_size_run : find_num_tars_from_size 10 128 ≡ some 16
unfolding find_num_tars_from_size find_loop mul64
find_num_tars_from_size_run = refl

find_num_tars_from_size-IsLeast_example :
    (n : ℕ) × (find_num_tars_from_size 10 128 ≡ some n) × IsLeast 10 128 n
find_num_tars_from_size-IsLeast_example =
    find_num_tars_from_size-IsLeast 10 128 (omega arith) (omega arith)

abbrev file_sizes : List ℕ
file_sizes = 512 ∷ 512 ∷ 40_960 ∷ 120_320 ∷ []

calculate_num_tars_run :
    calculate_num_tars 100_000 file_sizes
    ≡ some (record {
      nst = 1;
      nmt = 0;
      nlt = 1;
      sfs = 41_984;
      mfs = 0;
      lfs = 120_320;
      sc = 100_000;
      mc = 100_000;
    })
unfolding calculate_num_tars sum_sizes add_size choose_num_tars find_num_tars_from_size find_loop
    mul64 add64 sub64
calculate_num_tars_run = refl

calculate_num_tars-IsPlan_example :
    (r : NumTars) × (calculate_num_tars 100_000 file_sizes ≡ some r)
    × IsPlan 100_000 (sum file_sizes) r
calculate_num_tars-IsPlan_example =
    calculate_num_tars-IsPlan 100_000 file_sizes (omega arith) (omega arith)

abbrev member : ℕ → ℕ → ℕ → Bool → Bool → Member
member id size hash dir link = record {
  entry = record {
    id = id;
    blocked_size = size;
    mtim = record { tv_sec = 1; tv_nsec = 0 };
    tar_offset = 0;
  };
  is_directory = dir;
  is_hard_link = link;
  tarpath_hash = hash;
}

abbrev members : List Member
members =
    member 1 512 11 true false
    ∷ member 2 40_960 22 false false
    ∷ member 3 512 33 false true
    ∷ member 4 120_320 44 false false
    ∷ []

group_files-Once_example :
    (t : Tars) × (group_files 100_000 members ≡ some t)
    × AreLaidOut t
    × (times_stored 3 t ≡ count_entries 3 (entries_of members))
group_files-Once_example =
    group_files-Once 3 100_000 members (omega arith)
      (omega arith, (omega arith, (omega arith, (omega arith, tt)))) (omega arith)

abbrev scanned : Bytes → ℕ → ScannedFile
scanned path ino = record {
  path = path;
  meta = record {
    tarpath = path;
    link = none;
    is_regular_file = true;
    is_hard_linked = false;
    st_size = 100;
    tar_header_style = full;
  };
  sizes = record { header_size = 512; blocked_size = 1024 };
  is_directory = false;
  st_nlink = 2;
  st_ino = ino;
}

abbrev scanned_files : List ScannedFile
scanned_files = scanned (codes "/d/a") 7 ∷ scanned (codes "/d/b") 8 ∷ scanned (codes "/c") 7 ∷ []

find_hard_links-link_all_example :
    files_of (find_hard_links scanned_files) ≡ link_all [] [] scanned_files
find_hard_links-link_all_example = find_hard_links-link_all scanned_files

-- The root, /a, which is a tar collection directory, and /a/b.
abbrev dirs : Directories
dirs p =
    if same_path p []
    then some true
    else if same_path p (codes "a" ∷ [])
    then some true
    else if same_path p (codes "b" ∷ codes "a" ∷ [])
    then some false
    else none

abbrev photo : TreePath
photo = codes "b" ∷ codes "a" ∷ []

dirs_root : is_storage_dir (dirs []) ≡ true
unfolding is_storage_dir same_path
dirs_root = refl

dirs_listed : AreListed dirs photo
unfolding same_path equal
dirs_listed = ((false, refl), ((true, refl), (true, refl)))

collection_dir_run : collection_dir dirs (codes "photo" ∷ photo) ≡ some (codes "a" ∷ [])
unfolding collection_dir is_storage_dir same_path equal
collection_dir_run = refl

collection_dir-IsNearest_example :
    (q : TreePath) × (collection_dir dirs (codes "photo" ∷ photo) ≡ some q) × IsNearest dirs photo q
collection_dir-IsNearest_example = collection_dir-IsNearest dirs (codes "photo") photo dirs_root

find_parent_tcd-collection_dir_example :
    find_parent_tcd dirs (codes "photo" ∷ photo) ≡ collection_dir dirs (codes "photo" ∷ photo)
find_parent_tcd-collection_dir_example =
    find_parent_tcd-collection_dir dirs (codes "photo") photo dirs_root dirs_listed

abbrev no_entries : Entries
no_entries q = []

add_entries-Collects_example :
    (r : Entries) × (add_entries dirs no_entries ((codes "photo" ∷ photo) ∷ photo ∷ [] ∷ [])
      ≡ some r)
    × ((l : List TreePath) × Collects dirs
          (codes "a" ∷ [])
          ((codes "photo" ∷ photo) ∷ photo ∷ [] ∷ [])
          l
        × (r (codes "a" ∷ []) ≡ no_entries (codes "a" ∷ []) ++ l))
add_entries-Collects_example =
    add_entries-Collects dirs no_entries ((codes "photo" ∷ photo) ∷ photo ∷ [] ∷ [])
      (codes "a" ∷ []) dirs_root

-- The hard link 2 is lost and the entry behind it is there twice; a hard link at the end is not
-- survived.
abbrev is_two : ℕ → Bool
is_two n = n == 2

links_first_run : links_first is_two (1 ∷ 2 ∷ 3 ∷ []) ≡ some (3 ∷ 1 ∷ 3 ∷ [])
unfolding links_first take_hard_links insert_first
links_first_run = refl

links_first_run_end : links_first is_two (1 ∷ 2 ∷ []) ≡ none
unfolding links_first take_hard_links insert_first
links_first_run_end = refl

choose_sizes-HasRoom_example :
    (r : TarSizes) × (choose_sizes (some 10_000_000) none none ≡ some r)
    × HasRoom r.tar_target_size r.tar_split_size full
choose_sizes-HasRoom_example = choose_sizes-HasRoom 10_000_000 none full (omega arith) (omega arith)

-- A target size that is accepted, with parts that are no longer than their headers.
choose_sizes_run :
    choose_sizes (some 300) none none
    ≡ some (record { tar_target_size = 300; tar_trigger_size = 900; tar_split_size = 512 })
unfolding choose_sizes choose_target_size choose_trigger_size choose_split_size
    round_to_thousand_multiple rounding_unit round_up down_to_block_size mul64 add64
choose_sizes_run = refl

split_parts_run : split_parts 5120 512 full ≡ none
unfolding split_parts header_size
split_parts_run = refl
