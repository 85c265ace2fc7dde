-- ===== src/Backup/Sizes.antt =====
-- src/backup.cc, findNumTarsFromSize and calculateNumTars: how many tar files a tar collection
-- directory gets. `none` is a loop that does not end.
pub mod Powers
use beak.Prelude.{
  ℕ, zero, suc, ◌-◌, ◌/◌, Option, none, some, List, [], ◌∷◌, ltb, leb, if◌then◌else◌, ◌||◌, ◌>>=◌,
}
use beak.Prelude.Words.{add64, sub64, mul64}

-- `while (amount < total_size)`. An amount of one or more passes 2^63 in 63 rounds.
unfoldable pub find_loop : ℕ → ℕ → ℕ → ℕ → Option ℕ
find_loop zero amount total_size n = if ltb amount total_size then none else some n
find_loop (suc fuel) amount total_size n =
    let rest = find_loop fuel (mul64 amount 2) total_size (mul64 n 2) in
    if ltb amount total_size then rest else some n

unfoldable pub find_num_tars_from_size : ℕ → ℕ → Option ℕ
find_num_tars_from_size amount total_size = find_loop 64 amount total_size 1

-- The sums and the counts of the loop over the entries, given their blocked sizes.
pub record FileSizes : Type 0 where
  pub small_files_size : ℕ
  pub medium_files_size : ℕ
  pub large_files_size : ℕ
  pub num_large_files : ℕ

abbrev no_sizes : FileSizes
no_sizes = record {
  small_files_size = 0;
  medium_files_size = 0;
  large_files_size = 0;
  num_large_files = 0;
}

unfoldable pub add_size : ℕ → ℕ → FileSizes → ℕ → FileSizes
add_size small_size medium_size s size =
    if ltb size small_size
    then record s { small_files_size = add64 s.small_files_size size }
    else if ltb size medium_size
    then record s { medium_files_size = add64 s.medium_files_size size }
    else record s {
      large_files_size = add64 s.large_files_size size;
      num_large_files = add64 s.num_large_files 1;
    }

unfoldable pub sum_sizes : ℕ → ℕ → FileSizes → List ℕ → FileSizes
sum_sizes small_size medium_size s [] = s
sum_sizes small_size medium_size s (size ∷ sizes) =
    sum_sizes small_size medium_size (add_size small_size medium_size s size) sizes

-- What calculateNumTars answers: the numbers of small, medium and large tars, their sizes, and the
-- sizes below which a file goes into a small or a medium tar.
pub record NumTars : Type 0 where
  pub nst : ℕ
  pub nmt : ℕ
  pub nlt : ℕ
  pub sfs : ℕ
  pub mfs : ℕ
  pub lfs : ℕ
  pub sc : ℕ
  pub mc : ℕ

unfoldable pub choose_num_tars : ℕ → FileSizes → ℕ → ℕ → NumTars
choose_num_tars tar_target_size s nst nmt =
    if leb s.small_files_size tar_target_size || leb s.medium_files_size tar_target_size
    then record {
      nst = sub64 (add64 nst nmt) 1;
      nmt = 0;
      nlt = s.num_large_files;
      sfs = add64 s.small_files_size s.medium_files_size;
      mfs = 0;
      lfs = s.large_files_size;
      sc = tar_target_size;
      mc = tar_target_size;
    }
    else record {
      nst = nst;
      nmt = nmt;
      nlt = s.num_large_files;
      sfs = s.small_files_size;
      mfs = s.medium_files_size;
      lfs = s.large_files_size;
      sc = tar_target_size / 100;
      mc = tar_target_size;
    }

unfoldable pub calculate_num_tars : ℕ → List ℕ → Option NumTars
calculate_num_tars tar_target_size sizes = do
  let s = sum_sizes (tar_target_size / 100) tar_target_size no_sizes sizes
  nst ← find_num_tars_from_size tar_target_size s.small_files_size
  nmt ← find_num_tars_from_size tar_target_size s.medium_files_size
  some (choose_num_tars tar_target_size s nst nmt)
