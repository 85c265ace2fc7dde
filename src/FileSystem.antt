-- ===== src/FileSystem.antt =====
-- src/filesystem.h and src/filesystem.cc: the comparisons of FileStat, and checkStat, which decides
-- what a restore does with a file. The stat of the target is none where it fails.
pub mod Updates
pub mod Paths
pub mod Parents
pub mod Changes
mod Tests
mod ChangesTests
use beak.Prelude.{
  ℕ, ◌%◌, Bool, true, false, not, ◌&&◌, ◌||◌, Option, none, some, ltb, ◌==◌, if◌then◌else◌,
}

pub data UpdateDisk : Type 0 where
  no_update_identical update_permissions other_is_newer store : UpdateDisk

-- The fields that the comparisons read; whether there is a hard link.
pub record FileStat : Type 0 where
  pub st_mode : ℕ
  pub hard_link : Bool
  pub st_size : ℕ
  pub mtim_sec : ℕ
  pub mtim_nsec : ℕ

-- st_mode & 07777.
unfoldable pub same_permissions : FileStat → FileStat → Bool
same_permissions a b = a.st_mode % 4096 == b.st_mode % 4096

unfoldable pub same_size : FileStat → FileStat → Bool
same_size a b = a.st_size == b.st_size

unfoldable pub same_mtime : FileStat → FileStat → Bool
same_mtime a b = a.mtim_sec == b.mtim_sec && a.mtim_nsec == b.mtim_nsec

unfoldable pub older_than_mtime : FileStat → FileStat → Bool
older_than_mtime a b =
    ltb a.mtim_sec b.mtim_sec || (a.mtim_sec == b.mtim_sec && ltb a.mtim_nsec b.mtim_nsec)

unfoldable pub check_stat : FileStat → Option FileStat → UpdateDisk
unfolding same_permissions same_size same_mtime older_than_mtime
check_stat s none = store
check_stat s (some other) =
    if (s.hard_link || same_size s other) && same_mtime s other
    then (if not (same_permissions s other) then update_permissions else no_update_identical)
    else if older_than_mtime s other
    then other_is_newer
    else store
