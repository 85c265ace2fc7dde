-- ===== src/FileSystem/Tests.antt =====
-- Runs of checkStat, and its theorem at two files.
use beak.Prelude.{◌≡◌, refl, false, none, some}
use beak.FileSystem.{
  update_permissions, other_is_newer, store, FileStat, same_permissions, same_size, same_mtime,
  older_than_mtime, check_stat,
}
use beak.FileSystem.Updates.{Says, check_stat-Says}

abbrev stored : FileStat
stored = record { st_mode = 33188; hard_link = false; st_size = 10; mtim_sec = 5; mtim_nsec = 7 }

abbrev newer_file : FileStat
newer_file = record stored { mtim_nsec = 8 }

newer_run : check_stat stored (some newer_file) ≡ other_is_newer
unfolding check_stat same_permissions same_size same_mtime older_than_mtime
newer_run = refl

permissions_run : check_stat stored (some (record stored { st_mode = 33261 })) ≡ update_permissions
unfolding check_stat same_permissions same_size same_mtime older_than_mtime
permissions_run = refl

missing_run : check_stat stored none ≡ store
unfolding check_stat
missing_run = refl

check_stat-Says_example : Says stored newer_file (check_stat stored (some newer_file))
check_stat-Says_example = check_stat-Says stored newer_file
