-- ===== src/FileSystem/ChangesTests.antt =====
-- Two listings compared, and the theorem at them.
use beak.Prelude.{◌≡◌, refl, false, none, some, [], ◌∷◌, codes, equal}
use beak.Config.Tables.{Table, find}
use beak.FileSystem.{FileStat, same_permissions, same_size, same_mtime}
use beak.FileSystem.Changes.{
  changed, added, removed, Listed, is_regular_file, compare_stats, follow_new_link, follow_old_link,
  compare_files, compare_entry, compare_loop, removed_entry, removed_loop, diff,
}
use beak.FileSystem.Changes.Verdict.{has_report, verdict}
use beak.FileSystem.Changes.Told.{has_report-diff}

abbrev plain : FileStat
plain = record { st_mode = 33188; hard_link = false; st_size = 10; mtim_sec = 5; mtim_nsec = 7 }

abbrev grown : FileStat
grown = record plain { st_size = 11 }

abbrev unlinked : FileStat → Listed
unlinked s = record { stat = s; link = none }

abbrev old : Table Listed
old = (codes "/a", unlinked plain) ∷ (codes "/b", unlinked plain) ∷ []

abbrev curr : Table Listed
curr = (codes "/b", unlinked grown) ∷ (codes "/c", unlinked plain) ∷ []

diff_run :
    diff old curr
    ≡ record { action = changed; path = codes "/b"; file = unlinked grown }
      ∷ record { action = added; path = codes "/c"; file = unlinked plain }
      ∷ record { action = removed; path = codes "/a"; file = unlinked plain }
      ∷ []
unfolding diff compare_loop compare_entry compare_files compare_stats follow_new_link
    follow_old_link removed_loop removed_entry find equal is_regular_file same_size same_mtime
    same_permissions
diff_run = refl

-- Both names of a file have grown, but the second, a hard link, is compared with the old file.
abbrev linked : FileStat → Listed
linked s = record { stat = s; link = some (codes "/a") }

hard_link_run :
    diff
      ((codes "/a", unlinked plain) ∷ (codes "/b", linked plain) ∷ [])
      ((codes "/a", unlinked grown) ∷ (codes "/b", linked grown) ∷ [])
    ≡ record { action = changed; path = codes "/a"; file = unlinked grown } ∷ []
unfolding diff compare_loop compare_entry compare_files compare_stats follow_new_link
    follow_old_link removed_loop removed_entry find equal is_regular_file same_size same_mtime
    same_permissions
hard_link_run = refl

has_report-diff_example :
    has_report changed (codes "/b") (diff old curr)
    ≡ verdict changed (find (codes "/b") old) (find (codes "/b") curr)
unfolding find equal
has_report-diff_example =
    has_report-diff changed (codes "/b") old curr (refl, (refl, tt)) (refl, (refl, tt))
      (refl, (refl, tt)) (refl, (refl, tt))
