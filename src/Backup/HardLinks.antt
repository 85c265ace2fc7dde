-- ===== src/Backup/HardLinks.antt =====
-- src/backup.cc, findHardLinks, and rewriteIntoHardLink of src/tarentry.cc: of the files that share
-- an inode, all but the first become hard links to it. `none` is an assertion that fails.
pub mod First
use beak.Prelude.{
  ℕ, Bool, true, not, ◌&&◌, Option, none, some, List, [], ◌∷◌, ltb, ◌==◌, if◌then◌else◌, ◌>>=◌,
  ◌>>◌, guard, Bytes, at,
}
use beak.Prelude.Words.{add64, sub64}
use beak.Prelude.Maps.{Map, get, put}
use beak.Tar.Header.{EntryMeta, EntrySizes, update_sizes}

pub record ScannedFile : Type 0 where
  pub path : Bytes
  pub meta : EntryMeta
  pub sizes : EntrySizes
  pub is_directory : Bool
  pub st_nlink : ℕ
  pub st_ino : ℕ

unfoldable pub rewrite_into_hard_link : ScannedFile → ScannedFile → Option ScannedFile
rewrite_into_hard_link te target = do
  let meta = record te.meta { link = some target.path; is_hard_linked = true }
  sizes ← update_sizes meta
  guard (at target.path 0 == b'/')
  some (record te { meta = meta; sizes = sizes })

-- The files so far stand in `done`, the last first; hard_links and hardlinksavings go along.
pub record Linked : Type 0 where
  pub done : List ScannedFile
  pub hard_links : Map ScannedFile
  pub savings : ℕ

unfoldable pub shares_inode : ScannedFile → Bool
shares_inode te = not te.is_directory && ltb 1 te.st_nlink

-- A round of the loop, from what hard_links has for the inode.
unfoldable pub link_file : Linked → ScannedFile → Option ScannedFile → Option Linked
link_file s te none =
    some (record s { done = te ∷ s.done; hard_links = put te.st_ino te s.hard_links })
link_file s te (some prev) = rewrite_into_hard_link te prev >>= λ u. some (record s {
  done = u ∷ s.done;
  savings = add64 s.savings (sub64 prev.sizes.blocked_size prev.sizes.header_size);
})

unfoldable pub link_loop : Linked → List ScannedFile → Option Linked
link_loop s [] = some s
link_loop s (te ∷ files) =
    (if shares_inode te
      then link_file s te (get te.st_ino s.hard_links)
      else some (record s { done = te ∷ s.done }))
    >>= λ t. link_loop t files

unfoldable pub find_hard_links : List ScannedFile → Option Linked
find_hard_links files = link_loop (record { done = []; hard_links = []; savings = 0 }) files
