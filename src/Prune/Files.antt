-- ===== src/Prune/Files.antt =====
-- src/beak_prune.cc: the backup files that a pruned storage still needs, and those to delete. A
-- file is the number of its interned Path, so that equal files are equal numbers.
pub mod Safety
use beak.Prelude.{
  ℕ, ◌+◌, Bool, true, false, not, ◌&&◌, ◌||◌, Option, none, some, List, [], ◌∷◌, ◌++◌, ltb, ◌==◌,
  if◌then◌else◌, ◌>>=◌,
}
use beak.Prelude.Words.{add64}
use beak.Prelude.Maps.{Map, get}
use beak.Prune.{
  Keep, PruneImplementation, new_prune, add_points, prune, contains, point_has_lost_files,
}

pub record PointInTime : Type 0 where
  pub point : ℕ
  pub tarfiles : List ℕ
  pub gz_index_file : ℕ

pub record BackupFile : Type 0 where
  pub path : ℕ
  pub st_size : ℕ

-- keeps[point]: false where the map has no entry.
unfoldable pub is_kept : Map Bool → ℕ → Bool
is_kept keeps point = elim (get point keeps) [ none ↦ false | some b ↦ b ]

unfoldable pub points : List PointInTime → List ℕ
points [] = []
points (i ∷ history) = i.point ∷ points history

-- required_beak_files, as the list of what was put in.
unfoldable pub required_beak_files : Map Bool → List PointInTime → List ℕ
unfolding is_kept
required_beak_files keeps [] = []
required_beak_files keeps (i ∷ history) =
    if is_kept keeps i.point
    then i.tarfiles ++ i.gz_index_file ∷ required_beak_files keeps history
    else required_beak_files keeps history

unfoldable pub paths : List BackupFile → List ℕ
paths [] = []
paths (f ∷ files) = f.path ∷ paths files

unfoldable pub count_lost : List ℕ → List ℕ → ℕ
count_lost existing [] = 0
count_lost existing (t ∷ ts) =
    if contains existing t then count_lost existing ts else count_lost existing ts + 1

-- The calls of pointHasLostFiles for the kept points.
unfoldable pub note_lost_files :
    PruneImplementation → Map Bool → List ℕ → List PointInTime → PruneImplementation
unfolding is_kept count_lost
note_lost_files s keeps existing [] = s
note_lost_files s keeps existing (i ∷ history) =
    let lost = count_lost existing i.tarfiles in
    note_lost_files
      (if is_kept keeps i.point && ltb 0 lost then point_has_lost_files s i.point lost 0 else s)
      keeps existing history

unfoldable pub beak_files_to_delete : List ℕ → List BackupFile → List ℕ
beak_files_to_delete required [] = []
beak_files_to_delete required (f ∷ files) =
    if contains required f.path
    then beak_files_to_delete required files
    else f.path ∷ beak_files_to_delete required files

unfoldable pub total_size_removed : List ℕ → List BackupFile → ℕ → ℕ
total_size_removed required [] acc = acc
total_size_removed required (f ∷ files) acc =
    total_size_removed required files
      (if contains required f.path then acc else add64 acc f.st_size)

unfoldable pub total_size_kept : List ℕ → List BackupFile → ℕ → ℕ
total_size_kept required [] acc = acc
total_size_kept required (f ∷ files) acc =
    total_size_kept required files (if contains required f.path then add64 acc f.st_size else acc)

-- What the user and the settings say: a dry run, and whether to proceed.
pub record Consent : Type 0 where
  pub dryrun : Bool
  pub proceed : Bool

-- The files that BeakImplementation::prune hands to removeBackupFiles. `none`: an assertion failed,
-- a point lies in the future, or there is no point at all.
unfoldable pub prune_storage :
    ℕ → Keep → List PointInTime → List BackupFile → Consent → Option (List ℕ)
unfolding points required_beak_files beak_files_to_delete total_size_removed
prune_storage now keep history existing consent = do
  s ← add_points (new_prune now keep) (points history)
  keeps ← prune s
  let required = required_beak_files keeps history
  let unneeded = beak_files_to_delete required existing
  some (
      if total_size_removed required existing 0 == 0
      then []
      else if not consent.dryrun && consent.proceed
      then unneeded
      else [])
