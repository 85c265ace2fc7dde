-- ===== src/FileSystem/Changes.antt =====
-- src/diff.cc, DiffImplementation::diff: what is reported of two listings of files. A listing is a
-- map by path from a FileStat and the path that it is a hard link to, if it is one.
pub mod Verdict
pub mod Told
use beak.Prelude.{
  ℕ, ◌/◌, ◌%◌, Bool, true, false, not, ◌&&◌, ◌||◌, Option, none, some, List, [], ◌∷◌, ◌++◌, ◌==◌,
  if◌then◌else◌, Bytes,
}
use beak.Config.Tables.{Table, find, set}
use beak.FileSystem.{FileStat, same_permissions, same_size, same_mtime}

pub data Action : Type 0 where
  no_change changed permission added removed : Action

pub record Listed : Type 0 where
  pub stat : FileStat
  pub link : Option Bytes

pub record Report : Type 0 where
  pub action : Action
  pub path : Bytes
  pub file : Listed

-- S_ISREG of the mode.
unfoldable pub is_regular_file : FileStat → Bool
is_regular_file s = s.st_mode / 4096 % 16 == 8

-- What operator[] puts into the map for a missing key.
abbrev pub new_listed : Listed
new_listed = record {
  stat = record { st_mode = 0; hard_link = false; st_size = 0; mtim_sec = 0; mtim_nsec = 0 };
  link = none;
}

-- A hard link of the new listing is looked up in the old one, which gets an entry for it.
unfoldable pub follow_new_link :
    Table Listed → Table Listed → Listed → Option Bytes → Table Listed × Listed
follow_new_link old curr new none = (old, new)
follow_new_link old curr new (some h) = elim (find h curr) [
  | none ↦ (old, new)
  | some c ↦ elim (find h old) [ none ↦ (set h new_listed old, new_listed) | some o ↦ (old, o) ]
]

unfoldable pub follow_old_link : Table Listed → Listed → Option Bytes → Listed
follow_old_link old file none = file
follow_old_link old file (some h) = elim (find h old) [ none ↦ file | some o ↦ o ]

-- The reports on a regular file that both have.
unfoldable pub compare_stats : Bytes → Listed → Listed → List Report
compare_stats path new old =
    (if not (same_size new.stat old.stat) || not (same_mtime new.stat old.stat)
      then record { action = Action.changed; path = path; file = new } ∷ []
      else [])
    ++ (if same_permissions new.stat old.stat
        then []
        else record { action = Action.permission; path = path; file = new } ∷ [])

-- A file that both have.
unfoldable pub compare_files :
    Table Listed → Table Listed → Bytes → Listed → Listed → Table Listed × List Report
compare_files old curr path new o =
    let followed = follow_new_link old curr new new.link in
    (followed.0, compare_stats path followed.1 (follow_old_link followed.0 o o.link))

-- A round of the loop over the new listing, from what the old one has at the path.
unfoldable pub compare_entry :
    Table Listed → Table Listed → Bytes → Listed → Option Listed → Table Listed × List Report
compare_entry old curr path new none =
    (old, record { action = Action.added; path = path; file = new } ∷ [])
compare_entry old curr path new (some o) =
    if is_regular_file new.stat then compare_files old curr path new o else (old, [])

unfoldable pub compare_loop :
    Table Listed → Table Listed → Table Listed → Table Listed × List Report
compare_loop old curr [] = (old, [])
compare_loop old curr ((path, new) ∷ rest) =
    let round = compare_entry old curr path new (find path old) in
    let later = compare_loop round.0 curr rest in (later.0, round.1 ++ later.1)

-- A round of the loop over the old listing, from what the new one has at the path.
unfoldable pub removed_entry : Bytes → Listed → Option Listed → List Report
removed_entry path file none = record { action = Action.removed; path = path; file = file } ∷ []
removed_entry path file (some c) = []

unfoldable pub removed_loop : Table Listed → Table Listed → List Report
removed_loop curr [] = []
removed_loop curr ((path, file) ∷ rest) =
    removed_entry path file (find path curr) ++ removed_loop curr rest

-- The calls of addToDirSummary.
unfoldable pub diff : Table Listed → Table Listed → List Report
diff old curr =
    let compared = compare_loop old curr curr in compared.1 ++ removed_loop curr compared.0
