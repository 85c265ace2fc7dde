-- ===== src/Backup/Grouping.antt =====
-- src/backup.cc, groupFilesIntoTars: the entries of one tar collection directory go into its tar
-- files, by their sizes and by the hashes of their paths. `none` is a loop that does not end, a
-- division by zero or a null pointer that is followed. The numbers of tars fit an int, which is
-- what smallTar takes.
pub mod Placed
pub mod Steps
pub mod Links
pub mod Once
use beak.Prelude.{
  ℕ, zero, suc, ◌%◌, Bool, Option, none, some, List, [], ◌∷◌, map, ltb, ◌==◌, if◌then◌else◌, ◌>>=◌,
  ◌>>◌, guard,
}
use beak.Tar.Entries.{TarEntry, TarFile, add_entry_last, add_hard_link, prepend_hard_links}
use beak.Backup.Sizes.{NumTars, calculate_num_tars}

-- What the grouping asks of an entry.
pub record Member : Type 0 where
  pub entry : TarEntry
  pub is_directory : Bool
  pub is_hard_link : Bool
  pub tarpath_hash : ℕ

-- small_tars_ and medium_tars_, whose keys count from 0, large_tars_ in the order of its keys, and
-- taz_file_.
pub record Tars : Type 0 where
  pub small : List TarFile
  pub medium : List TarFile
  pub large : List (ℕ × TarFile)
  pub taz : TarFile

abbrev pub new_tar : TarFile
new_tar = record {
  contents = [];
  hard_links = [];
  offsets = [];
  current_tar_offset = 0;
  mtim = record { tv_sec = 0; tv_nsec = 0 };
}

unfoldable pub create_tars : ℕ → List TarFile
create_tars zero = []
create_tars (suc n) = new_tar ∷ create_tars n

-- curr = te->smallTar(o); curr->addEntryLast(entry).
unfoldable pub add_at : ℕ → TarEntry → List TarFile → Option (List TarFile)
add_at i te [] = none
add_at zero te (f ∷ fs) = some (add_entry_last f te ∷ fs)
add_at (suc i) te (f ∷ fs) = add_at i te fs >>= λ gs. some (f ∷ gs)

-- A large tar is created when its hash comes first.
unfoldable pub add_large : ℕ → TarEntry → List (ℕ × TarFile) → List (ℕ × TarFile)
add_large h te [] = (h, add_entry_last new_tar te) ∷ []
add_large h te ((j, f) ∷ m) =
    let rest = add_large h te m in
    if h == j
    then (j, add_entry_last f te) ∷ m
    else if ltb h j
    then (h, add_entry_last new_tar te) ∷ (j, f) ∷ m
    else (j, f) ∷ rest

unfoldable pub place_file : NumTars → Tars → Member → Option Tars
place_file n t m =
    if ltb m.entry.blocked_size n.sc
    then (guard (ltb 0 n.nst)
        >> (add_at (m.tarpath_hash % n.nst) m.entry t.small >>= λ fs.
            some (record t { small = fs })))
    else if ltb m.entry.blocked_size n.mc
    then (guard (ltb 0 n.nmt)
        >> (add_at (m.tarpath_hash % n.nmt) m.entry t.medium >>= λ fs.
            some (record t { medium = fs })))
    else some (record t { large = add_large m.tarpath_hash m.entry t.large })

unfoldable pub place : NumTars → Tars → Member → Option Tars
place n t m =
    if m.is_directory
    then some (record t { taz = add_entry_last t.taz m.entry })
    else if m.is_hard_link
    then some (record t { taz = add_hard_link t.taz m.entry })
    else place_file n t m

unfoldable pub place_all : NumTars → Tars → List Member → Option Tars
place_all n t [] = some t
place_all n t (m ∷ ms) = place n t m >>= λ u. place_all n u ms

unfoldable pub start_tars : NumTars → Tars
start_tars n = record {
  small = create_tars n.nst;
  medium = create_tars n.nmt;
  large = [];
  taz = new_tar;
}

unfoldable pub group_files : ℕ → List Member → Option Tars
group_files tar_target_size entries = do
  n ← calculate_num_tars tar_target_size (map (λ (m : Member). m.entry.blocked_size) entries)
  t ← place_all n (start_tars n) entries
  some (record t { taz = prepend_hard_links t.taz })
