-- ===== src/Backup/Grouping/Once.antt =====
-- src/backup.cc, groupFilesIntoTars: every entry of a tar collection directory ends in one of its
-- tar files.
use beak.Prelude.{
  ℕ, zero, suc, ◌+◌, ◌≤◌, ◌<◌, ◌≡◌, refl, some, List, [], ◌∷◌, arith, All, length, ◌^◌,
}
use beak.Prelude.Words.{u64_mod}
use beak.Tar.Entries.{TarEntry, Contents, TarFile, prepend_hard_links}
use beak.Tar.Entries.Layout.{IsLaidOut, total_size, placed, shifted}
use beak.Tar.Entries.Adding.{prepend_hard_links_lem}
use beak.Backup.Sizes.{NumTars}
use beak.Backup.Sizes.Powers.{sum, calculate_num_tars-IsPlan}
use beak.Backup.Grouping.{Member, Tars, create_tars, start_tars, group_files}
use beak.Backup.Grouping.Placed.{
  count_large, count_entries, count_contents, count_file, count_files, count_tars, IsFine, AreFine,
  new_tar-IsFine, count_contents-append,
}
use beak.Backup.Grouping.Links.{HasNone, AreUnlinked, start_tars-AreUnlinked, place_all-AreUnlinked}
use beak.Backup.Grouping.Steps.{HasTars, sizes_of, entries_of, place_all-AreFine}

create_tars-IsFine :
    (i b n : ℕ)
    → All (IsFine b) (create_tars n)
      × (length (create_tars n) ≡ n)
      × (count_files i (create_tars n) ≡ 0)
unfolding create_tars
create_tars-IsFine i b zero = (tt, refl, refl)
create_tars-IsFine i b (suc n) =
    let (fine, same, count) = create_tars-IsFine i b n in
    ((new_tar-IsFine b, fine), omega (arith, same), omega (arith, count))

start_tars-AreFine :
    (i : ℕ) (n : NumTars)
    → HasTars n (start_tars n) × AreFine 0 (start_tars n) × (count_tars i (start_tars n) ≡ 0)
unfolding start_tars
start_tars-AreFine i n =
    let (small, nst, no_small) = create_tars-IsFine i 0 n.nst in
    let (medium, nmt, no_medium) = create_tars-IsFine i 0 n.nmt in
    (
      record { small_there = nst; medium_there = nmt },
      record {
        small_fine = small;
        medium_fine = medium;
        large_fine = tt;
        taz_fine = new_tar-IsFine 0;
      },
      omega (arith, no_small, no_medium),
    )

count_contents-placed :
    (i o : ℕ) (l : List TarEntry) → count_contents i (placed o l) ≡ count_entries i l
count_contents-placed i o [] = refl
count_contents-placed i o (te ∷ l) = omega (arith, count_contents-placed i (o + te.blocked_size) l)

count_contents-shifted :
    (i by : ℕ) (c : Contents) → count_contents i (shifted by c) ≡ count_contents i c
count_contents-shifted i by [] = refl
count_contents-shifted i by ((k, te) ∷ c) = omega (arith, count_contents-shifted i by c)

prepend_hard_links-IsLaidOut :
    (i b : ℕ) (f : TarFile)
    → IsFine b f
    → b < u64_mod
    → IsLaidOut (prepend_hard_links f)
      × (count_file i (prepend_hard_links f) ≡ count_file i f)
      × HasNone (prepend_hard_links f)
prepend_hard_links-IsLaidOut i b f v h =
    let (laid, put, none_left) =
      prepend_hard_links_lem f v.laid_out v.links_sized (omega (arith, v.within)) in
    let both =
      count_contents-append i (placed 0 f.hard_links)
        (shifted (total_size f.hard_links) f.contents) in
    (
      laid,
      rw (put, none_left)
          (omega (
            arith,
            both,
            count_contents-placed i 0 f.hard_links,
            count_contents-shifted i (total_size f.hard_links) f.contents,
          )),
      none_left,
    )

-- The entries of every tar stand in one gapless row.
pub record AreLaidOut (t : Tars) : Type 0 where
  pub small_laid : All IsLaidOut t.small
  pub medium_laid : All IsLaidOut t.medium
  pub large_laid : All (λ (e : ℕ × TarFile). IsLaidOut e.1) t.large
  pub taz_laid : IsLaidOut t.taz

-- How often an entry is in the contents of the tars. A hard link that waits outside of them does
-- not count.
abbrev pub stored_in : ℕ → List TarFile → ℕ
stored_in i [] = 0
stored_in i (f ∷ fs) = count_contents i f.contents + stored_in i fs

abbrev pub stored_in_large : ℕ → List (ℕ × TarFile) → ℕ
stored_in_large i [] = 0
stored_in_large i ((h, f) ∷ m) = count_contents i f.contents + stored_in_large i m

abbrev pub times_stored : ℕ → Tars → ℕ
times_stored i t =
    stored_in i t.small
    + stored_in i t.medium
    + stored_in_large i t.large
    + count_contents i t.taz.contents

counted_file : (i : ℕ) (f : TarFile) → HasNone f → count_file i f ≡ count_contents i f.contents
counted_file i f h = rw h (omega arith)

stored_in-all : (i : ℕ) (fs : List TarFile) → All HasNone fs → count_files i fs ≡ stored_in i fs
stored_in-all i [] h = refl
stored_in-all i (f ∷ fs) (h, hs) = omega (arith, counted_file i f h, stored_in-all i fs hs)

stored_in_large-all :
    (i : ℕ) (m : List (ℕ × TarFile))
    → All (λ (e : ℕ × TarFile). HasNone e.1) m
    → count_large i m ≡ stored_in_large i m
stored_in_large-all i [] h = refl
stored_in_large-all i ((k, f) ∷ m) (h, hs) =
    omega (arith, counted_file i f h, stored_in_large-all i m hs)

times_stored-all :
    (i : ℕ) (t : Tars) → AreUnlinked t → HasNone t.taz → count_tars i t ≡ times_stored i t
times_stored-all i t v h = omega (
  arith,
  stored_in-all i t.small v.small_unlinked,
  stored_in-all i t.medium v.medium_unlinked,
  stored_in_large-all i t.large v.large_unlinked,
  counted_file i t.taz h,
)

All-IsLaidOut : (b : ℕ) (fs : List TarFile) → All (IsFine b) fs → All IsLaidOut fs
All-IsLaidOut b [] v = tt
All-IsLaidOut b (f ∷ fs) (v, vs) = (v.laid_out, All-IsLaidOut b fs vs)

large-IsLaidOut :
    (b : ℕ) (m : List (ℕ × TarFile))
    → All (λ (e : ℕ × TarFile). IsFine b e.1) m
    → All (λ (e : ℕ × TarFile). IsLaidOut e.1) m
large-IsLaidOut b [] v = tt
large-IsLaidOut b ((h, f) ∷ m) (v, vs) = (v.laid_out, large-IsLaidOut b m vs)

-- For tar files of some size and entries that take up space, at most 2^62 bytes together, the
-- grouping succeeds, divides by no zero and follows no null pointer. Its tars are gapless, and an
-- entry, a directory, a hard link or a file, is in their contents as often as it is among the
-- entries: none is lost and none is stored twice.
pub group_files-Once :
    (i target : ℕ) (entries : List Member)
    → 0 < target
    → All (λ (m : Member). 0 < m.entry.blocked_size) entries
    → sum (sizes_of entries) ≤ 2 ^ 62
    → (t : Tars) × (group_files target entries ≡ some t)
      × AreLaidOut t
      × (times_stored i t ≡ count_entries i (entries_of entries))
unfolding group_files
group_files-Once i target entries h sized few =
    let (n, counted, plan) = calculate_num_tars-IsPlan target (sizes_of entries) h few in
    let (has, fine, empty) = start_tars-AreFine i n in
    let (t, run, fines, count) =
      place_all-AreFine i 0 target (sum (sizes_of entries)) n (start_tars n) entries plan has fine
        sized (omega arith) in
    let (laid, same, none_left) =
      prepend_hard_links-IsLaidOut i (0 + sum (sizes_of entries)) t.taz fines.taz_fine
        (omega arith) in
    let unlinked =
      place_all-AreUnlinked n (start_tars n) t entries run (start_tars-AreUnlinked n) in
    let grouped : Tars = record t { taz = prepend_hard_links t.taz } in
    let stored =
      times_stored-all i grouped
        (record {
          small_unlinked = unlinked.small_unlinked;
          medium_unlinked = unlinked.medium_unlinked;
          large_unlinked = unlinked.large_unlinked;
        })
        none_left in
    (
      record t { taz = prepend_hard_links t.taz },
      rw (counted, run) refl,
      record {
        small_laid = All-IsLaidOut (0 + sum (sizes_of entries)) t.small fines.small_fine;
        medium_laid = All-IsLaidOut (0 + sum (sizes_of entries)) t.medium fines.medium_fine;
        large_laid = large-IsLaidOut (0 + sum (sizes_of entries)) t.large fines.large_fine;
        taz_laid = laid;
      },
      omega (arith, same, count, empty, stored),
    )
