-- ===== src/Tar/Entries.antt =====
-- src/tarfile.cc: the entries of a TarFile and their offsets (addEntryLast, addEntryFirst,
-- addHardLink, prependHardLinks, findTarEntry), and the modification time that an entry hands on
-- (updateMtim of src/tarentry.cc; TarFile::updateMtim has the same body).
-- An entry stands in the record by value: the code puts a TarEntry object into one TarFile, once,
-- so the offset that registerTarFile stores is the one of that file.
pub mod Layout
pub mod Adding
pub mod Lookup
use beak.Prelude.{
  ℕ, ◌+◌, ◌*◌, ◌/◌, Bool, true, false, ◌&&◌, ◌||◌, Option, none, some, List, [], ◌∷◌, ◌++◌, ltb,
  leb, ◌==◌, if◌then◌else◌, ◌>>=◌,
}
use beak.Prelude.Words.{add64}

pub record Timespec : Type 0 where
  pub tv_sec : ℕ
  pub tv_nsec : ℕ

pub record TarEntry : Type 0 where
  pub id : ℕ
  pub blocked_size : ℕ
  pub mtim : Timespec
  pub tar_offset : ℕ

-- std::map<size_t, TarEntry*>, in the order of its keys.
abbrev pub Contents : Type 0
Contents = List (ℕ × TarEntry)

pub record TarFile : Type 0 where
  pub contents : Contents
  pub hard_links : List TarEntry
  pub offsets : List ℕ
  pub current_tar_offset : ℕ
  pub mtim : Timespec

-- upToNearestMicros of src/util.cc; it rounds down.
unfoldable pub up_to_nearest_micros : ℕ → ℕ
up_to_nearest_micros nsec = nsec / 1000 * 1000

-- The file's time becomes the entry's, if that is later.
unfoldable pub update_mtim : Timespec → Timespec → Timespec
unfolding up_to_nearest_micros
update_mtim own file =
    let nsec = up_to_nearest_micros file.tv_nsec in
    let mynsec = up_to_nearest_micros own.tv_nsec in
    if ltb file.tv_sec own.tv_sec || (own.tv_sec == file.tv_sec && ltb nsec mynsec)
    then record { tv_sec = own.tv_sec; tv_nsec = mynsec }
    else file

unfoldable pub register_tar_file : TarEntry → ℕ → TarEntry
register_tar_file te offset = record te { tar_offset = offset }

-- contents_[offset] = entry.
unfoldable pub put_entry : ℕ → TarEntry → Contents → Contents
put_entry k te [] = (k, te) ∷ []
put_entry k te ((j, other) ∷ m) =
    if ltb k j
    then (k, te) ∷ (j, other) ∷ m
    else if k == j
    then (k, te) ∷ m
    else (j, other) ∷ put_entry k te m

unfoldable pub add_entry_last : TarFile → TarEntry → TarFile
unfolding register_tar_file
add_entry_last f te = record f {
  mtim = update_mtim te.mtim f.mtim;
  contents = put_entry f.current_tar_offset (register_tar_file te f.current_tar_offset) f.contents;
  offsets = f.offsets ++ f.current_tar_offset ∷ [];
  current_tar_offset = add64 f.current_tar_offset te.blocked_size;
}

-- The loop over contents_ that moves every entry `by` bytes up, into the new map and offsets.
unfoldable pub move_up : ℕ → Contents → Contents → List ℕ → Contents × List ℕ
unfolding register_tar_file
move_up by [] newc newo = (newc, newo)
move_up by ((k, te) ∷ m) newc newo =
    move_up by m (put_entry (add64 k by) (register_tar_file te (add64 k by)) newc)
      (newo ++ add64 k by ∷ [])

unfoldable pub add_entry_first : TarFile → TarEntry → TarFile
unfolding register_tar_file
add_entry_first f te =
    let (newc, newo) =
      move_up te.blocked_size f.contents (put_entry 0 (register_tar_file te 0) []) (0 ∷ []) in
    record f {
      mtim = update_mtim te.mtim f.mtim;
      contents = newc;
      offsets = newo;
      current_tar_offset = add64 f.current_tar_offset te.blocked_size;
    }

unfoldable pub add_hard_link : TarFile → TarEntry → TarFile
add_hard_link f te = record f { hard_links = f.hard_links ++ te ∷ [] }

unfoldable pub blocked_sum : List TarEntry → ℕ → ℕ
blocked_sum [] acc = acc
blocked_sum (te ∷ l) acc = blocked_sum l (add64 acc te.blocked_size)

-- The loop over hard_links_: map, offsets and time of the file so far, and the next offset.
unfoldable pub place_links :
    List TarEntry → Contents → List ℕ → Timespec → ℕ → Contents × List ℕ × Timespec
unfolding register_tar_file
place_links [] newc newo mtim offset = (newc, newo, mtim)
place_links (te ∷ l) newc newo mtim offset =
    place_links l (put_entry offset (register_tar_file te offset) newc) (newo ++ offset ∷ [])
      (update_mtim te.mtim mtim) (add64 offset te.blocked_size)

unfoldable pub prepend_hard_links : TarFile → TarFile
unfolding blocked_sum place_links
prepend_hard_links f =
    let prepended = blocked_sum f.hard_links 0 in
    let (linkc, linko, mtim) = place_links f.hard_links [] [] f.mtim 0 in
    let (newc, newo) = move_up prepended f.contents linkc linko in
    record f {
      contents = newc;
      offsets = newo;
      mtim = mtim;
      hard_links = [];
      current_tar_offset = add64 f.current_tar_offset prepended;
    }

-- The element before lower_bound(offsets, offset, less_equal); none if there is none.
unfoldable pub last_at_most : List ℕ → ℕ → Option ℕ → Option ℕ
last_at_most [] offset prev = prev
last_at_most (o ∷ os) offset prev = if leb o offset then last_at_most os offset (some o) else prev

unfoldable pub lookup : ℕ → Contents → Option TarEntry
lookup k [] = none
lookup k ((j, te) ∷ m) = if j == k then some te else lookup k m

-- `none` is a read outside of offsets_ or through a null entry; `some none` is the null answer.
unfoldable pub find_tar_entry : TarFile → ℕ → ℕ → Option (Option (TarEntry × ℕ))
unfolding last_at_most lookup
find_tar_entry f content_size offset =
    if ltb content_size offset
    then some none
    else (do o ← last_at_most f.offsets offset none; te ← lookup o f.contents; some (some (te, o)))
