-- ===== src/Restore.antt =====
-- src/restore.cc and src/restore.h: the entry of a restored file, where a byte of it lies in the
-- parts of its tar file, and the reads of it through the parts. `none` is an assertion that fails,
-- a division by zero or a null pointer that is followed. What reads from the files of the backup is
-- a parameter.
mod Parts
mod Reading
mod Contents
mod Points
mod Tests
mod PointTests
use beak.Prelude.{
  ℕ, zero, suc, ◌+◌, ◌-◌, ◌/◌, ◌%◌, ◌^◌, Bool, Option, none, some, List, [], ◌∷◌, ◌++◌, ltb, leb,
  ◌==◌, if◌then◌else◌, ◌>>=◌, ◌>>◌, guard, Bytes, length, take, drop,
}
use beak.Prelude.Words.{u32, add64, sub64, mul64, sub32}
use beak.Prelude.Integers.{ℤ, pos, negsuc}
use beak.FileSystem.Paths.{lookup, parent, prepend_path}
use beak.Index.Rows.Eaten.{IndexEntry}
use beak.Tar.FileName.{TarFileName, new_tar_file_name, parse_file_name}
use beak.Tar.FileName.Printing.{write_tar_file_name}

-- The fields that an entry of an index file fills, its FileStat written out. A hard link is part of
-- it.
pub record RestoreEntry : Type 0 where
  pub st_mode : ℕ
  pub st_uid : ℕ
  pub st_gid : ℕ
  pub st_rdev : ℕ × ℕ
  pub st_size : ℕ
  pub mtim_sec : ℕ
  pub mtim_nsec : ℕ
  pub path : Bytes
  pub tarr : Bytes
  pub is_sym_link : Bool
  pub symlink : Bytes
  pub offset : ℕ
  pub num_parts : ℕ
  pub part_offset : ℕ
  pub part_size : ℕ
  pub last_part_size : ℕ
  pub ondisk_part_size : ℕ
  pub ondisk_last_part_size : ℕ

-- Every field is overwritten.
unfoldable pub load_from_index : IndexEntry → RestoreEntry
load_from_index ie = record {
  st_mode = ie.st_mode;
  st_uid = ie.st_uid;
  st_gid = ie.st_gid;
  st_rdev = ie.st_rdev;
  st_size = ie.st_size;
  mtim_sec = ie.mtim_sec;
  mtim_nsec = ie.mtim_nsec;
  path = ie.path;
  tarr = lookup ie.tarr;
  is_sym_link = ie.is_sym_link;
  symlink = ie.link;
  offset = ie.offset;
  num_parts = ie.num_parts;
  part_offset = ie.part_offset;
  part_size = ie.part_size;
  last_part_size = ie.last_part_size;
  ondisk_part_size = ie.ondisk_part_size;
  ondisk_last_part_size = ie.ondisk_last_part_size;
}

-- The number of the part, a uint, and the offset inside of it.
unfoldable pub find_part_containing_offset : RestoreEntry → ℕ → Option (ℕ × ℕ)
find_part_containing_offset e file_offset =
    if ltb file_offset e.part_size then some (0, file_offset) else (do
      let rest = sub64 file_offset e.part_size
      let part_data_size = sub64 e.part_size e.part_offset
      guard (ltb 0 part_data_size)
      let n = u32 (rest / part_data_size)
      let remainder = sub64 rest (mul64 n part_data_size)
      some (u32 (n + 1), add64 remainder e.part_offset))

unfoldable pub length_of_part : RestoreEntry → ℕ → ℕ
length_of_part e partnr = if partnr == sub32 e.num_parts 1 then e.last_part_size else e.part_size

unfoldable pub content_size : RestoreEntry → ℕ → ℕ
content_size e partnr = if partnr == sub32 e.num_parts 1 then e.last_part_size else e.part_size

unfoldable pub disk_size : RestoreEntry → ℕ → ℕ
disk_size e partnr =
    if partnr == sub32 e.num_parts 1 then e.ondisk_last_part_size else e.ondisk_part_size

-- The callback of readParts: the part, the offset inside of it, the buffer and how much to read;
-- what it returns, and the buffer afterwards.
abbrev pub PartReader : Type 0
PartReader = ℕ → ℕ → Bytes → ℕ → Option (ℤ × Bytes)

-- How much of `length` the part still has behind the offset.
unfoldable pub length_to_read : RestoreEntry → ℕ → ℕ → ℕ → ℕ
length_to_read e partnr offset_inside_part length =
    let length_of_part = length_of_part e partnr in
    if ltb length_of_part (add64 length offset_inside_part)
    then sub64 length_of_part offset_inside_part
    else length

-- The rounds of the loop: `n` is what the callbacks returned so far, and the buffer is from here
-- on. A round reads a byte or more, so the fuel is the length.
unfoldable pub read_parts_loop :
    ℕ → RestoreEntry → PartReader → ℕ → ℕ → Bytes → ℕ → Option (ℕ × Bytes)
read_parts_loop zero e cb n file_offset buffer length =
    if ltb 0 length then none else some (n, buffer)
read_parts_loop (suc fuel) e cb n file_offset buffer length =
    if length == 0 then some (n, buffer) else (do
      (partnr, offset_inside_part) ← find_part_containing_offset e file_offset
      let amount = length_to_read e partnr offset_inside_part length
      guard (ltb 0 amount)
      (nn, filled) ← cb partnr offset_inside_part buffer amount
      elim nn [
        | pos zero ↦ some (n, filled)
        | negsuc k ↦ some (n, filled)
        | pos (suc k) ↦
            read_parts_loop fuel e cb (n + suc k) (add64 file_offset amount) (drop amount filled)
              (sub64 length amount)
            >>= λ r. some (r.0, take amount filled ++ r.1)
      ])

unfoldable pub read_parts : RestoreEntry → PartReader → ℕ → Bytes → ℕ → Option (ℕ × Bytes)
read_parts e cb file_offset buffer length =
    read_parts_loop length e cb 0 (add64 file_offset e.offset) buffer length

-- FileSystem::pread: the file, the buffer, how much to read and from where; what it returns, and
-- the buffer afterwards.
abbrev pub Pread : Type 0
Pread = Bytes → Bytes → ℕ → ℕ → ℤ × Bytes

-- The name of the file that holds a part.
unfoldable pub part_file : Bytes → RestoreEntry → TarFileName → ℕ → Option Bytes
part_file root e tfn partnr = do
  above ← parent e.path
  name ← write_tar_file_name 4096 (some (prepend_path root above)) (record tfn {
    part_nr = partnr;
    size = content_size e partnr;
    ondisk_size = disk_size e partnr;
    num_parts = e.num_parts;
  })
  some (lookup name)

-- A conversion to int, which keeps the lower 32 bits.
unfoldable pub int_of_word : ℕ → ℤ
int_of_word m = if ltb m (2 ^ 31) then pos m else negsuc (2 ^ 32 - 1 - m)

unfoldable pub as_int : ℤ → ℤ
unfolding int_of_word
as_int (pos n) = int_of_word (n % 2 ^ 32)
as_int (negsuc n) = int_of_word (2 ^ 32 - 1 - n % 2 ^ 32)

-- The callback that readCB passes: a read that fails is a read of nothing. What pread answers is
-- kept in an int.
unfoldable pub part_reader : Pread → Bytes → RestoreEntry → TarFileName → PartReader
part_reader pread root e tfn partnr offset_inside_part buffer amount = do
  tarf ← part_file root e tfn partnr
  guard (ltb 0 amount)
  let (nn, filled) = pread tarf buffer amount offset_inside_part
  some (elim (as_int nn) [ pos n ↦ (pos n, filled) | negsuc n ↦ (pos 0, filled) ])

-- -ENOENT.
abbrev pub enoent : ℤ
enoent = negsuc 1

-- A whole tar file: -1 is the error, as an int.
unfoldable pub pread_whole : ℤ × Bytes → ℤ × Bytes
pread_whole (nn, filled) = elim (as_int nn) [
  | pos n ↦ (pos n, filled)
  | negsuc zero ↦ (enoent, filled)
  | negsuc (suc n) ↦ (negsuc (suc n), filled)
]

-- What readCB does with the tar file: what is behind the end of the file is not read, and what is
-- answered is an int. The sums of off_t stay in range.
unfoldable pub read_from :
    Pread → Bytes → RestoreEntry → Bytes → ℕ → ℕ → Option TarFileName → Option (ℤ × Bytes)
read_from pread root e buf size offset none = some (enoent, buf)
read_from pread root e buf size offset (some tfn) =
    let amount = if ltb e.st_size (offset + size) then e.st_size - offset else size in
    if ltb e.st_size offset
    then some (pos 0, buf)
    else if e.num_parts == 1
    then some (pread_whole (pread (prepend_path root e.tarr) buf amount (offset + e.offset)))
    else read_parts e (part_reader pread root e tfn) offset buf amount >>= λ r.
        some (as_int (pos r.0), r.1)

-- readCB, for the entry that was found.
unfoldable pub read_entry : Pread → Bytes → RestoreEntry → Bytes → ℕ → ℕ → Option (ℤ × Bytes)
read_entry pread root e buf size offset =
    read_from pread root e buf size offset
      (parse_file_name new_tar_file_name (prepend_path root e.tarr))
