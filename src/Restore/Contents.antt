-- ===== src/Restore/Contents.antt =====
-- src/restore.cc, readCB: what a read of a file gives that the backup holds in several parts.
use beak.Prelude.{
  ℕ, ◌+◌, ◌-◌, ◌%◌, ◌^◌, ◌≤◌, ◌<◌, ◌≡◌, ◌∙◌, refl, false, min, Option, some, arith, ltb, ◌==◌, ap,
  Bytes, drop, ◌++◌, if◌then◌else◌, le→ltb, lt→ltb,
}
use beak.Prelude.Integers.{ℤ, pos, negsuc}
use beak.FileSystem.Paths.{prepend_path}
use beak.Tar.FileName.{TarFileName, new_tar_file_name, parse_file_name}
use beak.Tar.Parts.{PartSizes, calculate_origin_tar_offset}
use beak.Tar.Parts.Origin.{IsSplitFile, IsDataOffset, size_of}
use beak.Restore.{
  as_int, int_of_word, RestoreEntry, Pread, part_file, part_reader, read_entry, read_from,
}
use beak.Restore.Parts.{HasSizes}
use beak.Restore.Reading.{bytes_from, Serves, read_parts_exact}

-- The files of the parts are there under the names that the entry gives them, and a read inside of
-- one fills the buffer. A byte of a part is the byte of the unsplit tar file, `f`, at its origin.
abbrev pub PartsAreThere : Pread → Bytes → RestoreEntry → TarFileName → PartSizes → (ℕ → ℕ) → Type 0
PartsAreThere pread root e tfn t f =
    (k offset amount origin : ℕ) (buffer : Bytes)
    → IsDataOffset t k offset
    → 0 < amount
    → offset + amount ≤ size_of t k
    → amount < 2 ^ 31
    → calculate_origin_tar_offset t k offset ≡ some origin
    → (file : Bytes) × (part_file root e tfn k ≡ some file)
      × (pread file buffer amount offset
          ≡ (pos amount, bytes_from f origin amount ++ drop amount buffer))

as_int-small : (n : ℕ) → n < 2 ^ 31 → as_int (pos n) ≡ pos n
unfolding as_int int_of_word
as_int-small n h = let same : n % 2 ^ 32 ≡ n = omega arith in rw (same, lt→ltb n (2 ^ 31) h) refl

-- What the callback makes of the answer of pread.
abbrev answer : ℤ × Bytes → Option (ℤ × Bytes)
answer r = some (elim (as_int r.0) [ pos n ↦ (pos n, r.1) | negsuc n ↦ (pos 0, r.1) ])

part_reader-Serves :
    (pread : Pread) (root : Bytes) (e : RestoreEntry) (tfn : TarFileName) (t : PartSizes)
    (f : ℕ → ℕ)
    → PartsAreThere pread root e tfn t f
    → Serves t f (part_reader pread root e tfn)
unfolding part_reader
part_reader-Serves pread root e tfn t f there k offset amount origin buffer holds some_left inside
      small at_origin =
    let (file, named, read) =
      there k offset amount origin buffer holds some_left inside small at_origin in
    rw (named, lt→ltb 0 amount some_left) (ap answer read ∙ rw (as_int-small amount small) refl)

-- How much a read gives: what is asked for, up to the end of the file.
amount_read :
    (size offset st_size : ℕ)
    → offset ≤ st_size
    → (if ltb st_size (offset + size) then st_size - offset else size) ≡ min size (st_size - offset)
amount_read size offset st_size h = grind arith

-- When an entry has the sizes of a split tar file and lies inside of it, its tar file's name is a
-- backup file's, and the files of the parts are there, a read of less than 2 ^ 31 bytes from an
-- offset not behind the end of the file fills the buffer with the bytes of the file, up to its end,
-- and answers how many. `f` is the unsplit tar file.
pub read_entry_contents :
    (pread : Pread) (root : Bytes) (e : RestoreEntry) (tfn : TarFileName) (t : PartSizes)
    (f : ℕ → ℕ) (buf : Bytes) (size offset : ℕ)
    → IsSplitFile t
    → HasSizes e t
    → PartsAreThere pread root e tfn t f
    → parse_file_name new_tar_file_name (prepend_path root e.tarr) ≡ some tfn
    → e.offset + e.st_size ≤ t.content_size
    → offset ≤ e.st_size
    → size < 2 ^ 31
    → read_entry pread root e buf size offset
      ≡ some (
        pos (min size (e.st_size - offset)),
        bytes_from f (offset + e.offset) (min size (e.st_size - offset))
            ++ drop (min size (e.st_size - offset)) buf,
      )
unfolding read_entry read_from
read_entry_contents pread root e tfn t f buf size offset v s there named room h small =
    let several : (e.num_parts == 1) ≡ false = ground (arith, v.several, s.same_count) in
    ap (read_from pread root e buf size offset) named
    ∙ rw (amount_read size offset e.st_size h, le→ltb e.st_size offset h, several)
        (rw
          (
            (read_parts_exact e t f (part_reader pread root e tfn) offset
                (min size (e.st_size - offset)) buf v s
                (part_reader-Serves pread root e tfn t f there) (omega arith) (omega arith)),
            as_int-small (min size (e.st_size - offset)) (omega arith),
          )
          refl)
