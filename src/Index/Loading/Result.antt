-- ===== src/Index/Loading/Result.antt =====
-- src/index.cc: Index::loadIndex as a whole.
use beak.Prelude.{
  ℕ, ◌-◌, ◌^◌, false, ◌&&◌, Option, none, some, List, [], ltb, ◌==◌, if◌then◌else◌, Bytes, codes,
  length, take, equal,
}
use beak.Text.Eating.{Eaten, eat_to}
use beak.Text.Hex.{to_hex}
use beak.Index.Rows.Eaten.{IndexEntry}
use beak.Index.Loading.{Header, header_max, read_header, load_files, load_parts}
use beak.Index.Loading.Scan.{scan_counted, scan_word}
use beak.Index.Loading.Tars.{IndexTar, load_tars}

-- `undetermined`: a range of tar files that the code goes on with although it cannot parse it.
pub data Rc : Type 0 where
  ok err undetermined : Rc

-- The calls that were made (those of the tars only if the result is determined), the size, and the
-- result. When the header is not understood, a size that it told before is not kept here.
pub record Loaded : Type 0 where
  pub entries : List IndexEntry
  pub tars : List IndexTar
  pub size : ℕ
  pub rc : Rc

-- A word as an int: how often a loop that counts it down runs.
unfoldable pub positive : ℕ → ℕ
positive n = if ltb n (2 ^ 31) then n else 0

module _ (sha256 : Bytes → Bytes) where
  -- The checksum of what stands before `rest` in the file.
  unfoldable pub checksum : Bytes → Bytes → Bytes
  unfolding to_hex
  checksum v rest = to_hex (sha256 (take (length v - length rest) v))

  -- The line of the checksum, as it was read.
  unfoldable pub check_sum : Bytes → Bytes → Eaten → Rc
  unfolding scan_word checksum equal
  check_sum v rest e = if e.err then err else elim (scan_word (codes "#end") e.text) [
    | none ↦ err
    | some read_hexs ↦ if equal read_hexs (checksum v rest) then ok else err
  ]

  unfoldable pub check_end : Bytes → Bytes → Rc
  unfolding eat_to check_sum
  check_end v rest = check_sum v rest (eat_to rest (some 0) 4096)

  -- The parts and what follows them, after their line.
  unfoldable pub read_parts_line : Bytes → Eaten → Rc
  unfolding scan_counted load_parts positive check_end
  read_parts_line v e = if e.err then err else elim (scan_counted (codes "#parts") e.text) [
    | none ↦ err
    | some num_parts ↦
        let r = load_parts (positive num_parts) e.rest in
        if r.0 == 0 && num_parts == positive num_parts then check_end v r.1 else err
  ]

  unfoldable pub load_end : Bytes → Bytes → Rc
  unfolding eat_to read_parts_line
  load_end v rest = read_parts_line v (eat_to rest (some 0) 4096)

  -- The tars and what follows them, after their line.
  unfoldable pub read_tars : Bytes → ℕ → List IndexEntry → Bytes → Option ℕ → Loaded
  unfolding load_tars positive load_end
  read_tars v size entries rest none = record {
    entries = entries;
    tars = [];
    size = size;
    rc = err;
  }
  read_tars v size entries rest (some num_tars) =
      elim (load_tars (length rest) (positive num_tars) rest) [
        | none ↦ record { entries = entries; tars = []; size = size; rc = undetermined }
        | some r ↦ record {
          entries = entries;
          tars = r.tars;
          size = size;
          rc = if r.left == 0 && num_tars == positive num_tars then load_end v r.rest else err;
        }
      ]

  -- The line is read up to the end of the vector of the header, since the code's eatTo compares the
  -- iterator with the end of that one.
  unfoldable pub read_tars_line : Bytes → ℕ → List IndexEntry → Eaten → Loaded
  unfolding eat_to scan_counted read_tars
  read_tars_line v size entries e =
      read_tars v size entries e.rest
        (scan_counted (codes "#tars") (eat_to e.text (some b'\n') 128).text)

  unfoldable pub load_tail : Bytes → ℕ → List IndexEntry → Bytes → Loaded
  unfolding eat_to read_tars_line
  load_tail v size entries rest = read_tars_line v size entries (eat_to rest (some 0) header_max)

  -- The entries, after the header.
  unfoldable pub read_files :
      Option Bytes → Option Bytes → IndexEntry → Bytes → Header → Bytes → Loaded
  unfolding load_files positive load_tail
  read_files dir safedir ie v h rest =
      let f = load_files dir safedir (positive h.num_files) ie rest false in
      if f.left == 0 && h.num_files == positive h.num_files
      then load_tail v h.size f.entries f.rest
      else record { entries = f.entries; tars = []; size = h.size; rc = err }

  unfoldable pub load_index : Option Bytes → Option Bytes → ℕ → IndexEntry → Bytes → Loaded
  unfolding read_header read_files
  load_index dir safedir size ie v = elim (read_header size v) [
    | none ↦ record { entries = []; tars = []; size = size; rc = err }
    | some hr ↦ read_files dir safedir ie v hr.0 hr.1
  ]
