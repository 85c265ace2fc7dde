-- ===== src/Index/LoadingTests.antt =====
-- Runs of the reader and the writer of index files, and their theorems at concrete inputs.
use beak.Prelude.{
  ◌≡◌, refl, ap, equal, none, some, [], ◌∷◌, ◌++◌, arith, Bytes, codes, length, has_char, inl, inr,
  at,
}
use beak.Prelude.Words.{u32, sub32}
use beak.Prelude.Decimal.{to_decimal, digits_loop}
use beak.Text.Hex.{to_hex, hex_digit, is_hex}
use beak.Text.Eating.{eat_to, eat_loop, stops, step_over, missed, is_end}
use beak.Text.Names.{starts_with}
use beak.Tar.Parts.{part_content_size, disk_size}
use beak.Tar.FileName.{chartype, suffixtype}
use beak.Tar.FileName.Printing.{
  write_tar_file_name, base_name, pad, strftime, gmtime, hex_padded, width_loop, to_hexadecimal,
  hex_loop,
}
use beak.Index.Rows.{tar_file_name}
use beak.Index.Tests.{photo_tar, photo, photo-IsIndexable, fresh}
use beak.Index.Loading.{Header, read_header, read_data, read_version, read_lines}
use beak.Index.Loading.Tars.{load_tars, drop_front_slash}
use beak.Index.Loading.Result.{Loaded, ok, err, load_index}
use beak.Index.Loading.Checked.{load_index-ok, HasChecksum}
use beak.Index.Loading.Stable.{ReadsLines, LoadsTars, read_lines-ReadsLines, load_tars-LoadsTars}
use beak.Index.Writing.{
  StoredTar, IndexContents, stored_name, index_contents, num_content_splits, is_content_split,
  spaced,
}
use beak.Index.Writing.Header.{HasHeader}
use beak.Index.Writing.Singles.{IsSingle}
use beak.Index.Writing.PartNames.{IsRange}
use beak.Index.Rows.{StoredTarFile}
use beak.Tar.Split.{split_large_file_tar}
use beak.Tar.FileName.Numbers.{all_hex}
use beak.FileSystem.Paths.{lookup, drop_back}
use beak.Index.Writing.RoundTrip.{IsLoadable, loaded, load-index_contents}

-- A hash for the runs: the length of the text in its first byte.
abbrev test_hash : Bytes → Bytes
test_hash s =
    length s
    ∷ 1
    ∷ 2
    ∷ 3
    ∷ 4
    ∷ 5
    ∷ 6
    ∷ 7
    ∷ 8
    ∷ 9
    ∷ 10
    ∷ 11
    ∷ 12
    ∷ 13
    ∷ 14
    ∷ 15
    ∷ 16
    ∷ 17
    ∷ 18
    ∷ 19
    ∷ 20
    ∷ 21
    ∷ 22
    ∷ 23
    ∷ 24
    ∷ 25
    ∷ 26
    ∷ 27
    ∷ 28
    ∷ 29
    ∷ 30
    ∷ 31
    ∷ []

abbrev stored : StoredTar
stored = record { path = codes "a"; safepath = codes "a"; file = photo_tar; single_content = [] }

stored_run :
    stored_name stored 0
    ≡ some (codes "a/beak_s_1597335691.456088.2020-08-13.162131_4626_1-1_1536_2000.tar")
unfolding stored_name tar_file_name part_content_size disk_size write_tar_file_name base_name
    chartype to_decimal digits_loop pad strftime gmtime hex_padded width_loop to_hexadecimal
    hex_loop hex_digit u32 suffixtype to_hex
stored_run = refl

stored-IsSingle : IsSingle stored
unfolding drop_front_slash has_char
stored-IsSingle = record {
  one_part = refl;
  name = codes "a/beak_s_1597335691.456088.2020-08-13.162131_4626_1-1_1536_2000.tar";
  named = stored_run;
  nonempty = omega arith;
  name_free = refl;
  no_blank = refl;
  name_fits = omega arith;
  path_free = refl;
  path_fits = omega arith;
}

-- A tar file in four parts.
abbrev film_tar : StoredTarFile
film_tar = record {
  sizes = record {
    tar_contents = split_large_file_tar;
    content_size = 7168;
    num_parts = 4;
    part_size = 2560;
    last_part_size = 1024;
    part_header_size = 512;
    ondisk_part_size = 2560;
    ondisk_last_part_size = 1024;
  };
  mtim_sec = 1597335691;
  mtim_nsec = 456088000;
  sha256_hash = 70 ∷ 38 ∷ [];
}

abbrev film : StoredTar
film = record { path = codes "a"; safepath = codes "a"; file = film_tar; single_content = [] }

film_run :
    (stored_name film 0
      ≡ some (codes "a/beak_i_1597335691.456088.2020-08-13.162131_4626_1-4_2560_2560.tar"))
    × (stored_name film 3
        ≡ some (codes "a/beak_i_1597335691.456088.2020-08-13.162131_4626_4-4_1024_1024.tar"))
unfolding stored_name tar_file_name part_content_size disk_size write_tar_file_name base_name
    chartype to_decimal digits_loop pad strftime gmtime hex_padded width_loop to_hexadecimal
    hex_loop hex_digit u32 suffixtype to_hex sub32
film_run = (refl, refl)

film-IsRange : IsRange film
unfolding all_hex is_hex to_hex hex_digit lookup drop_back at has_char
film-IsRange = record {
  several = omega arith;
  few_parts = omega arith;
  sec_fits = omega arith;
  micros = refl;
  nsec_fits = omega arith;
  size_fits = omega arith;
  last_size_fits = omega arith;
  disk_fits = omega arith;
  last_disk_fits = omega arith;
  hash_hex = refl;
  some_dir = omega arith;
  plain_dir = refl;
  relative = refl;
  first = codes "a/beak_i_1597335691.456088.2020-08-13.162131_4626_1-4_2560_2560.tar";
  first_named = film_run.0;
  first_fits = omega arith;
  first_free = refl;
  no_blank = refl;
  last = codes "a/beak_i_1597335691.456088.2020-08-13.162131_4626_4-4_1024_1024.tar";
  last_named = film_run.1;
  last_fits = omega arith;
  last_free = refl;
  path_free = refl;
  path_fits = omega arith;
}

abbrev backup : IndexContents
backup = record {
  config = codes "--depth 2";
  uids = 1000 ∷ [];
  gids = 100 ∷ [];
  entries = photo ∷ [];
  tars = stored ∷ film ∷ [];
}

backup-HasHeader : HasHeader backup
unfolding has_char spaced to_decimal digits_loop
backup-HasHeader = record {
  config_line = refl;
  config_free = refl;
  config_fits = omega arith;
  uids_fit = omega arith;
  gids_fit = omega arith;
  few_entries = omega arith;
}

backup-IsLoadable : IsLoadable backup
unfolding num_content_splits is_content_split
backup-IsLoadable = record {
  header = backup-HasHeader;
  entries = (photo-IsIndexable, tt);
  tars = (inl stored-IsSingle, (inr film-IsRange, tt));
  few_tars = omega arith;
  unlisted = refl;
}

test_digest : (s : Bytes) → length (test_hash s) ≡ 32
test_digest s = omega arith

load-index_contents_example :
    (v : Bytes) × (index_contents test_hash backup ≡ some v)
    × (load_index test_hash none none 0 fresh v
        ≡ loaded test_hash test_digest backup backup-IsLoadable none none fresh)
load-index_contents_example =
    load-index_contents test_hash test_digest backup backup-IsLoadable none none fresh 0

-- A file that was written, as the theorem gives it.
abbrev written : Bytes
written = (load-index_contents test_hash test_digest backup backup-IsLoadable none none fresh 0).0

written-ok : (load_index test_hash none none 0 fresh written).rc ≡ ok
written-ok =
    ap (λ (l : Loaded). l.rc)
      (load-index_contents test_hash test_digest backup backup-IsLoadable none none fresh 0).2

load_index-ok_example :
    (h : Header) × (rest : Bytes) × (read_header 0 written ≡ some (h, rest))
    × HasChecksum test_hash written
    × (length (load_index test_hash none none 0 fresh written).entries ≡ h.num_files)
    × ((load_index test_hash none none 0 fresh written).size ≡ h.size)
load_index-ok_example = load_index-ok test_hash none none 0 fresh written written-ok

abbrev no_header : Header
no_header = record { config = []; size = 0; num_files = 0 }

read_lines-ReadsLines_example :
    ReadsLines no_header
      (codes "#gids\n#files 2 x\n")
      (read_lines 20 no_header (codes "#gids\n#files 2 x\n"))
read_lines-ReadsLines_example =
    read_lines-ReadsLines 20 no_header (codes "#gids\n#files 2 x\n") (omega arith)

-- A row without a name, and one with a name.
abbrev two_rows : Bytes
two_rows =
    codes "/a/"
    ++ 0 ∷ 0 ∷ 0 ∷ (codes "\n" ++ 0 ∷ (codes "/a/" ++ 0 ∷ 0 ∷ 0 ∷ (codes "b\n" ++ 0 ∷ [])))

load_tars-LoadsTars_example : LoadsTars 1 two_rows (load_tars 30 1 two_rows)
load_tars-LoadsTars_example = load_tars-LoadsTars 30 1 two_rows (omega arith)

-- A wrong version is an error.
version_run :
    (load_index test_hash none none 0 fresh (codes "#beak 0.8\n#files 0 x\n" ++ 0 ∷ [])).rc ≡ err
unfolding load_index read_header read_data read_version eat_to eat_loop stops step_over missed
    is_end starts_with equal
version_run = refl
