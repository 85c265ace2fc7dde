-- ===== src/Index/Writing/Header.antt =====
-- src/backup.cc and src/index.cc: the header of an index file that the backup wrote is read back.
use beak.Prelude.{
  ℕ, suc, ◌+◌, ◌^◌, ◌≤◌, ◌<◌, ◌≡◌, refl, ap, ◌∙◌, false, some, List, [], ◌∷◌, ◌++◌, arith, ◌==◌,
  Bytes, codes, length, length-append, has_char, strip_prefix, ◌%◌,
}
use beak.Prelude.Words.{u64_mod, add64}
use beak.Prelude.Decimal.{to_decimal, is_digit, length-to_decimal}
use beak.Text.Eating.{Eaten, eat_to, eat_to-append}
use beak.Tar.FileName.Numbers.{free-append}
use beak.Index.Rows.Columns.{decimal-free}
use beak.Index.Loading.{Header, header_max, read_lines, read_version, read_data, read_header}
use beak.Index.Loading.Lines.{
  eat_line, read_lines-next, read_lines-last, read_line-config, read_line-size, read_line-other,
  read_line-files,
}
use beak.Index.Writing.{
  StoredTar, IndexContents, backup_size, spaced, cook_columns, line, header_text,
}

-- What the lines of a header can hold.
pub record HasHeader (c : IndexContents) : Type 0 where
  pub config_line : has_char c.config b'\n' ≡ false
  pub config_free : has_char c.config 0 ≡ false
  pub config_fits : length c.config ≤ 1000
  pub uids_fit : length (spaced c.uids) ≤ 1000
  pub gids_fit : length (spaced c.gids) ≤ 1000
  pub few_entries : length c.entries < 2 ^ 31

pub backup_size-fits : (ts : List StoredTar) (n : ℕ) → n < u64_mod → backup_size ts n < u64_mod
unfolding backup_size add64
backup_size-fits [] n h = h
backup_size-fits (t ∷ ts) n h =
    backup_size-fits ts ((n + t.file.sizes.content_size) % u64_mod) (omega arith)

spaced-free :
    (xs : List ℕ) (c : ℕ)
    → is_digit c ≡ false
    → (b' ' == c) ≡ false
    → has_char (spaced xs) c ≡ false
unfolding spaced has_char
spaced-free [] c h k = refl
spaced-free (x ∷ xs) c h k =
    rw (k, free-append (to_decimal x) (spaced xs) c (decimal-free x c h) (spaced-free xs c h k))
      refl

module _ (c : IndexContents) (v : HasHeader c) where
  abbrev size : ℕ
  size = backup_size c.tars 0

  -- The header that comes back.
  abbrev pub told : Header
  told = record { config = c.config; size = size; num_files = length c.entries }

  abbrev files_text : Bytes
  files_text = to_decimal (length c.entries) ++ b' ' ∷ cook_columns

  files-free :
      (x : ℕ)
      → is_digit x ≡ false
      → has_char (b' ' ∷ cook_columns) x ≡ false
      → has_char files_text x ≡ false
  files-free x h k =
      free-append (to_decimal (length c.entries)) (b' ' ∷ cook_columns) x
        (decimal-free (length c.entries) x h) k

  abbrev last_lines : Bytes
  last_lines = line (codes "#files ") files_text

  abbrev from_gids : Bytes
  from_gids = line (codes "#gids") (spaced c.gids) ++ (line (codes "#delta") [] ++ last_lines)

  abbrev from_size : Bytes
  from_size =
      line (codes "#size ") (to_decimal size) ++ (line (codes "#uids") (spaced c.uids) ++ from_gids)

  abbrev from_config : Bytes
  from_config = line (codes "#config ") c.config ++ from_size

  read-files :
      (fuel : ℕ) (h : Header)
      → read_lines (suc fuel) h last_lines ≡ some (record h { num_files = length c.entries })
  unfolding has_char is_digit
  read-files fuel h =
      let fits = length-to_decimal (length c.entries) 9 (omega (arith, v.few_entries)) in
      let e = length-append (to_decimal (length c.entries)) (b' ' ∷ cook_columns) in
      read_lines-last fuel h _ (codes "#files " ++ files_text) (files-free b'\n' refl refl)
        (omega (arith, fits, e))
        (read_line-files h (length c.entries) cook_columns (omega (arith, v.few_entries)))

  read-gids :
      (fuel : ℕ) (h : Header)
      → read_lines (suc (suc (suc fuel))) h from_gids
        ≡ some (record h { num_files = length c.entries })
  unfolding has_char strip_prefix is_digit
  read-gids fuel h =
      read_lines-next (suc (suc fuel)) h h (codes "#gids" ++ spaced c.gids)
        (line (codes "#delta") [] ++ last_lines) (spaced-free c.gids b'\n' refl refl)
        (omega (arith, v.gids_fit))
        (read_line-other h (codes "#gids" ++ spaced c.gids) refl refl refl)
      ∙ read_lines-next (suc fuel) h h (codes "#delta") last_lines refl (omega arith)
          (read_line-other h (codes "#delta") refl refl refl)
      ∙ read-files fuel h

  read-size :
      (fuel : ℕ) (h : Header)
      → read_lines (suc (suc (suc (suc (suc fuel))))) h from_size
        ≡ some (record h { size = size; num_files = length c.entries })
  unfolding has_char strip_prefix is_digit
  read-size fuel h =
      let fits =
        length-to_decimal size 19 (omega (arith, backup_size-fits c.tars 0 (omega arith))) in
      let h1 : Header = record h { size = size } in
      read_lines-next (suc (suc (suc (suc fuel)))) h h1 (codes "#size " ++ to_decimal size)
        (line (codes "#uids") (spaced c.uids) ++ from_gids) (decimal-free size b'\n' refl)
        (omega (arith, fits)) (read_line-size h size (backup_size-fits c.tars 0 (omega arith)))
      ∙ read_lines-next (suc (suc (suc fuel))) h1 h1 (codes "#uids" ++ spaced c.uids) from_gids
          (spaced-free c.uids b'\n' refl refl) (omega (arith, v.uids_fit))
          (read_line-other h1 (codes "#uids" ++ spaced c.uids) refl refl refl)
      ∙ read-gids fuel h1

  read-config :
      (fuel : ℕ) (h : Header)
      → read_lines (suc (suc (suc (suc (suc (suc fuel)))))) h from_config ≡ some told
  unfolding has_char
  read-config fuel h =
      read_lines-next (suc (suc (suc (suc (suc fuel))))) h (record h { config = c.config })
        (codes "#config " ++ c.config) from_size v.config_line (omega (arith, v.config_fits))
        (read_line-config h c.config)
      ∙ read-size fuel (record h { config = c.config })

  -- No zero in a line with a known key, if there is none in what it says and in what follows.
  line-free :
      (text more : Bytes)
      → has_char text 0 ≡ false
      → has_char more 0 ≡ false
      → has_char ((text ++ codes "\n") ++ more) 0 ≡ false
  unfolding has_char
  line-free text more h k =
      free-append (text ++ codes "\n") more 0 (free-append text (codes "\n") 0 h refl) k

  last_lines-free : has_char last_lines 0 ≡ false
  unfolding has_char is_digit
  last_lines-free = free-append files_text (codes "\n") 0 (files-free 0 refl refl) refl

  header_lines : header_text c ≡ line (codes "#beak ") (codes "0.9") ++ from_config
  unfolding header_text
  header_lines = refl

  header_text-free : has_char (header_text c) 0 ≡ false
  unfolding has_char is_digit
  header_text-free =
      ap (λ s. has_char s 0) header_lines
      ∙ line-free c.config from_size v.config_free (
          line-free (to_decimal size) (line (codes "#uids") (spaced c.uids) ++ from_gids)
            (decimal-free size 0 refl)
            (line-free (spaced c.uids) from_gids (spaced-free c.uids 0 refl refl) (
              line-free (spaced c.gids) (line (codes "#delta") [] ++ last_lines)
                (spaced-free c.gids 0 refl refl) last_lines-free)))

  line-length :
      (text more : Bytes) (m n : ℕ)
      → length text ≤ m
      → length more ≤ n
      → length ((text ++ codes "\n") ++ more) ≤ m + 1 + n
  line-length text more m n h k =
      omega (arith, length-append (text ++ codes "\n") more, length-append text (codes "\n"), h, k)

  from_gids-fits : length from_gids ≤ 1400
  from_gids-fits =
      let files = length-to_decimal (length c.entries) 9 (omega (arith, v.few_entries)) in
      let text = length-append (to_decimal (length c.entries)) (b' ' ∷ cook_columns) in
      let last = length-append files_text (codes "\n") in
      let gids =
        line-length (spaced c.gids) (line (codes "#delta") [] ++ last_lines) 1000 300 v.gids_fit
          (omega (arith, files, text, last)) in
      omega (arith, gids)

  from_config-fits : length from_config ≤ 4000
  from_config-fits =
      let digits =
        length-to_decimal size 19 (omega (arith, backup_size-fits c.tars 0 (omega arith))) in
      let uids = line-length (spaced c.uids) from_gids 1000 1400 v.uids_fit from_gids-fits in
      let sizes =
        line-length (to_decimal size) (line (codes "#uids") (spaced c.uids) ++ from_gids) 20 2410
          digits (omega (arith, uids)) in
      let all = line-length c.config from_size 1000 2450 v.config_fits (omega (arith, sizes)) in
      omega (arith, all)

  header_text-fits : length (header_text c) ≤ header_max
  header_text-fits = let e = ap length header_lines in omega (arith, e, from_config-fits)

  read_version-written :
      (old : ℕ) (rest : Bytes)
      → read_version old rest (codes "#beak 0.9") from_config ≡ some (told, rest)
  unfolding read_version
  read_version-written old rest =
      let first : Header = record { config = []; size = old; num_files = 0 } in
      let lines : read_lines (suc (length from_config)) first from_config ≡ some told =
        read-config (suc (suc (suc (length (c.config ++ codes "\n" ++ from_size))))) first in
      rw lines refl

  read_data-written :
      (old : ℕ) (rest : Bytes) → read_data old rest (header_text c) ≡ some (told, rest)
  unfolding read_data has_char
  read_data-written old rest =
      ap
        (λ s. read_version old rest (eat_to s (some b'\n') 64).text (eat_to s (some b'\n') 64).rest)
        header_lines
      ∙ ap (λ (e : Eaten). read_version old rest e.text e.rest)
          (eat_line (codes "#beak 0.9") from_config 64 refl (omega arith))
      ∙ read_version-written old rest

  -- The header is told, and the reader stands behind its separator.
  pub read_header-header_text :
      (old : ℕ) (rest : Bytes) → read_header old (header_text c ++ 0 ∷ rest) ≡ some (told, rest)
  unfolding read_header
  read_header-header_text old rest =
      ap (λ (e : Eaten). read_data old e.rest e.text)
        (eat_to-append (header_text c) rest 0 header_max header_text-free header_text-fits)
      ∙ read_data-written old rest
