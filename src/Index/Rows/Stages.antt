-- ===== src/Index/Rows/Stages.antt =====
-- src/tarentry.cc: each column that cookEntry writes is read by its step of eatEntry.
use beak.Prelude.{
  ℕ, ◌^◌, ◌≤◌, ◌<◌, ◌≡◌, refl, ap, ◌∙◌, true, false, Option, List, [], ◌∷◌, ◌++◌, arith, ltb, ◌==◌,
  if◌then◌else◌, Bytes, codes, length, length-append, has_char,
}
use beak.Prelude.Decimal.{to_decimal, length-to_decimal}
use beak.Text.Eating.{Eaten, eat_to-append, is_end}
use beak.Text.Hex.{to_hex}
use beak.Tar.FileName.Numbers.{free-append}
use beak.Index.Permissions.{string_to_permission}
use beak.Index.Rows.{RowEntry, columns, owner_text, time_text, link_text}
use beak.Index.Rows.Eaten.{
  IndexEntry, Eat, got, stopped, take_field, eat_hash, eat_parts, eat_offset, eat_tar, eat_link,
  eat_path, eat_time, eat_size, eat_owner, eat_entry, read_offset, read_tar, read_path, read_nanos,
  read_time, read_owner, read_permission, prepend, drop_slash, read_link, atoi, atol,
}
use beak.Index.Rows.Columns.{
  columns-append, take_field-append, take_column, eat_to_all, atol-to_decimal, atoi-to_decimal,
  atol-pad, halves-append, decimal-free, decimal-pair_free, length-to_hex, to_hex-free,
}
use beak.Index.Rows.Texts.{
  digit_zero, digit_slash, digit_dot, nanos, clock, length-nanos, nanos_more, clock-free,
  length-clock, time_text-clock,
}

-- The hash, in the last column of the row.
pub hash_column :
    (ie : IndexEntry) (hash rest : Bytes)
    → length hash ≤ 32
    → eat_hash ie (columns ((to_hex hash ++ codes "\n") ∷ []) ++ rest) ≡ got ie rest (is_end rest)
unfolding eat_hash columns has_char
hash_column ie hash rest short =
    let free = free-append (to_hex hash) (codes "\n") 0 (to_hex-free hash) refl in
    let fits : length (to_hex hash ++ codes "\n") ≤ 65 =
      omega (arith, length-append (to_hex hash) (codes "\n"), length-to_hex hash, short) in
    ap (eat_hash ie) (columns-append (to_hex hash ++ codes "\n") [] rest)
    ∙ ap finish (eat_to-append (to_hex hash ++ codes "\n") rest 0 65 free fits)
  where
    finish : Eaten → Eat
    finish h = if h.err then stopped h.err h.eof else got ie h.rest h.eof

module _ (ie : IndexEntry) (d : Bytes) (cs : List Bytes) (rest : Bytes) where
  -- What follows the column.
  abbrev pub behind : Bytes
  behind = columns (d ∷ cs) ++ rest

  pub offset_column :
      (n : ℕ)
      → n < 2 ^ 63
      → eat_offset ie (columns (to_decimal n ∷ d ∷ cs) ++ rest)
        ≡ eat_parts (record ie { offset = n }) behind
  unfolding eat_offset read_offset
  offset_column n h =
      take_column (to_decimal n) d cs rest 32 (read_offset ie) (decimal-free n 0 digit_zero)
        (omega (arith, length-to_decimal n 18 (omega (arith, h))))
      ∙ ap (λ k. eat_parts (record ie { offset = k }) behind) (atol-to_decimal n h)

  module _ (dir safedir : Option Bytes) (e : RowEntry) where
    pub owner_column :
        e.st_uid < 2 ^ 32
        → e.st_gid < 2 ^ 32
        → eat_owner dir safedir ie (columns (owner_text e ∷ d ∷ cs) ++ rest)
          ≡ eat_size dir safedir (record ie { st_uid = e.st_uid; st_gid = e.st_gid }) behind
    unfolding eat_owner owner_text
    owner_column hu hg =
        take_column (owner_text e) d cs rest 32 (read_owner dir safedir ie)
          (decimal-pair_free e.st_uid e.st_gid b'/' 0 digit_zero refl)
          (omega (
            arith,
            length-append (to_decimal e.st_uid) (b'/' ∷ to_decimal e.st_gid),
            length-to_decimal e.st_uid 9 (omega (arith, hu)),
            length-to_decimal e.st_gid 9 (omega (arith, hg)),
          ))
        ∙ pair
      where
        pair :
            read_owner dir safedir ie (to_decimal e.st_uid ++ b'/' ∷ to_decimal e.st_gid) behind
            ≡ eat_size dir safedir (record ie { st_uid = e.st_uid; st_gid = e.st_gid }) behind
        pair =
            ap
              (λ (h : Bytes × Bytes).
                eat_size dir safedir (record ie { st_uid = atoi h.0; st_gid = atoi h.1 }) behind)
              (halves-append (to_decimal e.st_uid) (to_decimal e.st_gid) b'/'
                (decimal-free e.st_uid b'/' digit_slash))
            ∙ rw (atoi-to_decimal e.st_uid hu, atoi-to_decimal e.st_gid hg) refl

    pub time_column :
        e.mtim_sec < 2 ^ 63
        → e.mtim_nsec < 10 ^ 9
        → eat_time dir safedir ie (columns (time_text e ∷ d ∷ cs) ++ rest)
          ≡ eat_path dir safedir
              (record ie { mtim_sec = e.mtim_sec; mtim_nsec = e.mtim_nsec })
              behind
    unfolding eat_time read_time read_nanos
    time_column hs hn =
        ap (λ (t : Bytes). eat_time dir safedir ie (columns (t ∷ d ∷ cs) ++ rest))
          (time_text-clock e hs hn)
        ∙ take_column (clock e) d cs rest 64 (read_time dir safedir ie) (clock-free e)
            (omega (arith, length-clock e hs hn))
        ∙ take_field-append (to_decimal e.mtim_sec) (nanos e) b'.' 64
            (read_nanos dir safedir ie behind) (decimal-free e.mtim_sec b'.' digit_dot)
            (omega (arith, length-to_decimal e.mtim_sec 18 (omega (arith, hs)))) (nanos_more e hn)
        ∙ ap
            (λ (r : Eaten).
              if r.err
              then stopped r.err r.eof
              else eat_path dir safedir
                  (record ie { mtim_sec = atol (to_decimal e.mtim_sec); mtim_nsec = atol r.text })
                  behind)
            (eat_to_all (nanos e) 64 (omega (arith, length-nanos e hn)))
        ∙ rw (atol-to_decimal e.mtim_sec hs, atol-pad 9 e.mtim_nsec (omega (arith, hn))) refl

    pub path_column :
        has_char e.tarpath 0 ≡ false
        → length e.tarpath ≤ 1024
        → eat_path dir safedir ie (columns (e.tarpath ∷ d ∷ cs) ++ rest)
          ≡ eat_link safedir (record ie { path = drop_slash (prepend dir e.tarpath) }) behind
    unfolding eat_path read_path
    path_column free fits =
        take_column e.tarpath d cs rest 1024 (read_path dir safedir ie) free fits

    pub link_column :
        has_char (link_text e) 0 ≡ false
        → length (link_text e) ≤ 1024
        → eat_link safedir ie (columns (link_text e ∷ d ∷ cs) ++ rest)
          ≡ eat_tar safedir (read_link ie (link_text e)) behind
    unfolding eat_link
    link_column free fits =
        take_column (link_text e) d cs rest 1024 (λ l v. eat_tar safedir (read_link ie l) v) free
          fits

    pub tar_column :
        (tar : Bytes)
        → has_char tar 0 ≡ false
        → length tar ≤ 1024
        → eat_tar safedir ie (columns (tar ∷ d ∷ cs) ++ rest)
          ≡ eat_offset
              (record ie { tarr = if ltb 0 (length tar) then prepend safedir tar else tar })
              behind
    unfolding eat_tar read_tar
    tar_column tar free fits = take_column tar d cs rest 1024 (read_tar safedir ie) free fits

    pub permission_column :
        (s : Bytes)
        → has_char s 0 ≡ false
        → length s ≤ 32
        → (string_to_permission s == 0) ≡ false
        → eat_entry dir safedir ie (columns (s ∷ [] ∷ d ∷ cs) ++ rest)
          ≡ eat_owner dir safedir (record ie { st_mode = string_to_permission s }) behind
    unfolding eat_entry read_permission has_char
    permission_column s free fits some_bits =
        take_column s [] (d ∷ cs) rest 32 (read_permission dir safedir ie) free fits
        ∙ ap
            (λ b.
              if b
              then stopped true false
              else take_field (columns ([] ∷ d ∷ cs) ++ rest) 0 32 (λ acl v1.
                eat_owner dir safedir (record ie { st_mode = string_to_permission s }) v1))
            some_bits
        ∙ take_column [] d cs rest 32
            (λ acl v1. eat_owner dir safedir (record ie { st_mode = string_to_permission s }) v1)
            refl (omega arith)
