-- ===== src/Tar/FileName/RoundTrip.antt =====
-- src/tarfile.cc: a stored file's name, printed by writeTarFileNameIntoBuffer, is parsed back by
-- parseFileName.
use beak.Prelude.{
  ℕ, ◌+◌, ◌-◌, ◌*◌, ◌/◌, ◌%◌, ◌^◌, ◌≤◌, ◌<◌, ◌≡◌, refl, ap, ◌∙◌, true, false, Option, none, some,
  [], ◌∷◌, ◌++◌, ◌⊎◌, inl, inr, arith, ltb, ◌==◌, if◌then◌else◌, Bytes, codes, length,
  length-append, take, at, has_char, Bool-cases, equal,
}
use beak.Prelude.Words.{u32, sub32, u32_mod}
use beak.Prelude.Decimal.{to_decimal, to_decimal-digits, to_decimal-nonempty, length-to_decimal}
use beak.Text.Names.{starts_with}
use beak.Match.Spec.{IsName}
use beak.Match.Base.{IsName-unique}
use beak.Tar.FileName.{
  TarFileName, new_tar_file_name, chartype, suffixtype, parse_file_name_version, set_type,
  parse_base_name, parse_file_name,
}
use beak.Tar.FileName.Printing.{
  pad, to_hexadecimal, width_loop, hex_padded, gmtime, strftime, base_name, write_tar_file_name,
}
use beak.Tar.FileName.Numbers.{all_hex, to_hexadecimal-hex, pad-digits, pad-hex, length-pad}
use beak.Tar.FileName.Fields.{Fields, join, parse-join, join-no_slash, type_from_char-chartype}
use beak.Tar.FileName.Values.{
  strftime-free, strftime-nonempty, atol_decimal, atol_padded, strtol_hex, strtol_padded,
  width_loop_below, underscore, slash, chartype-plain, suffix-plain, take_cases, append_snoc,
  IsOther,
}

-- What the names can express: whole microseconds, sizes and seconds below 2 ^ 63, a part below a
-- number of parts that has at most seven hexadecimal digits, and a hash in hexadecimal digits.
pub record IsNameable (t : TarFileName) : Type 0 where
  pub sec_fits : t.sec < 2 ^ 63
  pub micros : t.nsec % 1000 ≡ 0
  pub nsec_fits : t.nsec < 10 ^ 9
  pub size_fits : t.size < 2 ^ 63
  pub ondisk_fits : t.ondisk_size < 2 ^ 63
  pub hash_hex : all_hex t.header_hash ≡ true
  pub part_below : t.part_nr < t.num_parts
  pub few_parts : t.num_parts < 2 ^ 28

module _ (t : TarFileName) (valid : IsNameable t) where
  abbrev date : Bytes
  date = if t.old_style then [] else strftime (gmtime t.sec)

  abbrev width : ℕ
  width = width_loop 16 t.num_parts

  date-free : (c : ℕ) → IsOther c → has_char date c ≡ false
  unfolding has_char
  date-free c h = elim (Bool-cases t.old_style) [
    | inl e ↦ rw e refl
    | inr e ↦ rw e (strftime-free (gmtime t.sec) c h)
  ]

  fields : Fields
  fields = record {
    secs = to_decimal t.sec;
    usecs = pad 6 (to_decimal (t.nsec / 1000));
    date = date;
    hash = t.header_hash;
    part = pad width (to_hexadecimal (t.part_nr + 1));
    parts = to_hexadecimal t.num_parts;
    size = to_decimal t.size;
    ondisk = to_decimal t.ondisk_size;
    secs_digits = to_decimal-digits t.sec;
    secs_nonempty = to_decimal-nonempty t.sec;
    usecs_digits = pad-digits 6 (to_decimal (t.nsec / 1000)) (to_decimal-digits (t.nsec / 1000));
    usecs_six =
        length-pad 6 (to_decimal (t.nsec / 1000))
          (length-to_decimal (t.nsec / 1000) 5 (omega (arith, valid.nsec_fits)));
    date_free = date-free b'_' underscore;
    hash_hex = valid.hash_hex;
    part_hex = pad-hex width (to_hexadecimal (t.part_nr + 1)) (to_hexadecimal-hex (t.part_nr + 1));
    parts_hex = to_hexadecimal-hex t.num_parts;
    size_digits = to_decimal-digits t.size;
    ondisk_digits = to_decimal-digits t.ondisk_size;
  }

  text : Bytes
  text = codes "beak_" ++ (chartype t.type ∷ b'_' ∷ join fields (suffixtype t.type))

  base_name-text : base_name t ≡ some text
  unfolding base_name text join fields hex_padded u32
  base_name-text =
      let next : (t.part_nr + 1) % u32_mod ≡ t.part_nr + 1 =
        omega (arith, valid.part_below, valid.few_parts) in
      let narrow : ltb width 8 ≡ true =
        ground (arith, width_loop_below 16 7 t.num_parts valid.few_parts) in
      rw (narrow, next) refl

  text-free : has_char text b'/' ≡ false
  unfolding text has_char fields
  text-free =
      rw (chartype-plain t.type)
        (join-no_slash fields (suffixtype t.type) (date-free b'/' slash) (suffix-plain t.type))

  -- The name that comes back: what a file name does not hold has its first value.
  abbrev pub restored : TarFileName
  restored = record {
    type = t.type;
    version = 2;
    sec = t.sec;
    nsec = t.nsec;
    size = t.size;
    ondisk_size = t.ondisk_size;
    backup_size = 0;
    header_hash = t.header_hash;
    part_nr = t.part_nr;
    num_parts = t.num_parts;
    old_style = t.old_style;
  }

  old_style-length : (if length (fields.usecs ++ date) == 6 then true else false) ≡ t.old_style
  old_style-length = elim (Bool-cases t.old_style) [
    | inl e ↦
        let six : (length (fields.usecs ++ []) == 6) ≡ true =
          ground (arith, length-append fields.usecs [], fields.usecs_six) in
        rw (e, six) refl
    | inr e ↦
        let more : (length (fields.usecs ++ strftime (gmtime t.sec)) == 6) ≡ false = ground (
          arith,
          length-append fields.usecs (strftime (gmtime t.sec)),
          fields.usecs_six,
          strftime-nonempty (gmtime t.sec),
        ) in
        rw (e, more) refl
  ]

  parse-fields :
      parse_file_name_version (set_type t.type new_tar_file_name) (join fields (suffixtype t.type))
      ≡ some restored
  unfolding fields sub32 u32
  parse-fields =
      let micros : 1000 * (t.nsec / 1000) ≡ t.nsec = omega (arith, valid.micros) in
      let part : ((t.part_nr + 1) % u32_mod + u32_mod - 1) % u32_mod ≡ t.part_nr =
        omega (arith, valid.part_below, valid.few_parts) in
      let parts : t.num_parts % u32_mod ≡ t.num_parts = omega (arith, valid.few_parts) in
      parse-join (set_type t.type new_tar_file_name) fields
      ∙ rw
          (
            atol_decimal t.sec valid.sec_fits,
            atol_padded 6 (t.nsec / 1000) (omega (arith, valid.nsec_fits)),
            atol_decimal t.size valid.size_fits,
            atol_decimal t.ondisk_size valid.ondisk_fits,
            strtol_padded width (t.part_nr + 1) (omega (arith, valid.part_below, valid.few_parts)),
            strtol_hex t.num_parts (omega (arith, valid.few_parts)),
            old_style-length,
          )
          (rw (micros, part, parts) refl)

  parse-text : parse_base_name new_tar_file_name text ≡ some restored
  unfolding parse_base_name text starts_with equal at
  parse-text = rw (type_from_char-chartype t.type) parse-fields

  -- The name behind a directory, or alone.
  path_text : (dir : Option Bytes) → Bytes
  path_text none = text
  path_text (some dir) = dir ++ ((if ltb 0 (length dir) then codes "/" else []) ++ text)

  joined_by_slash :
      (c : ℕ) (dir : Bytes) → path_text (some (c ∷ dir)) ≡ ((c ∷ dir) ++ b'/' ∷ []) ++ text
  unfolding path_text
  joined_by_slash c dir =
      let longer : ltb 0 (length (c ∷ dir)) ≡ true = ground arith in
      rw longer (append_snoc (c ∷ dir) text b'/')

  path_text-nonempty : (dir : Option Bytes) → (length (path_text dir) == 0) ≡ false
  unfolding path_text text
  path_text-nonempty none = ground arith
  path_text-nonempty (some []) = ground arith
  path_text-nonempty (some (c ∷ dir)) = ground arith

  in_dir : (dir : Option Bytes) → IsName (path_text dir) text
  unfolding path_text
  in_dir none = record { dir = []; is_dir = inl refl; no_slash = text-free; joined = refl }
  in_dir (some []) = record { dir = []; is_dir = inl refl; no_slash = text-free; joined = refl }
  in_dir (some (c ∷ dir)) = record {
    dir = (c ∷ dir) ++ b'/' ∷ [];
    is_dir = inr (c ∷ dir, refl);
    no_slash = text-free;
    joined = joined_by_slash c dir;
  }

  parse-path :
      (dir : Option Bytes) → parse_file_name new_tar_file_name (path_text dir) ≡ some restored
  unfolding parse_file_name
  parse-path dir =
      rw (path_text-nonempty dir, IsName-unique (path_text dir) text (in_dir dir)) parse-text

  written :
      (buf_len : ℕ) (dir : Option Bytes)
      → write_tar_file_name buf_len dir t ≡ some (take (buf_len - 1) (path_text dir))
  unfolding write_tar_file_name path_text
  written buf_len none = rw base_name-text refl
  written buf_len (some dir) = rw base_name-text refl

  -- The name without a directory holds no slash.
  pub base_name-plain :
      (b : Bytes) × (base_name t ≡ some b) × (has_char b b'/' ≡ false) × (5 ≤ length b)
  unfolding text
  base_name-plain = (text, base_name-text, text-free, omega arith)

  -- For every name that is nameable, every directory and every size of the buffer, the printing
  -- fails no assertion, and either the buffer is filled or parsing what it holds gives the name
  -- back, with the version and the backup size of a new name.
  pub parse-write :
      (buf_len : ℕ) (dir : Option Bytes)
      → (name : Bytes) × (write_tar_file_name buf_len dir t ≡ some name)
        × ((buf_len - 1 ≤ length name) ⊎ (parse_file_name new_tar_file_name name ≡ some restored))
  parse-write buf_len dir = (
    take (buf_len - 1) (path_text dir),
    written buf_len dir,
    elim (take_cases (buf_len - 1) (path_text dir)) [
      | inl full ↦ inl full
      | inr whole ↦ inr (ap (parse_file_name new_tar_file_name) whole ∙ parse-path dir)
    ],
  )
