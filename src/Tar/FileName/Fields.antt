-- ===== src/Tar/FileName/Fields.antt =====
-- src/tarfile.cc: parseFileNameVersion_ on a name made of its fields.
use beak.Prelude.{
  ℕ, ◌*◌, ◌<◌, ◌≡◌, refl, sym, ap, ◌∙◌, true, false, some, [], ◌∷◌, ◌++◌, arith, ltb, ◌==◌,
  if◌then◌else◌, Bytes, length, length-append, has_char, equal_iff, ==_refl,
}
use beak.Prelude.Words.{u32, sub32}
use beak.Prelude.Decimal.{all_digits, is_digit}
use beak.Text.Hex.{is_hex, chars_only, digits_only, hex_digits_only}
use beak.Tar.Split.{
  TarContents, index_file, dir_tar, small_files_tar, medium_files_tar, single_large_file_tar,
  split_large_file_tar, content_split_large_file_tar,
}
use beak.Tar.FileName.{
  TarFileName, field, first_field, parse_file_name_version, atol, strtol, suffixtype,
  type_from_char, chartype,
}
use beak.Tar.FileName.Numbers.{
  all_hex, free_of_digits, free_of_hex, free-append, chars_only-digits, chars_only-hex,
}

pub field-append :
    (f rest : Bytes) (c : ℕ) → has_char f c ≡ false → field c (f ++ c ∷ rest) ≡ some (f, rest)
unfolding field has_char
field-append [] rest c h = rw (==_refl c) refl
field-append (x ∷ f) rest c h =
    let other : (x == c) ≡ false = ground arith in
    rw (other, field-append f rest c (ground arith)) refl

first_field-append :
    (f rest : Bytes)
    → has_char f b'.' ≡ false
    → 0 < length f
    → first_field (f ++ b'.' ∷ rest) ≡ some (f, rest)
unfolding first_field has_char
first_field-append [] rest h k = absurd (omega arith)
first_field-append (x ∷ f) rest h k = rw (field-append f rest b'.' (ground arith)) refl

append_nil : (s : Bytes) → s ++ [] ≡ s
append_nil [] = refl
append_nil (c ∷ s) = ap (◌∷◌ c) (append_nil s)

digits_only_all : (s : Bytes) → all_digits s ≡ true → digits_only (length s) s ≡ some s
unfolding digits_only
digits_only_all s h =
    ap (λ (u : Bytes). chars_only is_digit (length s) u) (sym (append_nil s))
    ∙ chars_only-digits s [] h

digits_only_six :
    (u date : Bytes) → all_digits u ≡ true → length u ≡ 6 → digits_only 6 (u ++ date) ≡ some u
unfolding digits_only
digits_only_six u date h six =
    ap (λ n. chars_only is_digit n (u ++ date)) (sym six) ∙ chars_only-digits u date h

hex_digits_only_all : (s : Bytes) → all_hex s ≡ true → hex_digits_only (length s) s ≡ some s
unfolding hex_digits_only
hex_digits_only_all s h = chars_only-hex s h

pub type_from_char-chartype : (c : TarContents) → type_from_char (chartype c) ≡ some c
unfolding type_from_char chartype
type_from_char-chartype index_file = refl
type_from_char-chartype dir_tar = refl
type_from_char-chartype small_files_tar = refl
type_from_char-chartype medium_files_tar = refl
type_from_char-chartype single_large_file_tar = refl
type_from_char-chartype split_large_file_tar = refl
type_from_char-chartype content_split_large_file_tar = refl

-- The texts of the fields, and that each is of its kind.
pub record Fields : Type 0 where
  pub secs : Bytes
  pub usecs : Bytes
  pub date : Bytes
  pub hash : Bytes
  pub part : Bytes
  pub parts : Bytes
  pub size : Bytes
  pub ondisk : Bytes
  pub secs_digits : all_digits secs ≡ true
  pub secs_nonempty : 0 < length secs
  pub usecs_digits : all_digits usecs ≡ true
  pub usecs_six : length usecs ≡ 6
  pub date_free : has_char date b'_' ≡ false
  pub hash_hex : all_hex hash ≡ true
  pub part_hex : all_hex part ≡ true
  pub parts_hex : all_hex parts ≡ true
  pub size_digits : all_digits size ≡ true
  pub ondisk_digits : all_digits ondisk ≡ true

unfoldable pub join : Fields → Bytes → Bytes
join f suffix =
    f.secs
    ++ (b'.'
        ∷ ((f.usecs ++ f.date)
            ++ (b'_'
                ∷ (f.hash
                    ++ (b'_'
                        ∷ (f.part
                            ++ (b'-'
                                ∷ (f.parts
                                    ++ (b'_'
                                        ∷ (f.size
                                            ++ (b'_' ∷ (f.ondisk ++ (b'.' ∷ suffix)))))))))))))

pub parse-join :
    (t : TarFileName) (f : Fields)
    → parse_file_name_version t (join f (suffixtype t.type))
      ≡ some (record {
        type = t.type;
        version = t.version;
        sec = atol f.secs;
        nsec = 1000 * atol f.usecs;
        size = atol f.size;
        ondisk_size = atol f.ondisk;
        backup_size = t.backup_size;
        header_hash = t.header_hash ++ f.hash;
        part_nr = sub32 (u32 (strtol f.part)) 1;
        num_parts = u32 (strtol f.parts);
        old_style = if length (f.usecs ++ f.date) == 6 then true else t.old_style;
      })
unfolding parse_file_name_version join is_digit is_hex
parse-join t f =
    let usecs_free =
      free-append f.usecs f.date b'_' (free_of_digits f.usecs b'_' f.usecs_digits refl)
        f.date_free in
    let long : ltb (length (f.usecs ++ f.date)) 6 ≡ false =
      ground (arith, length-append f.usecs f.date, f.usecs_six) in
    let same = (equal_iff (suffixtype t.type) (suffixtype t.type)).1 refl in
    rw
      (
        first_field-append f.secs _ (free_of_digits f.secs b'.' f.secs_digits refl) f.secs_nonempty,
        field-append (f.usecs ++ f.date) _ b'_' usecs_free,
        field-append f.hash _ b'_' (free_of_hex f.hash b'_' f.hash_hex refl),
        field-append f.part _ b'-' (free_of_hex f.part b'-' f.part_hex refl),
        field-append f.parts _ b'_' (free_of_hex f.parts b'_' f.parts_hex refl),
        field-append f.size _ b'_' (free_of_digits f.size b'_' f.size_digits refl),
        field-append f.ondisk _ b'.' (free_of_digits f.ondisk b'.' f.ondisk_digits refl),
        digits_only_all f.secs f.secs_digits,
        long,
        digits_only_six f.usecs f.date f.usecs_digits f.usecs_six,
        hex_digits_only_all f.hash f.hash_hex,
        hex_digits_only_all f.part f.part_hex,
        hex_digits_only_all f.parts f.parts_hex,
        digits_only_all f.size f.size_digits,
        digits_only_all f.ondisk f.ondisk_digits,
        same,
      )
      refl

-- A field, a character behind it, and more: no slash if there is none in the parts.
no_slash-cons :
    (f rest : Bytes) (x : ℕ)
    → has_char f b'/' ≡ false
    → (x == b'/') ≡ false
    → has_char rest b'/' ≡ false
    → has_char (f ++ x ∷ rest) b'/' ≡ false
unfolding has_char
no_slash-cons f rest x h k m = free-append f (x ∷ rest) b'/' h (rw k m)

pub join-no_slash :
    (f : Fields) (suffix : Bytes)
    → has_char f.date b'/' ≡ false
    → has_char suffix b'/' ≡ false
    → has_char (join f suffix) b'/' ≡ false
unfolding join is_digit is_hex
join-no_slash f suffix d e =
    no_slash-cons f.secs _ b'.' (free_of_digits f.secs b'/' f.secs_digits refl) refl (
      no_slash-cons (f.usecs ++ f.date) _ b'_'
        (free-append f.usecs f.date b'/' (free_of_digits f.usecs b'/' f.usecs_digits refl) d) refl
        (no_slash-cons f.hash _ b'_' (free_of_hex f.hash b'/' f.hash_hex refl) refl (
          no_slash-cons f.part _ b'-' (free_of_hex f.part b'/' f.part_hex refl) refl (
            no_slash-cons f.parts _ b'_' (free_of_hex f.parts b'/' f.parts_hex refl) refl (
              no_slash-cons f.size _ b'_' (free_of_digits f.size b'/' f.size_digits refl) refl (
                no_slash-cons f.ondisk suffix b'.'
                  (free_of_digits f.ondisk b'/' f.ondisk_digits refl) refl e))))))
