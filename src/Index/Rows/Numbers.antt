-- ===== src/Index/Rows/Numbers.antt =====
-- src/tarentry.cc: the column of a row that tells of the parts of the entry's tar file.
use beak.Prelude.{
  ℕ, ◌-◌, ◌^◌, ◌≤◌, ◌<◌, ◌≡◌, refl, ap, ◌∙◌, true, false, some, List, ◌∷◌, ◌++◌, inl, inr, arith,
  ltb, ◌==◌, if◌then◌else◌, Bytes, codes, length, has_char, Bool-cases, equal,
}
use beak.Prelude.Words.{u32, u32_exact, sub32, sub32_exact}
use beak.Prelude.Decimal.{to_decimal, is_digit, length-to_decimal}
use beak.Text.Eating.{Eaten}
use beak.Tar.Parts.{PartSizes, part_content_size, disk_size}
use beak.Index.Rows.{columns, parts_text}
use beak.Index.Rows.Eaten.{
  take_number, IndexEntry, Eat, stopped, eat_hash, eat_parts, read_last, read_numbers, read_parts,
  atol,
}
use beak.Index.Rows.Columns.{take_column, eat_to_all, atol-to_decimal, take_short, decimal-free}
use beak.Index.Rows.Lists.{
  not_one, decimal_more, long_decimal, decimal_end, take_number-append, comma-free, comma_length,
}

digit_zero : is_digit 0 ≡ false
unfolding is_digit
digit_zero = refl

-- The sizes are those of a split or of a whole tar file, and fit their types.
pub record IsParted (t : PartSizes) : Type 0 where
  pub some_parts : 0 < t.num_parts
  pub parts_fit : t.num_parts < 2 ^ 32
  pub header_fits : t.part_header_size < 2 ^ 63
  pub size_fits : t.part_size < 2 ^ 63
  pub last_size_fits : t.last_part_size < 2 ^ 63
  pub disk_fits : t.ondisk_part_size < 2 ^ 63
  pub last_disk_fits : t.ondisk_last_part_size < 2 ^ 63

-- What an index says of the parts: of a whole tar file only that it is one.
abbrev pub parted : PartSizes → IndexEntry → IndexEntry
parted t ie =
    if t.num_parts == 1
    then record ie { num_parts = 1; part_size = 0; last_part_size = 0 }
    else record ie {
      num_parts = t.num_parts;
      part_offset = t.part_header_size;
      part_size = t.part_size;
      last_part_size = t.last_part_size;
      ondisk_part_size = t.ondisk_part_size;
      ondisk_last_part_size = t.ondisk_last_part_size;
    }

abbrev five : PartSizes → Bytes
five t =
    to_decimal t.part_header_size
    ++ (b','
        ∷ (to_decimal t.part_size
            ++ (b','
                ∷ (to_decimal t.last_part_size
                    ++ (b','
                        ∷ (to_decimal t.ondisk_part_size
                            ++ (b',' ∷ to_decimal t.ondisk_last_part_size)))))))

abbrev numbers : PartSizes → Bytes
numbers t = to_decimal t.num_parts ++ (b',' ∷ five t)

one_free : has_char (codes "1") 0 ≡ false
unfolding has_char
one_free = refl

one_equal : equal (codes "1") (codes "1") ≡ true
unfolding equal
one_equal = refl

module _ (t : PartSizes) (v : IsParted t) where
  numbers-free : has_char (numbers t) 0 ≡ false
  numbers-free = comma-free t.num_parts _ (
      comma-free t.part_header_size _ (
        comma-free t.part_size _ (
          comma-free t.last_part_size _
            (comma-free t.ondisk_part_size _ (decimal-free t.ondisk_last_part_size 0 digit_zero)))))

  length-numbers : length (numbers t) ≤ 110
  length-numbers =
      comma_length t.num_parts 10 99 _
        (length-to_decimal t.num_parts 9 (omega (arith, v.parts_fit)))
        (comma_length t.part_header_size 19 79 _ (long_decimal t.part_header_size v.header_fits) (
          comma_length t.part_size 19 59 _ (long_decimal t.part_size v.size_fits) (
            comma_length t.last_part_size 19 39 _ (long_decimal t.last_part_size v.last_size_fits) (
              comma_length t.ondisk_part_size 19 19 _ (long_decimal t.ondisk_part_size v.disk_fits)
                (long_decimal t.ondisk_last_part_size v.last_disk_fits)))))

  parts_many : (t.num_parts == 1) ≡ false → parts_text t ≡ some (numbers t)
  unfolding parts_text part_content_size disk_size
  parts_many many =
      let n1 : sub32 t.num_parts 1 ≡ t.num_parts - 1 =
        sub32_exact t.num_parts 1 (ground (arith, v.some_parts)) (omega (arith, v.parts_fit)) in
      let first : ltb 0 t.num_parts ≡ true = ground (arith, v.some_parts) in
      let last : ltb (t.num_parts - 1) t.num_parts ≡ true = ground (arith, v.some_parts) in
      let inner : ltb 0 (t.num_parts - 1) ≡ true = ground (arith, v.some_parts) in
      let outer : ltb (t.num_parts - 1) (t.num_parts - 1) ≡ false = ground arith in
      rw (many, n1, first, last, inner, outer)
        (ap some (take_short 255 (numbers t) (omega (arith, length-numbers))))

  module _ (ie : IndexEntry) (behind : Bytes) where
    read_last-numbers :
        read_last ie t.num_parts t.part_header_size t.part_size t.last_part_size t.ondisk_part_size
          (to_decimal t.ondisk_last_part_size)
          behind
        ≡ eat_hash
            (record ie {
              num_parts = t.num_parts;
              part_offset = t.part_header_size;
              part_size = t.part_size;
              last_part_size = t.last_part_size;
              ondisk_part_size = t.ondisk_part_size;
              ondisk_last_part_size = t.ondisk_last_part_size;
            })
            behind
    unfolding read_last
    read_last-numbers =
        ap
          (λ (r : Eaten).
            if r.err
            then stopped r.err r.eof
            else eat_hash
                (record ie {
                  num_parts = u32 t.num_parts;
                  part_offset = t.part_header_size;
                  part_size = t.part_size;
                  last_part_size = t.last_part_size;
                  ondisk_part_size = t.ondisk_part_size;
                  ondisk_last_part_size = atol r.text;
                })
                behind)
          (eat_to_all (to_decimal t.ondisk_last_part_size) 64
            (omega (arith, long_decimal t.ondisk_last_part_size v.last_disk_fits)))
        ∙ rw
            (
              u32_exact t.num_parts v.parts_fit,
              atol-to_decimal t.ondisk_last_part_size v.last_disk_fits,
            )
            refl

    abbrev step5 : ℕ → ℕ → ℕ → ℕ → ℕ → Bytes → Eat
    step5 a b c d = λ e m. read_last ie a b c d e m behind

    abbrev step4 : ℕ → ℕ → ℕ → ℕ → Bytes → Eat
    step4 a b c = λ d m. take_number m (step5 a b c d)

    abbrev step3 : ℕ → ℕ → ℕ → Bytes → Eat
    step3 a b = λ c m. take_number m (step4 a b c)

    abbrev step2 : ℕ → ℕ → Bytes → Eat
    step2 a = λ b m. take_number m (step3 a b)

    abbrev step1 : ℕ → Bytes → Eat
    step1 = λ a m. take_number m (step2 a)

    read_numbers-numbers :
        read_numbers ie (numbers t) behind
        ≡ read_last ie t.num_parts t.part_header_size t.part_size t.last_part_size
            t.ondisk_part_size
            (to_decimal t.ondisk_last_part_size)
            behind
    unfolding read_numbers
    read_numbers-numbers =
        take_number-append t.num_parts (five t) step1 (omega (arith, v.parts_fit))
          (decimal_more t.part_header_size _)
        ∙ take_number-append t.part_header_size _ (step2 t.num_parts) v.header_fits
            (decimal_more t.part_size _)
        ∙ take_number-append t.part_size _ (step3 t.num_parts t.part_header_size) v.size_fits
            (decimal_more t.last_part_size _)
        ∙ take_number-append t.last_part_size _ (step4 t.num_parts t.part_header_size t.part_size)
            v.last_size_fits (decimal_more t.ondisk_part_size _)
        ∙ take_number-append t.ondisk_part_size _
            (step5 t.num_parts t.part_header_size t.part_size t.last_part_size) v.disk_fits
            (decimal_end t.ondisk_last_part_size)

  -- The text of the column, and that reading it gives what is said of the parts.
  pub parts_column :
      (tx : Bytes) × (parts_text t ≡ some tx)
      × ((ie : IndexEntry) (d : Bytes) (cs : List Bytes) (rest : Bytes)
          → eat_parts ie (columns (tx ∷ d ∷ cs) ++ rest)
            ≡ eat_hash (parted t ie) (columns (d ∷ cs) ++ rest))
  unfolding eat_parts read_parts parts_text
  parts_column = elim (Bool-cases (t.num_parts == 1)) [
    | inl one ↦ (
      codes "1",
      rw one refl,
      λ ie d cs rest.
          take_column (codes "1") d cs rest 128 (read_parts ie) one_free (omega arith)
          ∙ rw (one_equal, one) refl,
    )
    | inr many ↦ (
      numbers t,
      parts_many many,
      λ ie d cs rest.
          take_column (numbers t) d cs rest 128 (read_parts ie) numbers-free
            (omega (arith, length-numbers))
          ∙ rw (not_one (to_decimal t.num_parts) (five t), many)
              (read_numbers-numbers ie (columns (d ∷ cs) ++ rest)
                ∙ read_last-numbers ie (columns (d ∷ cs) ++ rest)),
    )
  ]
