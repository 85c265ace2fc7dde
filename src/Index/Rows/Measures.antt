-- ===== src/Index/Rows/Measures.antt =====
-- src/tarentry.cc: the column of a row with the size or the device of an entry.
use beak.Prelude.{
  ℕ, ◌^◌, ◌<◌, ◌≡◌, refl, sym, ap, ◌∙◌, true, false, Option, List, ◌∷◌, ◌++◌, inl, inr, arith,
  if◌then◌else◌, Bytes, length-append,
}
use beak.Prelude.Decimal.{to_decimal, length-to_decimal}
use beak.Index.Permissions.{is_kind, s_ifreg}
use beak.Index.Rows.{RowEntry, columns, size_text, is_device}
use beak.Index.Rows.Eaten.{IndexEntry, eat_time, eat_size, read_size, halves, atoi, atol}
use beak.Index.Rows.Columns.{
  take_column, atol-to_decimal, atoi-to_decimal, halves-append, decimal-free, decimal-pair_free,
}
use beak.Index.Rows.Texts.{digit_zero, digit_comma, size_cases}

module _ (ie : IndexEntry) (d : Bytes) (cs : List Bytes) (rest : Bytes) where
  -- What follows the column.
  abbrev after : Bytes
  after = columns (d ∷ cs) ++ rest

  module _ (dir safedir : Option Bytes) (e : RowEntry) where
    size_number :
        (n : ℕ)
        → size_text e ≡ to_decimal n
        → is_device ie.st_mode ≡ false
        → n < 2 ^ 63
        → eat_size dir safedir ie (columns (size_text e ∷ d ∷ cs) ++ rest)
          ≡ eat_time dir safedir (record ie { st_size = n }) after
    unfolding eat_size read_size
    size_number n text plain h =
        ap (λ (t : Bytes). eat_size dir safedir ie (columns (t ∷ d ∷ cs) ++ rest)) text
        ∙ take_column (to_decimal n) d cs rest 32 (read_size dir safedir ie)
            (decimal-free n 0 digit_zero) (omega (arith, length-to_decimal n 18 (omega (arith, h))))
        ∙ ap
            (λ b.
              eat_time dir safedir
                (if b
                  then record ie {
                    st_rdev =
                        (atoi (halves b',' (to_decimal n)).0, atoi (halves b',' (to_decimal n)).1);
                  }
                  else record ie { st_size = atol (to_decimal n) })
                after)
            plain
        ∙ ap (λ k. eat_time dir safedir (record ie { st_size = k }) after) (atol-to_decimal n h)

    size_device :
        size_text e ≡ to_decimal e.st_rdev.0 ++ b',' ∷ to_decimal e.st_rdev.1
        → is_device ie.st_mode ≡ true
        → e.st_rdev.0 < 2 ^ 32
        → e.st_rdev.1 < 2 ^ 32
        → eat_size dir safedir ie (columns (size_text e ∷ d ∷ cs) ++ rest)
          ≡ eat_time dir safedir (record ie { st_rdev = e.st_rdev }) after
    unfolding eat_size read_size
    size_device text device hmaj hmin =
        ap (λ (t : Bytes). eat_size dir safedir ie (columns (t ∷ d ∷ cs) ++ rest)) text
        ∙ take_column (to_decimal e.st_rdev.0 ++ b',' ∷ to_decimal e.st_rdev.1) d cs rest 32
            (read_size dir safedir ie)
            (decimal-pair_free e.st_rdev.0 e.st_rdev.1 b',' 0 digit_zero refl)
            (omega (
              arith,
              length-append (to_decimal e.st_rdev.0) (b',' ∷ to_decimal e.st_rdev.1),
              length-to_decimal e.st_rdev.0 9 (omega (arith, hmaj)),
              length-to_decimal e.st_rdev.1 9 (omega (arith, hmin)),
            ))
        ∙ ap
            (λ b.
              eat_time dir safedir
                (if b
                  then record ie {
                    st_rdev = (
                      atoi
                          (halves b',' (to_decimal e.st_rdev.0 ++ b',' ∷ to_decimal e.st_rdev.1)).0,
                      atoi
                          (halves b',' (to_decimal e.st_rdev.0 ++ b',' ∷ to_decimal e.st_rdev.1)).1,
                    );
                  }
                  else record ie {
                    st_size = atol (to_decimal e.st_rdev.0 ++ b',' ∷ to_decimal e.st_rdev.1);
                  })
                after)
            device
        ∙ ap
            (λ (h : Bytes × Bytes).
              eat_time dir safedir (record ie { st_rdev = (atoi h.0, atoi h.1) }) after)
            (halves-append (to_decimal e.st_rdev.0) (to_decimal e.st_rdev.1) b','
              (decimal-free e.st_rdev.0 b',' digit_comma))
        ∙ rw (atoi-to_decimal e.st_rdev.0 hmaj, atoi-to_decimal e.st_rdev.1 hmin) refl

    -- What the size column says: the size of a regular file, the device, or else 0.
    abbrev pub sized : IndexEntry
    sized =
        if is_kind s_ifreg e.st_mode
        then record ie { st_size = e.st_size }
        else if is_device e.st_mode
        then record ie { st_rdev = e.st_rdev }
        else record ie { st_size = 0 }

    pub size_column :
        is_device ie.st_mode ≡ is_device e.st_mode
        → e.st_size < 2 ^ 63
        → e.st_rdev.0 < 2 ^ 32
        → e.st_rdev.1 < 2 ^ 32
        → eat_size dir safedir ie (columns (size_text e ∷ d ∷ cs) ++ rest)
          ≡ eat_time dir safedir sized after
    size_column same hs hmaj hmin = elim (size_cases e) [
      | inl (reg, device, text) ↦
          size_number e.st_size text (same ∙ device) hs
          ∙ ap
              (λ b.
                eat_time dir safedir
                  (if b
                    then record ie { st_size = e.st_size }
                    else if is_device e.st_mode
                    then record ie { st_rdev = e.st_rdev }
                    else record ie { st_size = 0 })
                  after)
              (sym reg)
      | inr (inl (reg, device, text)) ↦
          size_device text (same ∙ device) hmaj hmin ∙ rw (reg, device) refl
      | inr (inr (reg, device, text)) ↦
          size_number 0 text (same ∙ device) (omega arith) ∙ rw (reg, device) refl
    ]
