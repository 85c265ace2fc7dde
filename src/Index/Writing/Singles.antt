-- ===== src/Index/Writing/Singles.antt =====
-- src/backup.cc and src/index.cc: the row of a tar file in one part is read as its name.
use beak.Prelude.{
  ℕ, ◌<◌, ◌≡◌, refl, ap, sym, ◌∙◌, false, Option, none, some, [], ◌∷◌, arith, ◌==◌, ◌>>=◌, Bytes,
  codes, length, has_char, strip_prefix,
}
use beak.Index.Loading.Tars.{drop_front_slash, around_dots, tar_names}
use beak.Index.Writing.{StoredTar, stored_name, range_text}
use beak.Index.Writing.Tars.{IsReadable, stored_paths, stored_path-named}

-- A tar file in one part, whose name fits a row and holds no blank.
pub record IsSingle (t : StoredTar) : Type 0 where
  pub one_part : t.file.sizes.num_parts ≡ 1
  pub name : Bytes
  pub named : stored_name t 0 ≡ some name
  pub nonempty : 0 < length (drop_front_slash name)
  pub name_free : has_char (drop_front_slash name) 0 ≡ false
  pub no_blank : has_char (drop_front_slash name) b' ' ≡ false
  pub name_fits : length (drop_front_slash name) < 4096
  pub path_free : has_char t.path 0 ≡ false
  pub path_fits : length t.path < 4095

abbrev pub dots_step : ℕ → Bytes → Option Bytes → Option (Bytes × Bytes) → Option (Bytes × Bytes)
dots_step c s o later = elim o [ some r ↦ some ([], r) | none ↦ later >>= λ r. some (c ∷ r.0, r.1) ]

pub dots_blank :
    (c : ℕ) (s : Bytes) → (c == b' ') ≡ false → strip_prefix (codes " ... ") (c ∷ s) ≡ none
unfolding strip_prefix
dots_blank c s k = let other : (b' ' == c) ≡ false = ground arith in rw other refl

no_dots : (s : Bytes) → has_char s b' ' ≡ false → around_dots s ≡ none
unfolding around_dots has_char
no_dots [] h = refl
no_dots (c ∷ s) h =
    ap (λ o. dots_step c s o (around_dots s)) (dots_blank c s (ground arith))
    ∙ ap (dots_step c s none) (no_dots s (ground arith))

pub single-IsReadable : (t : StoredTar) → IsSingle t → IsReadable t
unfolding range_text tar_names
single-IsReadable t v = record {
  name = drop_front_slash v.name;
  written = rw (v.named, v.one_part) refl;
  read =
      let some_char : (length (drop_front_slash v.name) == 0) ≡ false =
        ground (arith, v.nonempty) in
      rw (some_char, no_dots (drop_front_slash v.name) v.no_blank)
        (ap some (
          sym (
            ap (stored_paths t 0) v.one_part
            ∙ ap (λ (p : Bytes). p ∷ []) (stored_path-named t 0 v.name v.named))));
  nonempty = v.nonempty;
  name_free = v.name_free;
  name_fits = v.name_fits;
  path_free = v.path_free;
  path_fits = v.path_fits;
}
