-- ===== src/Index/Writing/Ranges.antt =====
-- src/backup.cc and src/index.cc: the row of a tar file in several parts is read as the names of
-- all its parts.
use beak.Prelude.{
  ℕ, zero, suc, ◌+◌, ◌-◌, ◌≤◌, ◌<◌, ◌≡◌, refl, sym, ap, ◌∙◌, true, false, Option, none, some, [],
  ◌∷◌, ◌++◌, arith, ltb, ◌==◌, if◌then◌else◌, ◌>>=◌, inl, inr, Bool-cases, Bytes, codes, length,
  length-append, drop, at, has_char, strip_prefix-append, lt→ltb,
}
use beak.Prelude.Words.{sub32}
use beak.Tar.FileName.{TarFileName}
use beak.Tar.FileName.Numbers.{free-append}
use beak.Tar.FileName.Printing.{write_tar_file_name}
use beak.FileSystem.Paths.{lookup}
use beak.Index.Loading.Tars.{
  drop_front_slash, around_dots, part_name, part_names, range_names, tar_names,
}
use beak.Index.Writing.{StoredTar, stored_name, range_text}
use beak.Index.Writing.Tars.{IsReadable, stored_path, stored_paths, stored_path-named}
use beak.Index.Writing.Singles.{dots_step, dots_blank}
use beak.Index.Writing.PartNames.{
  IsRange, front_kept, name_at, before_last, stored_name-at, name-in_dir, name_whole,
}

dots_found :
    (s r : Bytes) → has_char s b' ' ≡ false → around_dots (s ++ (codes " ... " ++ r)) ≡ some (s, r)
unfolding around_dots has_char
dots_found [] r h =
    ap (λ o. dots_step b' ' (codes "... " ++ r) o (around_dots (codes "... " ++ r)))
      (strip_prefix-append (codes " ... ") r)
dots_found (c ∷ s) r h =
    ap (λ o. dots_step c (s ++ (codes " ... " ++ r)) o (around_dots (s ++ (codes " ... " ++ r))))
      (dots_blank c (s ++ (codes " ... " ++ r)) (ground arith))
    ∙ ap (dots_step c (s ++ (codes " ... " ++ r)) none) (dots_found s r (ground arith))

nonzero : (n : ℕ) → 0 < n → (n == 0) ≡ false
nonzero n h = ground arith

module _ (t : StoredTar) (v : IsRange t) where
  -- The name that the reader makes is the name of the part.
  part_name-at :
      (i : ℕ)
      → i < t.file.sizes.num_parts
      → part_name (name_at t v 0) (name_at t v (t.file.sizes.num_parts - 1)) (some t.safepath) i
        ≡ some (stored_path t i)
  unfolding part_name
  part_name-at i h =
      let (b, in_dir, free, long) = name-in_dir t v i h in
      let full = sym (stored_name-at t v i h) ∙ in_dir in
      ap
        (λ (n : TarFileName).
          write_tar_file_name 1024 (some t.safepath) n >>= λ buf. some (lookup buf))
        (same_name i h)
      ∙ ap (λ o. o >>= λ buf. some (lookup buf)) full
      ∙ ap some (
          ap lookup (sym (front_kept t.safepath (b'/' ∷ b) v.some_dir v.relative))
          ∙ sym (stored_path-named t i _ in_dir))
    where
      same_name :
          (i : ℕ)
          → i < t.file.sizes.num_parts
          → (if i == sub32 t.file.sizes.num_parts 1
              then record (name_at t v 0) {
                part_nr = i;
                size = (name_at t v (t.file.sizes.num_parts - 1)).size;
                ondisk_size = (name_at t v (t.file.sizes.num_parts - 1)).ondisk_size;
              }
              else record (name_at t v 0) { part_nr = i })
            ≡ name_at t v i
      same_name i h =
          let two : ltb 0 (t.file.sizes.num_parts - 1) ≡ true = ground (arith, v.several) in
          let over : ltb (t.file.sizes.num_parts - 1) (t.file.sizes.num_parts - 1) ≡ false =
            ground arith in
          elim (Bool-cases (i == t.file.sizes.num_parts - 1)) [
            | inl e ↦
                let past : ltb i (t.file.sizes.num_parts - 1) ≡ false = ground arith in
                rw ((before_last t v), e, over, past) refl
            | inr e ↦
                let inside : ltb i (t.file.sizes.num_parts - 1) ≡ true = ground arith in
                rw ((before_last t v), e, two, inside) refl
          ]

  part_names-at :
      (i parts : ℕ)
      → i + parts ≤ t.file.sizes.num_parts
      → part_names
          (name_at t v 0)
          (name_at t v (t.file.sizes.num_parts - 1))
          (some t.safepath)
          i
          parts
        ≡ some (stored_paths t i parts)
  unfolding part_names
  part_names-at i zero h = refl
  part_names-at i (suc parts) h =
      rw (part_name-at i (omega arith), part_names-at (i + 1) parts (omega arith)) refl

  range_names-at : range_names v.first v.last ≡ some (stored_paths t 0 t.file.sizes.num_parts)
  unfolding range_names
  range_names-at =
      let (from, dir, _, _, _) =
        name_whole t v 0 v.first (omega (arith, v.several)) v.first_named v.first_fits in
      let (to, _, _, _, _) =
        name_whole t v (t.file.sizes.num_parts - 1) v.last (omega (arith, v.several)) v.last_named
          v.last_fits in
      rw (from, to, dir) (part_names-at 0 t.file.sizes.num_parts (omega arith))

  abbrev joined : Bytes → Bytes → Option Bytes
  joined first last = some (
      drop_front_slash first
      ++ (codes " ... " ++ (if at first 0 == b'/' then drop 1 last else last)))

  range_text-joined : range_text t ≡ joined v.first v.last
  unfolding range_text
  range_text-joined =
      ap
        (λ (o : Option Bytes). o >>= λ first.
          if ltb 1 t.file.sizes.num_parts
          then (stored_name t (sub32 t.file.sizes.num_parts 1) >>= joined first)
          else some (drop_front_slash first))
        v.first_named
      ∙ ap
          (λ b.
            if b
            then (stored_name t (sub32 t.file.sizes.num_parts 1) >>= joined v.first)
            else some (drop_front_slash v.first))
          (lt→ltb 1 t.file.sizes.num_parts (omega (arith, v.several)))
      ∙ ap (λ k. stored_name t k >>= joined v.first) (before_last t v)
      ∙ ap (λ (o : Option Bytes). o >>= joined v.first) v.last_named

  abbrev row_name : Bytes
  row_name = v.first ++ (codes " ... " ++ v.last)

  row_name-nonempty : 0 < length row_name
  row_name-nonempty = omega (arith, length-append v.first (codes " ... " ++ v.last))

  tar_names-paths : tar_names row_name ≡ some (stored_paths t 0 t.file.sizes.num_parts)
  unfolding tar_names
  tar_names-paths =
      rw (nonzero (length row_name) row_name-nonempty, dots_found v.first v.last v.no_blank)
        range_names-at

  pub range-IsReadable : IsReadable t
  unfolding has_char
  range-IsReadable =
      let (_, _, kept, relative, _) =
        name_whole t v 0 v.first (omega (arith, v.several)) v.first_named v.first_fits in
      record {
        name = row_name;
        written = range_text-joined ∙ rw (kept, relative) refl;
        read = tar_names-paths;
        nonempty = row_name-nonempty;
        name_free =
            free-append v.first (codes " ... " ++ v.last) 0 v.first_free
              (free-append (codes " ... ") v.last 0 refl v.last_free);
        name_fits =
            omega
              (arith, length-append v.first (codes " ... " ++ v.last), v.first_fits, v.last_fits);
        path_free = v.path_free;
        path_fits = v.path_fits;
      }
