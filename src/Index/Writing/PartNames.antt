-- ===== src/Index/Writing/PartNames.antt =====
-- src/backup.cc and src/tarfile.cc: the names of the parts of a tar file, below their directory.
use beak.Prelude.{
  ℕ, ◌-◌, ◌%◌, ◌^◌, ◌≤◌, ◌<◌, ◌≡◌, refl, sym, ap, ◌∙◌, true, false, some, [], ◌∷◌, ◌++◌, arith, ltb,
  ◌==◌, if◌then◌else◌, ◌>>=◌, some_inj, inl, inr, Bytes, length, length-append, take, at, has_char,
  lt→ltb,
}
use beak.Prelude.Words.{sub32, sub32_exact}
use beak.Text.Hex.{to_hex}
use beak.Tar.Parts.{part_content_size, disk_size}
use beak.Tar.FileName.{TarFileName, new_tar_file_name, parse_file_name}
use beak.Tar.FileName.Numbers.{all_hex}
use beak.Tar.FileName.Values.{take_cases}
use beak.Tar.FileName.Printing.{write_tar_file_name}
use beak.Tar.FileName.RoundTrip.{IsNameable, base_name-plain, parse-write}
use beak.FileSystem.Paths.{lookup, parent}
use beak.FileSystem.Parents.{parent-in_dir}
use beak.Index.Rows.{tar_file_name}
use beak.Index.Loading.Tars.{drop_front_slash}
use beak.Index.Writing.{StoredTar, stored_name}

-- A tar file in several parts below a relative directory, with sizes and a time that names can
-- express. The names of its first and of its last part fit their buffer.
pub record IsRange (t : StoredTar) : Type 0 where
  pub several : 2 ≤ t.file.sizes.num_parts
  pub few_parts : t.file.sizes.num_parts < 2 ^ 28
  pub sec_fits : t.file.mtim_sec < 2 ^ 63
  pub micros : t.file.mtim_nsec % 1000 ≡ 0
  pub nsec_fits : t.file.mtim_nsec < 10 ^ 9
  pub size_fits : t.file.sizes.part_size < 2 ^ 63
  pub last_size_fits : t.file.sizes.last_part_size < 2 ^ 63
  pub disk_fits : t.file.sizes.ondisk_part_size < 2 ^ 63
  pub last_disk_fits : t.file.sizes.ondisk_last_part_size < 2 ^ 63
  pub hash_hex : all_hex (to_hex t.file.sha256_hash) ≡ true
  pub some_dir : 0 < length t.safepath
  pub plain_dir : lookup t.safepath ≡ t.safepath
  pub relative : (at t.safepath 0 == b'/') ≡ false
  pub first : Bytes
  pub first_named : stored_name t 0 ≡ some first
  pub first_fits : length first < 1023
  pub first_free : has_char first 0 ≡ false
  pub no_blank : has_char first b' ' ≡ false
  pub last : Bytes
  pub last_named : stored_name t (t.file.sizes.num_parts - 1) ≡ some last
  pub last_fits : length last < 1023
  pub last_free : has_char last 0 ≡ false
  pub path_free : has_char t.path 0 ≡ false
  pub path_fits : length t.path < 4095

pub front_kept :
    (dir s : Bytes)
    → 0 < length dir
    → (at dir 0 == b'/') ≡ false
    → drop_front_slash (take 1023 (dir ++ s)) ≡ take 1023 (dir ++ s)
unfolding drop_front_slash at
front_kept [] s h k = absurd (omega arith)
front_kept (c ∷ d) s h k = rw k refl

at_front : (dir s : Bytes) → 0 < length dir → (at (dir ++ s) 0 == b'/') ≡ (at dir 0 == b'/')
unfolding at
at_front [] s h = absurd (omega arith)
at_front (c ∷ d) s h = refl

module _ (t : StoredTar) (v : IsRange t) where
  abbrev pub total_parts : ℕ
  total_parts = t.file.sizes.num_parts

  -- The fields of the name of a part.
  abbrev pub name_at : ℕ → TarFileName
  name_at i = record {
    type = t.file.sizes.tar_contents;
    version = 2;
    sec = t.file.mtim_sec;
    nsec = t.file.mtim_nsec;
    size = if ltb i (total_parts - 1) then t.file.sizes.part_size else t.file.sizes.last_part_size;
    ondisk_size =
        if ltb i (total_parts - 1)
        then t.file.sizes.ondisk_part_size
        else t.file.sizes.ondisk_last_part_size;
    backup_size = 0;
    header_hash = to_hex t.file.sha256_hash;
    part_nr = i;
    num_parts = total_parts;
    old_style = false;
  }

  pub before_last : sub32 total_parts 1 ≡ total_parts - 1
  before_last = sub32_exact total_parts 1 (omega (arith, v.several)) (omega (arith, v.few_parts))

  name_at-IsNameable : (i : ℕ) → i < total_parts → IsNameable (name_at i)
  name_at-IsNameable i h = record {
    sec_fits = v.sec_fits;
    micros = v.micros;
    nsec_fits = v.nsec_fits;
    size_fits = ground (arith, v.size_fits, v.last_size_fits);
    ondisk_fits = ground (arith, v.disk_fits, v.last_disk_fits);
    hash_hex = v.hash_hex;
    part_below = h;
    few_parts = v.few_parts;
  }

  tar_file_name-at : (i : ℕ) → i < total_parts → tar_file_name t.file i ≡ some (name_at i)
  unfolding tar_file_name part_content_size disk_size
  tar_file_name-at i h =
      let many : (total_parts == 1) ≡ false = ground (arith, v.several) in
      rw (lt→ltb i total_parts h, many, before_last) refl

  pub stored_name-at :
      (i : ℕ)
      → i < total_parts
      → stored_name t i ≡ write_tar_file_name 1024 (some t.safepath) (name_at i)
  unfolding stored_name
  stored_name-at i h =
      ap (λ o. o >>= write_tar_file_name 1024 (some t.safepath)) (tar_file_name-at i h)

  -- A part's name is behind its directory, cut off where the buffer ends.
  pub name-in_dir :
      (i : ℕ)
      → i < total_parts
      → (b : Bytes) × (stored_name t i ≡ some (take 1023 (t.safepath ++ b'/' ∷ b)))
        × (has_char b b'/' ≡ false)
        × (5 ≤ length b)
  unfolding write_tar_file_name
  name-in_dir i h =
      let (b, named, free, long) = base_name-plain (name_at i) (name_at-IsNameable i h) in
      (b, stored_name-at i h ∙ rw (named, lt→ltb 0 (length t.safepath) v.some_dir) refl, free, long)

  -- A name that fits its buffer.
  pub name_whole :
      (i : ℕ) (name : Bytes)
      → i < total_parts
      → stored_name t i ≡ some name
      → length name < 1023
      → (parse_file_name new_tar_file_name name ≡ some (name_at i))
        × (parent (lookup name) ≡ some t.safepath)
        × (drop_front_slash name ≡ name)
        × ((at name 0 == b'/') ≡ false)
        × (0 < length name)
  name_whole i name h named fits =
      let (b, in_dir, free, long) = name-in_dir i h in
      let whole : t.safepath ++ b'/' ∷ b ≡ name = elim (take_cases 1023 (t.safepath ++ b'/' ∷ b)) [
        | inl full ↦
            let same = ap length (some_inj (sym named ∙ in_dir)) in absurd (omega (arith, same))
        | inr all ↦ sym all ∙ some_inj (sym in_dir ∙ named)
      ] in
      let (written, run, back) =
        parse-write (name_at i) (name_at-IsNameable i h) 1024 (some t.safepath) in
      let same : written ≡ name = some_inj (sym run ∙ sym (stored_name-at i h) ∙ named) in
      (
        elim back [
          | inl full ↦ absurd (omega (arith, ap length same))
          | inr parsed ↦ ap (parse_file_name new_tar_file_name) (sym same) ∙ parsed
        ],
        ap (λ (p : Bytes). parent (lookup p)) (sym whole)
            ∙ parent-in_dir t.safepath b free long
            ∙ ap some v.plain_dir,
        (let kept = front_kept t.safepath (b'/' ∷ b) v.some_dir v.relative in
            let cut : take 1023 (t.safepath ++ b'/' ∷ b) ≡ name = some_inj (sym in_dir ∙ named) in
            ap drop_front_slash (sym cut) ∙ kept ∙ cut),
        ap (λ (p : Bytes). at p 0 == b'/') (sym whole)
            ∙ at_front t.safepath (b'/' ∷ b) v.some_dir
            ∙ v.relative,
        omega (arith, ap length whole, length-append t.safepath (b'/' ∷ b)),
      )
