-- ===== src/Index/Rows/RoundTrip.antt =====
-- src/tarentry.cc: the row that cookEntry writes is read back by eatEntry.
use beak.Prelude.{
  ℕ, ◌^◌, ◌≤◌, ◌<◌, ◌≡◌, refl, ap, ◌∙◌, false, Option, some, List, [], ◌∷◌, ◌++◌, arith, ltb, ◌==◌,
  if◌then◌else◌, Bytes, codes, length, has_char,
}
use beak.Prelude.Words.{add64}
use beak.Prelude.Decimal.{to_decimal}
use beak.Text.Eating.{is_end}
use beak.Text.Hex.{to_hex}
use beak.Index.Permissions.{string_to_permission, is_kind}
use beak.Index.Permissions.Completed.{HasType, completed, string-permission_string}
use beak.Index.Rows.{
  RowEntry, columns, cook_entry, owner_text, size_text, time_text, link_text, tar_text, is_device,
}
use beak.Index.Rows.Eaten.{
  IndexEntry, got, eat_hash, eat_parts, eat_path, eat_owner, eat_entry, prepend, drop_slash,
  read_link,
}
use beak.Index.Permissions.Completed.{completed-div}
use beak.Index.Permissions.Plain.{permission_string-plain}
use beak.Index.Rows.Stages.{
  hash_column, offset_column, owner_column, time_column, path_column, link_column, tar_column,
  permission_column,
}
use beak.Index.Rows.Measures.{sized, size_column}
use beak.Index.Rows.Numbers.{IsParted, parted, parts_column}

-- What a row can express: a mode with the type of a file, numbers that fit their types, texts
-- without a zero that the reader takes in whole, and the hash of an SHA-256.
pub record IsIndexable (e : RowEntry) : Type 0 where
  pub typed : HasType e.st_mode
  pub uid_fits : e.st_uid < 2 ^ 32
  pub gid_fits : e.st_gid < 2 ^ 32
  pub size_fits : e.st_size < 2 ^ 63
  pub major_fits : e.st_rdev.0 < 2 ^ 32
  pub minor_fits : e.st_rdev.1 < 2 ^ 32
  pub sec_fits : e.mtim_sec < 2 ^ 63
  pub nsec_fits : e.mtim_nsec < 10 ^ 9
  pub path_free : has_char e.tarpath 0 ≡ false
  pub path_fits : length e.tarpath ≤ 1024
  pub link_free : has_char (link_text e) 0 ≡ false
  pub link_fits : length (link_text e) ≤ 1024
  pub tar_name : Bytes
  pub named : tar_text e ≡ some tar_name
  pub name_free : has_char tar_name 0 ≡ false
  pub name_fits : length tar_name ≤ 1024
  pub parts : IsParted e.tar_file.sizes
  pub offset_fits : add64 e.tar_offset e.header_size < 2 ^ 63
  pub hash_fits : length e.meta_hash ≤ 32

device_completed : (mode : ℕ) → HasType mode → is_device (completed mode) ≡ is_device mode
unfolding is_device is_kind
device_completed mode h = rw (completed-div mode) refl

module _ (e : RowEntry) (v : IsIndexable e) (dir safedir : Option Bytes) (old : IndexEntry) where
  -- The entry with the owner that the row says.
  abbrev owned : IndexEntry
  owned = record old { st_mode = completed e.st_mode; st_uid = e.st_uid; st_gid = e.st_gid }

  abbrev timed : IndexEntry
  timed = record (sized owned [] [] [] dir safedir e) {
    mtim_sec = e.mtim_sec;
    mtim_nsec = e.mtim_nsec;
    path = drop_slash (prepend dir e.tarpath);
  }

  abbrev linked : IndexEntry
  linked = read_link timed (link_text e)

  -- The entry that comes back.
  abbrev pub indexed : IndexEntry
  indexed = parted e.tar_file.sizes (record linked {
    tarr = if ltb 0 (length v.tar_name) then prepend safedir v.tar_name else v.tar_name;
    offset = add64 e.tar_offset e.header_size;
  })

  abbrev hash : Bytes
  hash = to_hex e.meta_hash ++ codes "\n"

  abbrev off : Bytes
  off = to_decimal (add64 e.tar_offset e.header_size)

  abbrev from_path : Bytes → List Bytes
  from_path px = e.tarpath ∷ link_text e ∷ v.tar_name ∷ off ∷ px ∷ hash ∷ []

  -- The columns from the path on.
  eat-path :
      (ie : IndexEntry) (px rest : Bytes)
      → ((ie : IndexEntry) (d : Bytes) (cs : List Bytes) (rest : Bytes)
          → eat_parts ie (columns (px ∷ d ∷ cs) ++ rest)
            ≡ eat_hash (parted e.tar_file.sizes ie) (columns (d ∷ cs) ++ rest))
      → eat_path dir safedir ie (columns (from_path px) ++ rest)
        ≡ got
            (parted e.tar_file.sizes
              (record (read_link
                (record ie { path = drop_slash (prepend dir e.tarpath) })
                (link_text e)) {
                  tarr =
                      if ltb 0 (length v.tar_name) then prepend safedir v.tar_name else v.tar_name;
                  offset = add64 e.tar_offset e.header_size;
                }))
            rest
            (is_end rest)
  eat-path ie px rest parts =
      let ie1 : IndexEntry = record ie { path = drop_slash (prepend dir e.tarpath) } in
      let ie2 : IndexEntry = read_link ie1 (link_text e) in
      let ie3 : IndexEntry = record ie2 {
        tarr = if ltb 0 (length v.tar_name) then prepend safedir v.tar_name else v.tar_name;
      } in
      let ie4 : IndexEntry = record ie3 { offset = add64 e.tar_offset e.header_size } in
      path_column ie (link_text e) (v.tar_name ∷ off ∷ px ∷ hash ∷ []) rest dir safedir e
        v.path_free v.path_fits
      ∙ link_column ie1 v.tar_name (off ∷ px ∷ hash ∷ []) rest dir safedir e v.link_free v.link_fits
      ∙ tar_column ie2 off (px ∷ hash ∷ []) rest dir safedir e v.tar_name v.name_free v.name_fits
      ∙ offset_column ie3 px (hash ∷ []) rest (add64 e.tar_offset e.header_size) v.offset_fits
      ∙ parts ie4 hash [] rest
      ∙ hash_column (parted e.tar_file.sizes ie4) e.meta_hash rest v.hash_fits

  eat-row :
      (s px rest : Bytes)
      → has_char s 0 ≡ false
      → length s ≤ 32
      → string_to_permission s ≡ completed e.st_mode
      → 0 < completed e.st_mode
      → ((ie : IndexEntry) (d : Bytes) (cs : List Bytes) (rest : Bytes)
          → eat_parts ie (columns (px ∷ d ∷ cs) ++ rest)
            ≡ eat_hash (parted e.tar_file.sizes ie) (columns (d ∷ cs) ++ rest))
      → eat_entry dir safedir old
          (columns (s ∷ [] ∷ owner_text e ∷ size_text e ∷ time_text e ∷ from_path px) ++ rest)
        ≡ got indexed rest (is_end rest)
  eat-row s px rest s_free s_fits back nonzero parts =
      let ie0 : IndexEntry = record old { st_mode = completed e.st_mode } in
      let some_bits : (string_to_permission s == 0) ≡ false = ground (arith, back, nonzero) in
      let c4 : List Bytes = time_text e ∷ from_path px in
      permission_column old (owner_text e) (size_text e ∷ c4) rest dir safedir e s s_free s_fits
        some_bits
      ∙ ap
          (λ m.
            eat_owner dir safedir (record old { st_mode = m })
              (columns (owner_text e ∷ size_text e ∷ c4) ++ rest))
          back
      ∙ owner_column ie0 (size_text e) c4 rest dir safedir e v.uid_fits v.gid_fits
      ∙ size_column owned (time_text e) (from_path px) rest dir safedir e
          (device_completed e.st_mode v.typed) v.size_fits v.major_fits v.minor_fits
      ∙ time_column (sized owned (time_text e) (from_path px) rest dir safedir e) e.tarpath
          (link_text e ∷ v.tar_name ∷ off ∷ px ∷ hash ∷ []) rest dir safedir e v.sec_fits
          v.nsec_fits
      ∙ eat-path _ px rest parts

  -- The row that is written behind any listing, and read from in front of anything.
  pub cooked :
      (row : Bytes) × ((listing : Bytes) → cook_entry listing e ≡ some (listing ++ row))
      × ((rest : Bytes) → eat_entry dir safedir old (row ++ rest) ≡ got indexed rest (is_end rest))
  unfolding cook_entry
  cooked =
      let (s, printed, back, nonzero) = string-permission_string e.st_mode v.typed in
      let (s_free, s_length) = permission_string-plain e.st_mode s printed in
      let (px, told, parts) = parts_column e.tar_file.sizes v.parts in
      (
        columns (s ∷ [] ∷ owner_text e ∷ size_text e ∷ time_text e ∷ from_path px),
        λ listing. rw (printed, v.named, told) refl,
        λ rest. eat-row s px rest s_free (omega (arith, s_length)) back nonzero parts,
      )

  -- For every entry whose numbers and texts a row can express, cookEntry fails no assertion, and
  -- eatEntry reads its row from in front of anything, into any entry and with any directories to
  -- prepend: it gives the entry's columns back, the path in its directory and without a
  -- slash at its end, and the mode with the execute bits that the special bits stand
  -- for, stands behind the row, and reports the end exactly if nothing follows.
  pub eat-cook :
      (listing rest : Bytes)
      → (row : Bytes) × (cook_entry listing e ≡ some (listing ++ row))
        × (eat_entry dir safedir old (row ++ rest) ≡ got indexed rest (is_end rest))
  eat-cook listing rest = let (row, written, read) = cooked in (row, written listing, read rest)
