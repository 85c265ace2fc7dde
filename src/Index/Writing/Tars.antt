-- ===== src/Index/Writing/Tars.antt =====
-- src/backup.cc and src/index.cc: the rows of the tar files of an index file are read back.
use beak.Prelude.{
  ℕ, zero, suc, ◌+◌, ◌-◌, ◌≤◌, ◌<◌, ◌≡◌, refl, ap, ◌∙◌, true, false, ◌||◌, Option, none, some, List,
  [], ◌∷◌, ◌++◌, arith, ltb, ◌==◌, if◌then◌else◌, ◌>>=◌, Bytes, codes, length, length-append, take,
  has_char, map, All,
}
use beak.Text.Eating.{Eaten, eat_to, is_end, eat_to-append}
use beak.Tar.FileName.Numbers.{free-append}
use beak.Index.Rows.Columns.{append_assoc}
use beak.FileSystem.Paths.{lookup}
use beak.Index.Loading.Tars.{
  IndexTar, TarRow, LoadedTars, drop_front_slash, eat_tar_row, tar_names, load_tars,
}
use beak.Index.Writing.{StoredTar, stored_name, location_text, range_text, tar_row, tar_rows}

-- The reading of a row, after its first, second and third field.
abbrev row_end : Eaten → Eaten → Eaten → Eaten → Option TarRow
row_end location basis delta tar =
    if location.err || (basis.err || (delta.err || (tar.err || length tar.text == 0)))
    then none
    else some (record {
      backup_location = lookup (drop_front_slash location.text);
      tar_file = take (length tar.text - 1) tar.text;
      rest = tar.rest;
    })

abbrev after_delta : Eaten → Eaten → Eaten → Option TarRow
after_delta location basis delta = row_end location basis delta (eat_to delta.rest (some 0) 4096)

abbrev after_basis : Eaten → Eaten → Option TarRow
after_basis location basis = after_delta location basis (eat_to basis.rest (some 0) 4096)

abbrev after_location : Eaten → Option TarRow
after_location location = after_basis location (eat_to location.rest (some 0) 4096)

abbrev eaten : Bytes → Bytes → Eaten
eaten s v = record { text = s; rest = v; eof = is_end v; err = false }

but_newline : (s : Bytes) → take (length (s ++ codes "\n") - 1) (s ++ codes "\n") ≡ s
but_newline [] = refl
but_newline (c ∷ s) =
    let e : suc (length (s ++ codes "\n")) - 1 ≡ suc (length (s ++ codes "\n") - 1) =
      omega (arith, length-append s (codes "\n")) in
    rw e (ap (◌∷◌ c) (but_newline s))

eat-row :
    (location name rest : Bytes)
    → has_char location 0 ≡ false
    → length location ≤ 4096
    → has_char name 0 ≡ false
    → length name < 4096
    → eat_tar_row (location ++ 0 ∷ 0 ∷ 0 ∷ ((name ++ codes "\n") ++ 0 ∷ rest))
      ≡ some (record {
        backup_location = lookup (drop_front_slash location);
        tar_file = name;
        rest = rest;
      })
unfolding eat_tar_row has_char
eat-row location name rest l_free l_fits n_free n_fits =
    let tar : Bytes = name ++ codes "\n" in
    let r3 : Bytes = tar ++ 0 ∷ rest in
    let e1 : Eaten = eaten location (0 ∷ 0 ∷ r3) in
    let e2 : Eaten = eaten [] (0 ∷ r3) in
    let e3 : Eaten = eaten [] r3 in
    let longer : length tar ≡ length name + 1 = length-append name (codes "\n") in
    let nonempty : (length tar == 0) ≡ false = ground (arith, longer) in
    ap after_location (eat_to-append location (0 ∷ 0 ∷ r3) 0 4096 l_free l_fits)
    ∙ ap (after_basis e1) (eat_to-append [] (0 ∷ r3) 0 4096 refl (omega arith))
    ∙ ap (after_delta e1 e2) (eat_to-append [] r3 0 4096 refl (omega arith))
    ∙ ap (row_end e1 e2 e3) (
        eat_to-append tar rest 0 4096 (free-append name (codes "\n") 0 n_free refl)
          (omega (arith, longer, n_fits)))
    ∙ rw (nonempty, but_newline name) refl

-- Where a part of a tar file is stored.
unfoldable pub stored_path : StoredTar → ℕ → Bytes
stored_path t i =
    lookup (drop_front_slash (elim (stored_name t i) [ none ↦ [] | some name ↦ name ]))

pub stored_path-named :
    (t : StoredTar) (i : ℕ) (name : Bytes)
    → stored_name t i ≡ some name
    → stored_path t i ≡ lookup (drop_front_slash name)
unfolding stored_path
stored_path-named t i name e =
    ap
      (λ (o : Option Bytes).
        lookup (drop_front_slash (elim o [ none ↦ [] | some written ↦ written ])))
      e

-- Where its parts are stored, from part `i` on.
abbrev pub stored_paths : StoredTar → ℕ → ℕ → List Bytes
stored_paths t i zero = []
stored_paths t i (suc parts) = stored_path t i ∷ stored_paths t (i + 1) parts

-- The row of a tar file can be read, as where all its parts are stored.
pub record IsReadable (t : StoredTar) : Type 0 where
  pub name : Bytes
  pub written : range_text t ≡ some name
  pub read : tar_names name ≡ some (stored_paths t 0 t.file.sizes.num_parts)
  pub nonempty : 0 < length name
  pub name_free : has_char name 0 ≡ false
  pub name_fits : length name < 4096
  pub path_free : has_char t.path 0 ≡ false
  pub path_fits : length t.path < 4095

-- The location that comes back.
abbrev pub location_of : StoredTar → Bytes
location_of t = lookup (drop_front_slash (location_text t.path))

-- Every part of every tar file, in their order.
abbrev pub tars_of : StoredTar → List IndexTar
tars_of t =
    map (λ n. record { backup_location = location_of t; tarfile_location = n })
      (stored_paths t 0 t.file.sizes.num_parts)

abbrev pub all_tars : List StoredTar → List IndexTar
all_tars [] = []
all_tars (t ∷ ts) = tars_of t ++ all_tars ts

location-plain :
    (path : Bytes)
    → has_char path 0 ≡ false
    → length path < 4095
    → (has_char (location_text path) 0 ≡ false) × (length (location_text path) ≤ 4096)
unfolding location_text has_char
location-plain [] h k = (refl, omega arith)
location-plain (c ∷ path) h k =
    let more : ltb 0 (length (c ∷ path)) ≡ true = ground arith in
    rw more (
      free-append (c ∷ path) (codes "/") 0 h refl,
      omega (arith, length-append (c ∷ path) (codes "/"), k),
    )

abbrev tars_step : ℕ → ℕ → Bytes → Option TarRow → Option LoadedTars
tars_step fuel num v none = some (record { tars = []; left = num; rest = v })
tars_step fuel num v (some row) = do
  names ← tar_names row.tar_file
  more ← load_tars fuel (if length row.tar_file == 0 then num else num - 1) row.rest
  some (record more {
    tars =
        map (λ n. record { backup_location = row.backup_location; tarfile_location = n }) names
        ++ more.tars;
  })

load_tars-step :
    (fuel num : ℕ) (v : Bytes) (row : TarRow) (names : List Bytes) (more : LoadedTars)
    → eat_tar_row v ≡ some row
    → is_end v ≡ false
    → tar_names row.tar_file ≡ some names
    → 0 < length row.tar_file
    → load_tars fuel num row.rest ≡ some more
    → load_tars (suc fuel) (suc num) v
      ≡ some (record more {
        tars =
            map (λ n. record { backup_location = row.backup_location; tarfile_location = n }) names
            ++ more.tars;
      })
unfolding load_tars
load_tars-step fuel num v row names more e going named nonempty loaded =
    let counted : (length row.tar_file == 0) ≡ false = ground (arith, nonempty) in
    let some_left : (suc num == 0) ≡ false = ground arith in
    rw (some_left, going) (ap (tars_step fuel (suc num) v) e ∙ kept counted)
  where
    kept :
        (length row.tar_file == 0) ≡ false
        → tars_step fuel (suc num) v (some row)
          ≡ some (record more {
            tars =
                map
                  (λ n. record { backup_location = row.backup_location; tarfile_location = n })
                  names
                ++ more.tars;
          })
    kept counted =
        let less : suc num - 1 ≡ num = omega arith in rw (named, counted, less, loaded) refl

no_tars :
    (fuel : ℕ) (v : Bytes) → load_tars fuel 0 v ≡ some (record { tars = []; left = 0; rest = v })
unfolding load_tars
no_tars zero v = refl
no_tars (suc fuel) v = refl

map-append_assoc : (xs ys zs : List IndexTar) → (xs ++ ys) ++ zs ≡ xs ++ (ys ++ zs)
map-append_assoc [] ys zs = refl
map-append_assoc (x ∷ xs) ys zs = ap (◌∷◌ x) (map-append_assoc xs ys zs)

row-shape :
    (location name rest : Bytes)
    → (location ++ 0 ∷ 0 ∷ 0 ∷ (name ++ codes "\n" ++ 0 ∷ [])) ++ rest
      ≡ location ++ 0 ∷ 0 ∷ 0 ∷ ((name ++ codes "\n") ++ 0 ∷ rest)
row-shape location name rest =
    append_assoc location (0 ∷ 0 ∷ 0 ∷ (name ++ codes "\n" ++ 0 ∷ [])) rest
    ∙ ap (λ r. location ++ 0 ∷ 0 ∷ 0 ∷ r) (append_assoc (name ++ codes "\n") (0 ∷ []) rest)

abbrev row_text : (t : StoredTar) → IsReadable t → Bytes
row_text t v = location_text t.path ++ 0 ∷ 0 ∷ 0 ∷ (v.name ++ codes "\n" ++ 0 ∷ [])

row-going : (location s : Bytes) → is_end (location ++ 0 ∷ s) ≡ false
unfolding is_end
row-going [] s = refl
row-going (c ∷ location) s = refl

load-row :
    (t : StoredTar) (v : IsReadable t) (fuel num : ℕ) (rest : Bytes) (more : LoadedTars)
    → load_tars fuel num rest ≡ some more
    → load_tars (suc fuel) (suc num) (row_text t v ++ rest)
      ≡ some (record more { tars = tars_of t ++ more.tars })
load-row t v fuel num rest more loaded =
    let (free, fits) = location-plain t.path v.path_free v.path_fits in
    ap (load_tars (suc fuel) (suc num)) (row-shape (location_text t.path) v.name rest)
    ∙ load_tars-step fuel num _
        (record { backup_location = location_of t; tar_file = v.name; rest = rest })
        (stored_paths t 0 t.file.sizes.num_parts) more
        (eat-row (location_text t.path) v.name rest free fits v.name_free v.name_fits)
        (row-going (location_text t.path) _) v.read v.nonempty loaded

row_text-long :
    (t : StoredTar) (v : IsReadable t) (rows : Bytes) → length rows < length (row_text t v ++ rows)
row_text-long t v rows = omega (
  arith,
  length-append (row_text t v) rows,
  length-append (location_text t.path) (0 ∷ 0 ∷ 0 ∷ (v.name ++ codes "\n" ++ 0 ∷ [])),
)

row-written : (t : StoredTar) (v : IsReadable t) → tar_row t ≡ some (row_text t v)
unfolding tar_row
row-written t v = rw v.written refl

suc_of : (n fuel : ℕ) → suc n ≤ fuel → (f : ℕ) × (fuel ≡ suc f) × (n ≤ f)
suc_of n zero h = absurd (omega arith)
suc_of n (suc f) h = (f, refl, omega arith)

-- The rows of the tar files are read from in front of anything else, with any fuel that is not less
-- than their number.
pub load-tar_rows :
    (ts : List StoredTar) (vs : All IsReadable ts)
    → (rows : Bytes) × (tar_rows ts ≡ some rows)
      × (length ts ≤ length rows)
      × ((fuel : ℕ) (rest : Bytes)
          → length ts ≤ fuel
          → load_tars fuel (length ts) (rows ++ rest)
            ≡ some (record { tars = all_tars ts; left = 0; rest = rest }))
unfolding tar_rows
load-tar_rows [] vs = ([], refl, omega arith, λ fuel rest enough. no_tars fuel rest)
load-tar_rows (t ∷ ts) (v, vs) =
    let (rows, written, shorter, loads) = load-tar_rows ts vs in
    (
      row_text t v ++ rows,
      rw (row-written t v, written) refl,
      omega (arith, shorter, row_text-long t v rows),
      λ fuel rest enough.
          let (f, e, less) = suc_of (length ts) fuel enough in
          ap (λ n. load_tars n (length (t ∷ ts)) ((row_text t v ++ rows) ++ rest)) e
          ∙ ap (load_tars (suc f) (length (t ∷ ts))) (append_assoc (row_text t v) rows rest)
          ∙ load-row t v f (length ts) (rows ++ rest) _ (loads f rest less),
    )
