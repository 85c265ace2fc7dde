-- ===== src/Index/Loading/Tars.antt =====
-- src/index.cc: the rows of the tar files in an index file.
use beak.Prelude.{
  ℕ, zero, suc, ◌+◌, ◌-◌, ◌||◌, Option, none, some, List, [], ◌∷◌, ◌++◌, ◌==◌, if◌then◌else◌, ◌>>=◌,
  Bytes, codes, length, take, strip_prefix, map,
}
use beak.Prelude.Words.{sub32}
use beak.Text.Eating.{eat_to, is_end}
use beak.Tar.FileName.{TarFileName, new_tar_file_name, parse_file_name}
use beak.Tar.FileName.Printing.{write_tar_file_name}
use beak.FileSystem.Paths.{lookup, parent}

pub record IndexTar : Type 0 where
  pub backup_location : Bytes
  pub tarfile_location : Bytes

-- A row: where the tar file belongs, and its name without the newline.
pub record TarRow : Type 0 where
  pub backup_location : Bytes
  pub tar_file : Bytes
  pub rest : Bytes

unfoldable pub drop_front_slash : Bytes → Bytes
drop_front_slash [] = []
drop_front_slash (c ∷ s) = if c == b'/' then s else c ∷ s

-- `none` is the break.
unfoldable pub eat_tar_row : Bytes → Option TarRow
unfolding eat_to drop_front_slash lookup
eat_tar_row v =
    let location = eat_to v (some 0) 4096 in
    let basis = eat_to location.rest (some 0) 4096 in
    let delta = eat_to basis.rest (some 0) 4096 in
    let tar = eat_to delta.rest (some 0) 4096 in
    if location.err || (basis.err || (delta.err || (tar.err || length tar.text == 0)))
    then none
    else some (record {
      backup_location = lookup (drop_front_slash location.text);
      tar_file = take (length tar.text - 1) tar.text;
      rest = tar.rest;
    })

-- find(" ... "): what stands before the dots, and what stands behind them.
unfoldable pub around_dots : Bytes → Option (Bytes × Bytes)
unfolding strip_prefix
around_dots [] = none
around_dots (c ∷ s) =
    let later = around_dots s in
    elim (strip_prefix (codes " ... ") (c ∷ s)) [
      | some r ↦ some ([], r)
      | none ↦ later >>= λ r. some (c ∷ r.0, r.1)
    ]

-- The name of part i of the range; the last part has the sizes of the last name.
unfoldable pub part_name : TarFileName → TarFileName → Option Bytes → ℕ → Option Bytes
unfolding write_tar_file_name lookup sub32
part_name fromfile tofile dir i =
    (write_tar_file_name 1024 dir (
        if i == sub32 fromfile.num_parts 1
        then record fromfile { part_nr = i; size = tofile.size; ondisk_size = tofile.ondisk_size }
        else record fromfile { part_nr = i })
      >>= λ buf. some (lookup buf))

-- The names from part i on.
unfoldable pub part_names : TarFileName → TarFileName → Option Bytes → ℕ → ℕ → Option (List Bytes)
unfolding part_name
part_names fromfile tofile dir i zero = some []
part_names fromfile tofile dir i (suc parts) = do
  name ← part_name fromfile tofile dir i
  names ← part_names fromfile tofile dir (i + 1) parts
  some (name ∷ names)

unfoldable pub range_names : Bytes → Bytes → Option (List Bytes)
unfolding parse_file_name part_names parent lookup
range_names from to = do
  fromfile ← parse_file_name new_tar_file_name from
  tofile ← parse_file_name new_tar_file_name to
  part_names fromfile tofile (parent (lookup from)) 0 fromfile.num_parts

-- The names that a row stands for. `none`: the code does not look whether the names of a range can
-- be parsed, or an assertion on the numbers of parts fails.
unfoldable pub tar_names : Bytes → Option (List Bytes)
unfolding around_dots range_names lookup
tar_names tar_file = if length tar_file == 0 then some [] else elim (around_dots tar_file) [
  | none ↦ some (lookup tar_file ∷ [])
  | some r ↦ range_names r.0 r.1
]

-- The calls of on_tar, the number of tars that are left, and the iterator.
pub record LoadedTars : Type 0 where
  pub tars : List IndexTar
  pub left : ℕ
  pub rest : Bytes

-- A row without a name does not count. Every row is read from at least one character, so that the
-- fuel of the text's length is enough.
unfoldable pub load_tars : ℕ → ℕ → Bytes → Option LoadedTars
unfolding is_end eat_tar_row tar_names
load_tars zero num_tars v = some (record { tars = []; left = num_tars; rest = v })
load_tars (suc fuel) num_tars v =
    if num_tars == 0 || is_end v
    then some (record { tars = []; left = num_tars; rest = v })
    else elim (eat_tar_row v) [
      | none ↦ some (record { tars = []; left = num_tars; rest = v })
      | some row ↦ (do
        names ← tar_names row.tar_file
        more ← load_tars fuel (if length row.tar_file == 0 then num_tars else num_tars - 1) row.rest
        some (record more {
          tars =
              map
                (λ name. record { backup_location = row.backup_location; tarfile_location = name })
                names
              ++ more.tars;
        }))
    ]
