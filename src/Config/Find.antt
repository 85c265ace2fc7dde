-- ===== src/Config/Find.antt =====
-- src/configuration.cc: findStorageFrom, which takes a location for a storage of a rule or decides
-- what kind of storage it is. The answers of the operating system and of rclone are parameters; the
-- storage that is made on the fly is passed in, and keeps its usage and its keep rule.
use beak.Prelude.{
  ℕ, zero, suc, Bool, true, false, ◌&&◌, ◌||◌, Option, none, some, List, [], ◌∷◌, ◌++◌, ltb, ◌==◌,
  if◌then◌else◌, ◌>>=◌, Bytes, codes, length, equal,
}
use beak.Text.Eating.{eat_to, eat_whitespace, trim_whitespace, is_end}
use beak.Tar.Split.{TarContents, index_file}
use beak.Tar.FileName.{new_tar_file_name, parse_file_name, field}
use beak.Config.Tables.{Table, find, set}
use beak.Config.Rules.{
  Rule, Storage, filesystem_storage, rclone_storage, rsync_storage, aftmtp_storage, gphoto2_storage,
  find_rule_from_storage_location,
}

-- The text up to the first colon, with it.
unfoldable pub colon_prefix : Bytes → Option Bytes
unfolding field
colon_prefix s = field b':' s >>= λ r. some (r.0 ++ codes ":")

unfoldable pub has_prefix : Bytes → Bytes → Bool
unfolding colon_prefix equal
has_prefix prefix s = elim (colon_prefix s) [ none ↦ false | some p ↦ equal p prefix ]

unfoldable pub is_aftmtp_storage : Bytes → Bool
unfolding has_prefix
is_aftmtp_storage s = has_prefix (codes "aftmtp:") s

unfoldable pub is_gphoto2_storage : Bytes → Bool
unfolding has_prefix
is_gphoto2_storage s = has_prefix (codes "gphoto2:") s

-- An at sign, and the first colon behind it.
unfoldable pub is_rsync_storage : Bytes → Bool
unfolding field
is_rsync_storage s = elim (field b'@' s) [
  | none ↦ false
  | some at_ ↦ elim (field b':' s) [
    | none ↦ false
    | some colon ↦ ltb (length at_.0) (length colon.0)
  ]
]

-- The lines that rclone lists: a target with its colon, and its type. Each round reads a character,
-- so that the fuel of the text's length is enough.
unfoldable pub remotes_loop : ℕ → Bytes → Table Bytes → Table Bytes
unfolding eat_whitespace is_end eat_to trim_whitespace set
remotes_loop zero out configs = configs
remotes_loop (suc fuel) out configs =
    let i = eat_whitespace out in
    let target = eat_to i (some b':') 4096 in
    let type = eat_to target.rest (some b'\n') 64 in
    elim (is_end i || (target.eof || (target.err || type.err))) [
      | true ↦ configs
      | false ↦
          remotes_loop fuel type.rest
            (set (trim_whitespace target.text ++ codes ":") (trim_whitespace type.text) configs)
    ]

-- The type of the rclone target; `listing` is what rclone puts out, if it succeeds.
unfoldable pub rclone_type : Option Bytes → Bytes → Option Bytes
unfolding colon_prefix remotes_loop find
rclone_type listing s = do
  name ← colon_prefix s
  out ← listing
  find name (remotes_loop (suc (length out)) out [])

unfoldable pub is_some {ℓ} : {A : Type ℓ} → Option A → Bool
is_some none = false
is_some (some a) = true

unfoldable pub is_index_file : TarContents → Bool
is_index_file index_file = true
is_index_file other = false

unfoldable pub has_index_file : List Bytes → Bool
unfolding parse_file_name is_index_file
has_index_file [] = false
has_index_file (f ∷ fs) =
    let rest = has_index_file fs in
    elim (parse_file_name new_tar_file_name f) [
      | none ↦ rest
      | some t ↦ if is_index_file t.type then true else rest
    ]

-- The names in the directory; two are "." and "..".
unfoldable pub has_index_files_or_is_empty : Option (List Bytes) → Bool
unfolding has_index_file
has_index_files_or_is_empty none = false
has_index_files_or_is_empty (some contents) = length contents == 2 || has_index_file contents

module _ (realpath : Bytes → Option Bytes) (is_directory : Bytes → Bool)
    (readdir : Bytes → Option (List Bytes)) (listing : Option Bytes) (importing : Bool) where
  unfoldable pub is_filesystem_storage : Bytes → Bool
  unfolding has_index_files_or_is_empty
  is_filesystem_storage location = elim (realpath location) [
    | none ↦ false
    | some rp ↦ is_directory rp && (importing || has_index_files_or_is_empty (readdir location))
  ]

  unfoldable pub find_directory : Storage → Bytes → Option Storage
  unfolding is_filesystem_storage
  find_directory a_storage location =
      let place : Bytes = elim (realpath location) [ none ↦ location | some rp ↦ rp ] in
      if is_filesystem_storage place
      then some (record a_storage { type = filesystem_storage; storage_location = some place })
      else none

  unfoldable pub find_storage_from : Table Rule → Storage → Bytes → Option Storage
  unfolding find_rule_from_storage_location find rclone_type is_some is_rsync_storage
      is_aftmtp_storage is_gphoto2_storage find_directory
  find_storage_from rules a_storage location =
      elim (find_rule_from_storage_location realpath rules location) [
        | some r ↦ find location r.storages
        | none ↦
            if is_some (rclone_type listing location)
            then some (record a_storage { type = rclone_storage; storage_location = some location })
            else if is_rsync_storage location
            then some (record a_storage { type = rsync_storage; storage_location = some location })
            else if is_aftmtp_storage location
            then some (record a_storage { type = aftmtp_storage; storage_location = some location })
            else if is_gphoto2_storage location
            then some
                (record a_storage { type = gphoto2_storage; storage_location = some location })
            else find_directory a_storage location
      ]
