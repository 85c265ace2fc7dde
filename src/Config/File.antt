-- ===== src/Config/File.antt =====
-- src/configuration.cc: the configuration file, its loading row by row and the text that is saved.
-- `none` is a call of error(...), which ends the program, or a null pointer that is followed. The
-- file has at least one character behind every backslash at the end of a line.
use beak.Prelude.{
  ℕ, zero, suc, ◌-◌, ◌*◌, Bool, true, false, not, ◌&&◌, ◌||◌, Option, none, some, [], ◌++◌, ◌==◌,
  if◌then◌else◌, ◌>>=◌, ◌>>◌, guard, Bytes, codes, length, take, drop, at, equal,
}
use beak.Text.Eating.{eat_to, eat_whitespace, trim_whitespace, is_end}
use beak.FileSystem.Paths.{lookup}
use beak.Config.Keeps.{parse_keep}
use beak.Config.Sizes.{parse_human_readable}
use beak.Config.Tables.{Table, find, set}
use beak.Config.Rules.{
  Rule, Storage, filesystem_storage, new_storage, new_rule, rule_type_of, storage_type_of,
  storage_usage_of, is_no_such, real_path, find_rule_from_storage_location,
  generate_default_settings,
}

pub data RuleKeyWord : Type 0 where
  origin_key type_key cache_key cache_size_key local_key local_keep_key : RuleKeyWord

pub data StorageKeyWord : Type 0 where
  remote_key remote_type_key remote_usage_key remote_keep_key : StorageKeyWord

unfoldable pub rule_keyword : Bytes → Option RuleKeyWord
unfolding equal
rule_keyword s =
    if equal s (codes "origin")
    then some origin_key
    else if equal s (codes "type")
    then some type_key
    else if equal s (codes "cache")
    then some cache_key
    else if equal s (codes "cache_size")
    then some cache_size_key
    else if equal s (codes "local")
    then some local_key
    else if equal s (codes "local_keep")
    then some local_keep_key
    else none

unfoldable pub storage_keyword : Bytes → Option StorageKeyWord
unfolding equal
storage_keyword s =
    if equal s (codes "remote")
    then some remote_key
    else if equal s (codes "remote_type")
    then some remote_type_key
    else if equal s (codes "remote_usage")
    then some remote_usage_key
    else if equal s (codes "remote_keep")
    then some remote_keep_key
    else none

-- The rules, the name of the current rule, and the storage that the pointer points to: the name of
-- its rule and its location.
pub record Loading : Type 0 where
  pub rules : Table Rule
  pub current_rule : Option Bytes
  pub current_storage : Option (Bytes × Bytes)

-- A change of the current rule, and of the current storage.
unfoldable pub with_rule : Loading → (Rule → Option Rule) → Option Loading
unfolding find set
with_rule l f = do
  name ← l.current_rule
  r ← find name l.rules
  changed ← f r
  some (record l { rules = set name changed l.rules })

unfoldable pub with_storage : Loading → (Storage → Option Storage) → Option Loading
unfolding find set
with_storage l f = do
  place ← l.current_storage
  r ← find place.0 l.rules
  s ← find place.1 r.storages
  changed ← f s
  some (record l {
    rules = set place.0 (record r { storages = set place.1 changed r.storages }) l.rules;
  })

-- The storage of a new location, in the current rule.
unfoldable pub add_remote : Loading → Bytes → Option Loading
unfolding find set
add_remote l location = do
  name ← l.current_rule
  r ← find name l.rules
  let old : Storage = elim (find location r.storages) [ none ↦ new_storage | some s ↦ s ]
  let storage = record old { storage_location = some location }
  some (record l {
    rules = set name (record r { storages = set location storage r.storages }) l.rules;
    current_storage = some (name, location);
  })

-- The lines that a backslash at the end of a line takes in; the line, the rest and the two flags.
-- Each round reads a character, so that the fuel of the text's length is enough.
unfoldable pub continued : ℕ → Bytes → Bytes → Bool → (Bytes × Bytes) × (Bool × Bool)
unfolding eat_to at
continued zero line buf eof = ((line, buf), (eof, false))
continued (suc fuel) line buf eof =
    let cut = take (length line - 1) line in
    let e = eat_to buf (some b'\n') (1024 * 1024) in
    elim (at line (length line - 1) == b'\\') [
      | true ↦ elim (e.eof || e.err) [
        | true ↦ ((cut, e.rest), (e.eof, e.err))
        | false ↦ continued fuel (cut ++ e.text) e.rest e.eof
      ]
      | false ↦ ((line, buf), (eof, false))
    ]

-- "[name]".
unfoldable pub start_rule : Bytes → Loading → Option Loading
unfolding trim_whitespace find set
start_rule block l =
    let name = trim_whitespace (take (length block - 2) (drop 1 block)) in
    elim (find name l.rules) [
      | some r ↦ none
      | none ↦
          some (record l { rules = set name (new_rule name) l.rules; current_rule = some name })
    ]

unfoldable pub is_header : Bytes → Bool
unfolding at
is_header block = at block 0 == b'[' && at block (length block - 1) == b']'

module _ (realpath : Bytes → Option Bytes) (cache_dir backups_dir : Bytes)
    (scaled : ℕ → Bytes → ℕ) where
  unfoldable pub rule_row : RuleKeyWord → Bytes → Rule → Option Rule
  unfolding lookup generate_default_settings rule_type_of real_path parse_human_readable parse_keep
      is_no_such
  rule_row origin_key value r = some (
      generate_default_settings cache_dir backups_dir
        (record r { origin_path = some (lookup value) }))
  rule_row type_key value r = rule_type_of value >>= λ t. some (record r { type = t })
  rule_row cache_key value r =
      real_path r.origin_path value >>= λ p. some (record r { cache_path = some p })
  rule_row cache_size_key value r =
      parse_human_readable scaled value >>= λ n. some (record r { cache_size = n })
  rule_row local_key value r = real_path r.origin_path value >>= λ p.
      some (record r {
        local = record r.local { storage_location = some p; type = filesystem_storage };
      })
  rule_row local_keep_key value r =
      guard (not (is_no_such r.local.type))
      >> (parse_keep value >>= λ k. some (record r { local = record r.local { keep = k } }))

  unfoldable pub storage_row : StorageKeyWord → Bytes → Loading → Option Loading
  unfolding lookup find_rule_from_storage_location add_remote with_storage storage_type_of
      storage_usage_of parse_keep
  storage_row remote_key value l =
      let location = lookup value in
      guard (not (length value == 0))
      >> (elim (find_rule_from_storage_location realpath l.rules location) [
        | some r ↦ none
        | none ↦ add_remote l location
      ])
  storage_row remote_type_key value l =
      with_storage l (λ s. storage_type_of value >>= λ t. some (record s { type = t }))
  storage_row remote_usage_key value l =
      with_storage l (λ s. storage_usage_of value >>= λ u. some (record s { usage = u }))
  storage_row remote_keep_key value l =
      with_storage l (λ s. parse_keep value >>= λ k. some (record s { keep = k }))

  -- The message at the start names the current rule.
  unfoldable pub parse_row : Bytes → Bytes → Loading → Option Loading
  unfolding rule_keyword storage_keyword with_rule rule_row storage_row
  parse_row key value l = l.current_rule >>= λ name. elim (rule_keyword key) [
    | some k ↦ with_rule l (rule_row k value)
    | none ↦ storage_keyword key >>= λ k. storage_row k value l
  ]

  -- What a line that is no comment leads to; `false` is the break.
  unfoldable pub key_value : Bytes → Loading → Option (Loading × Bool)
  unfolding eat_to trim_whitespace parse_row
  key_value line l =
      let k = eat_to line (some b'=') (1024 * 1024) in
      let v = eat_to k.rest none (1024 * 1024) in
      if k.eof || (k.err || v.err)
      then some (l, false)
      else (parse_row (trim_whitespace k.text) (trim_whitespace v.text) l >>= λ next.
          some (next, true))

  -- The loop over the lines. Each round reads a character, so that the fuel of the text's length
  -- and one more is enough.
  unfoldable pub load_loop : ℕ → Bytes → Loading → Option Loading
  unfolding eat_whitespace is_end eat_to trim_whitespace is_header start_rule continued key_value at
  load_loop zero buf l = some l
  load_loop (suc fuel) buf l =
      let i = eat_whitespace buf in
      let e = eat_to i (some b'\n') (1024 * 1024) in
      let block = trim_whitespace e.text in
      elim (is_end i || e.err) [
        | true ↦ some l
        | false ↦ elim (length block == 0 || at block 0 == b'#') [
          | true ↦ load_loop fuel e.rest l
          | false ↦ elim (is_header block) [
            | true ↦ start_rule block l >>= load_loop fuel e.rest
            | false ↦
                let c = continued (suc (length e.rest)) block e.rest e.eof in
                elim c.1.1 [
                  | true ↦ some l
                  | false ↦ key_value c.0.0 l >>= λ r. elim r.1 [
                    | true ↦ load_loop fuel c.0.1 r.0
                    | false ↦ some r.0
                  ]
                ]
          ]
        ]
      ]

  unfoldable pub load : Bytes → Option (Table Rule)
  unfolding load_loop
  load buf =
      (load_loop (suc (length buf)) buf
          (record { rules = []; current_rule = none; current_storage = none })
        >>= λ l. some l.rules)
