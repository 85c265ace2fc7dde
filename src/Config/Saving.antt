-- ===== src/Config/Saving.antt =====
-- src/configuration.cc: the text that a configuration is saved as. `none` is a null pointer that is
-- followed.
use beak.Prelude.{
  Option, none, some, List, [], ◌∷◌, ◌++◌, if◌then◌else◌, ◌>>=◌, Bytes, codes, equal,
}
use beak.Text.Sizes.{human_readable}
use beak.FileSystem.Paths.{common_prefix, subpath, depth}
use beak.Config.Keeps.{keep_text}
use beak.Config.Tables.{Table}
use beak.Config.Rules.{
  Rule, Storage, local_then_remote_backup, remote_backup, remote_mount, rule_type_name,
  storage_type_name, storage_usage_name, sorted_storages, sorted_rules,
}

-- What the file says of a path below another one.
unfoldable pub relative_path_if_possible : Bytes → Bytes → Bytes
unfolding common_prefix subpath depth equal
relative_path_if_possible path curr = elim (common_prefix path curr) [
  | none ↦ curr
  | some common ↦ if equal common path then subpath (depth path) curr else curr
]

abbrev entry : Bytes → Bytes → Bytes
entry key value = key ++ (codes " = " ++ (value ++ codes "\n"))

unfoldable pub storage_text : Storage → Option Bytes
unfolding storage_type_name storage_usage_name keep_text
storage_text s = s.storage_location >>= λ location. some (
    entry (codes "remote") location
    ++ (entry (codes "remote_type") (storage_type_name s.type)
        ++ (entry (codes "remote_usage") (storage_usage_name s.usage)
            ++ entry (codes "remote_keep") (keep_text s.keep))))

unfoldable pub storages_text : List Storage → Option Bytes
unfolding storage_text
storages_text [] = some []
storages_text (s ∷ ss) = do text ← storage_text s; more ← storages_text ss; some (text ++ more)

unfoldable pub local_text : Bytes → Rule → Option Bytes
unfolding relative_path_if_possible keep_text
local_text origin r = elim r.type [
  | local_then_remote_backup ↦ r.local.storage_location >>= λ location. some (
      entry (codes "local") (relative_path_if_possible origin location)
      ++ entry (codes "local_keep") (keep_text r.local.keep))
  | remote_backup ↦ some []
  | remote_mount ↦ some []
]

unfoldable pub rule_text : Rule → Option Bytes
unfolding rule_type_name relative_path_if_possible human_readable local_text storages_text
    sorted_storages
rule_text r = do
  origin ← r.origin_path
  cache ← r.cache_path
  local ← local_text origin r
  storages ← storages_text (sorted_storages r)
  some (
      codes "["
      ++ (r.name
          ++ (codes "]\n"
              ++ (entry (codes "origin") origin
                  ++ (entry (codes "type") (rule_type_name r.type)
                      ++ (entry (codes "cache") (relative_path_if_possible origin cache)
                          ++ (entry (codes "cache_size") (human_readable r.cache_size)
                              ++ (local ++ storages))))))))

unfoldable pub rules_text : List Rule → Option Bytes
unfolding rule_text
rules_text [] = some []
rules_text (r ∷ rs) = do text ← rule_text r; more ← rules_text rs; some (text ++ more)

-- The text that save writes into the file, before it loads it.
unfoldable pub save_text : Table Rule → Option Bytes
unfolding rules_text sorted_rules
save_text rules = rules_text (sorted_rules rules)
