-- ===== src/Config/Rules.antt =====
-- src/configuration.cc and src/configuration.h: the rules, and the rows of the configuration file.
-- A null pointer is `none`, and so is the result where the code ends with error(...) or follows a
-- null pointer. What the operating system says of paths is a parameter.
use beak.Prelude.{
  ℕ, ◌+◌, ◌*◌, Bool, true, false, not, ◌&&◌, Option, none, some, List, [], ◌∷◌, ltb, ◌==◌,
  if◌then◌else◌, ◌>>=◌, Bytes, codes, length, at, has_char, equal, map,
}
use beak.FileSystem.Paths.{lookup, append, drop_back}
use beak.Prune.{Keep}
use beak.Config.Keeps.{no_keep}
use beak.Config.Tables.{Table, find, sorted}

pub data RuleType : Type 0 where
  local_then_remote_backup remote_backup remote_mount : RuleType

pub data StorageType : Type 0 where
  no_such_storage filesystem_storage rclone_storage rsync_storage aftmtp_storage gphoto2_storage :
      StorageType

pub data StorageUsage : Type 0 where
  always round_robin if_available when_requested : StorageUsage

pub record Storage : Type 0 where
  pub type : StorageType
  pub usage : StorageUsage
  pub storage_location : Option Bytes
  pub keep : Keep

pub record Rule : Type 0 where
  pub name : Bytes
  pub type : RuleType
  pub origin_path : Option Bytes
  pub cache_path : Option Bytes
  pub cache_size : ℕ
  pub local : Storage
  pub storages : Table Storage

abbrev pub new_storage : Storage
new_storage = record {
  type = no_such_storage;
  usage = always;
  storage_location = none;
  keep = no_keep;
}

abbrev pub new_rule : Bytes → Rule
new_rule name = record {
  name = name;
  type = local_then_remote_backup;
  origin_path = none;
  cache_path = none;
  cache_size = 0;
  local = new_storage;
  storages = [];
}

-- The tables of names.
unfoldable pub rule_type_name : RuleType → Bytes
rule_type_name local_then_remote_backup = codes "LocalThenRemoteBackup"
rule_type_name remote_backup = codes "RemoteBackup"
rule_type_name remote_mount = codes "RemoteMount"

unfoldable pub storage_type_name : StorageType → Bytes
storage_type_name no_such_storage = codes "NoSuchStorage"
storage_type_name filesystem_storage = codes "FileSystemStorage"
storage_type_name rclone_storage = codes "RCloneStorage"
storage_type_name rsync_storage = codes "RSyncStorage"
storage_type_name aftmtp_storage = codes "AftMtpStorage"
storage_type_name gphoto2_storage = codes "GPhoto2Storage"

unfoldable pub storage_usage_name : StorageUsage → Bytes
storage_usage_name always = codes "Always"
storage_usage_name round_robin = codes "RoundRobin"
storage_usage_name if_available = codes "IfAvailable"
storage_usage_name when_requested = codes "WhenRequested"

-- lookupKeyword.
unfoldable pub lookup_keyword {ℓ} : {A : Type ℓ} → (A → Bytes) → Bytes → List A → Option A
unfolding equal
lookup_keyword name key [] = none
lookup_keyword name key (a ∷ more) =
    let rest = lookup_keyword name key more in if equal key (name a) then some a else rest

unfoldable pub rule_type_of : Bytes → Option RuleType
unfolding lookup_keyword rule_type_name
rule_type_of s =
    lookup_keyword rule_type_name s (local_then_remote_backup ∷ remote_backup ∷ remote_mount ∷ [])

unfoldable pub storage_type_of : Bytes → Option StorageType
unfolding lookup_keyword storage_type_name
storage_type_of s = lookup_keyword storage_type_name s (
    no_such_storage ∷ filesystem_storage ∷ rclone_storage ∷ rsync_storage ∷ aftmtp_storage
    ∷ gphoto2_storage ∷ [])

unfoldable pub storage_usage_of : Bytes → Option StorageUsage
unfolding lookup_keyword storage_usage_name
storage_usage_of s =
    lookup_keyword storage_usage_name s (always ∷ round_robin ∷ if_available ∷ when_requested ∷ [])

unfoldable pub is_no_such : StorageType → Bool
is_no_such no_such_storage = true
is_no_such other = false

unfoldable pub real_path : Option Bytes → Bytes → Option Bytes
unfolding lookup append at
real_path path more =
    if at more 0 == b'/' then some (lookup more) else (path >>= λ p. some (append p more))

-- The storages that are not the root, by their locations. They all have one.
unfoldable pub location_text : Storage → Bytes
location_text s = elim s.storage_location [ none ↦ [] | some l ↦ l ]

unfoldable pub keep_located : Table Storage → List Storage
unfolding location_text
keep_located [] = []
keep_located ((k, s) ∷ m) =
    let rest = keep_located m in if length (location_text s) == 0 then rest else s ∷ rest

unfoldable pub sorted_storages : Rule → List Storage
unfolding sorted keep_located location_text
sorted_storages r = sorted location_text (keep_located r.storages)

unfoldable pub sorted_rules : Table Rule → List Rule
unfolding sorted
sorted_rules rules = sorted (λ (r : Rule). r.name) (map (λ (e : Bytes × Rule). e.1) rules)

unfoldable pub stores_at : Bytes → List Storage → Bool
unfolding location_text equal
stores_at location [] = false
stores_at location (s ∷ ss) =
    let rest = stores_at location ss in if equal (location_text s) location then true else rest

unfoldable pub rule_at : Bytes → List Rule → Option Rule
unfolding stores_at sorted_storages
rule_at location [] = none
rule_at location (r ∷ rs) =
    let rest = rule_at location rs in
    if stores_at location (sorted_storages r) then some r else rest

-- The name may end in a colon.
unfoldable pub rule : Table Rule → Bytes → Option Rule
unfolding find drop_back
rule rules name = find (drop_back b':' name) rules

unfoldable pub ok_rule_name : Table Rule → Bytes → Bool
unfolding find has_char
ok_rule_name rules name = elim (find name rules) [
  | some r ↦ false
  | none ↦
      not (length name == 0)
      && (not (ltb 20 (length name))
          && (not (has_char name b':') && (not (has_char name b'/') && not (has_char name b' '))))
]

-- The keep rule of the constructor of Storage: what parse leaves of the default text.
abbrev pub default_local_keep : Keep
default_local_keep = record no_keep { all = 3600 * 24 * 2; daily = 3600 * 24 * 14 }

unfoldable pub find_rule_from_storage_location :
    (Bytes → Option Bytes) → Table Rule → Bytes → Option Rule
unfolding rule_at sorted_rules
find_rule_from_storage_location realpath rules location =
    rule_at (elim (realpath location) [ none ↦ location | some p ↦ p ]) (sorted_rules rules)

unfoldable pub generate_default_settings : Bytes → Bytes → Rule → Rule
unfolding append
generate_default_settings cache_dir backups_dir r = record r {
  cache_path = some (append cache_dir r.name);
  cache_size = 10 + 1024 * 1024 * 1024;
  local = record {
    type = filesystem_storage;
    usage = always;
    storage_location = some (append backups_dir r.name);
    keep = default_local_keep;
  };
}
