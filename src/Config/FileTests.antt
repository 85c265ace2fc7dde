-- ===== src/Config/FileTests.antt =====
-- Runs of the configuration file's functions, and their theorems at concrete inputs.
use beak.Prelude.{
  ℕ, ◌*◌, ◌≡◌, refl, Option, none, some, [], ◌∷◌, ◌++◌, false, Bytes, codes, equal, at,
}
use beak.Prelude.Decimal.{to_decimal}
use beak.Config.Keeps.{parse_keep}
use beak.Config.Rules.{
  Storage, Rule, rclone_storage, filesystem_storage, round_robin, always, remote_backup,
  ok_rule_name, default_local_keep, rule, new_rule, new_storage,
}
use beak.Config.File.{load}
use beak.Config.Saving.{save_text}
use beak.Config.WellNamed.{WellNamed, load-WellNamed}
use beak.Config.Find.{find_storage_from}
use beak.Config.Found.{IsThere, find_storage_from-IsThere}

-- No path is resolved, and fractions are nothing.
abbrev no_path : Bytes → Option Bytes
no_path p = none

abbrev no_fraction : ℕ → Bytes → ℕ
no_fraction mul s = 0

abbrev conf : Bytes
conf =
    codes "# backups of work\n[work]\norigin = /home/me\ntype = RemoteBackup\n"
    ++ codes "cache = c\ncache_size = 10 GiB\nremote = s3_crypt:\nremote_type = RCloneStorage\n"
    ++ codes "remote_usage = RoundRobin\nremote_keep = all:2d daily:2w\n"

abbrev remote : Storage
remote = record {
  type = rclone_storage;
  usage = round_robin;
  storage_location = some (codes "s3_crypt:");
  keep = default_local_keep;
}

abbrev work : Rule
work = record {
  name = codes "work";
  type = remote_backup;
  origin_path = some (codes "/home/me");
  cache_path = some (codes "/home/me/c");
  cache_size = 10 * 1024 * 1024 * 1024;
  local = record {
    type = filesystem_storage;
    usage = always;
    storage_location = some (codes "/b/work");
    keep = default_local_keep;
  };
  storages = (codes "s3_crypt:", remote) ∷ [];
}

load_run :
    load no_path (codes "/c") (codes "/b") no_fraction conf ≡ some ((codes "work", work) ∷ [])
unfolding load
load_run = refl

load-WellNamed_example : WellNamed ((codes "work", work) ∷ [])
load-WellNamed_example =
    load-WellNamed no_path (codes "/c") (codes "/b") no_fraction conf ((codes "work", work) ∷ [])
      load_run

-- The default of the constructor.
default_run : parse_keep (codes "all:2d daily:2w") ≡ some default_local_keep
unfolding parse_keep equal at
default_run = refl

-- The cache is written below the origin.
save_run :
    save_text ((codes "work", work) ∷ [])
    ≡ some (
        codes "[work]\norigin = /home/me\ntype = RemoteBackup\n"
        ++ codes "cache = c\ncache_size = 10 GiB\nremote = s3_crypt:\nremote_type = RCloneStorage\n"
        ++ codes "remote_usage = RoundRobin\nremote_keep = all:2d daily:2w\n")
unfolding save_text to_decimal
save_run = refl

-- A missing value ends the loading without a word.
silent_run :
    load no_path (codes "/c") (codes "/b") no_fraction (codes "[a]\norigin =\n[b]\n")
    ≡ some ((codes "a", new_rule (codes "a")) ∷ [])
unfolding load
silent_run = refl

name_run : ok_rule_name ((codes "work", work) ∷ []) (codes "work") ≡ false
unfolding ok_rule_name
name_run = refl

colon_run : rule ((codes "work", work) ∷ []) (codes "work:") ≡ some work
unfolding rule
colon_run = refl

work_rules : WellNamed ((codes "work", work) ∷ [])
work_rules = ((refl, (refl, tt)), tt)

found_run :
    find_storage_from no_path
      (λ p. false)
      (λ p. none)
      none
      false
      ((codes "work", work) ∷ [])
      new_storage
      (codes "s3_crypt:")
    ≡ some remote
unfolding find_storage_from
found_run = refl

find_storage_from-IsThere_example :
    IsThere no_path
      (λ p. false)
      (λ p. none)
      none
      false
      ((codes "work", work) ∷ [])
      new_storage
      (codes "s3_crypt:")
      remote
find_storage_from-IsThere_example =
    find_storage_from-IsThere no_path (λ p. false) (λ p. none) none false
      ((codes "work", work) ∷ []) new_storage (codes "s3_crypt:") work_rules remote found_run
