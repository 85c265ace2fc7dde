-- ===== src/Config/WellNamed/Rows.antt =====
-- src/configuration.cc: what a row of a configuration file leaves of the rules.
use beak.Prelude.{
  ℕ, ◌≡◌, refl, ◌∙◌, not, Option, none, some, ◌>>=◌, Bytes, All, ◌==◌, length, take, drop, ◌-◌,
}
use beak.Text.Eating.{trim_whitespace}
use beak.Config.Tables.{Table, find, set}
use beak.Config.Rules.{
  Rule, Storage, new_rule, generate_default_settings, rule_type_of, storage_type_of,
  storage_usage_of, real_path, is_no_such, find_rule_from_storage_location,
}
use beak.Config.Sizes.{parse_human_readable}
use beak.Config.Keeps.{parse_keep}
use beak.FileSystem.Paths.{lookup}
use beak.Config.File.{
  Loading, rule_keyword, storage_keyword, RuleKeyWord, origin_key, type_key, cache_key,
  cache_size_key, local_key, local_keep_key, StorageKeyWord, remote_key, remote_type_key,
  remote_usage_key, remote_keep_key, rule_row, storage_row, with_rule, with_storage, add_remote,
  parse_row, start_rule,
}
use beak.Config.Every.{All-set, All-find, bind-All, guard-All, some-All}

-- A storage stands under its location, and a rule under its name.
abbrev pub IsLocated : Bytes × Storage → Type 0
IsLocated (k, s) = s.storage_location ≡ some k

abbrev pub IsNamed : Bytes × Rule → Type 0
IsNamed (k, r) = (r.name ≡ k) × All IsLocated r.storages

abbrev pub WellNamed : Table Rule → Type 0
WellNamed rules = All IsNamed rules

-- A row that changes a rule keeps its name and its storages.
abbrev Keeps : Rule → Rule → Type 0
Keeps r changed = (changed.name ≡ r.name) × (changed.storages ≡ r.storages)

-- A row that changes a storage keeps its location.
abbrev Stays : Storage → Storage → Type 0
Stays s changed = changed.storage_location ≡ s.storage_location

-- The rules of a state are well named.
abbrev pub Fine : Loading → Type 0
Fine l = WellNamed l.rules

with_rule-Fine :
    (l : Loading) (f : Rule → Option Rule)
    → ((r changed : Rule) → f r ≡ some changed → Keeps r changed)
    → Fine l
    → (m : Loading) → with_rule l f ≡ some m
    → Fine m
unfolding with_rule
with_rule-Fine l f keeps w = bind-All Fine l.current_rule _ (λ name current.
    bind-All Fine (find name l.rules) _ (λ r found. bind-All Fine (f r) _ (λ changed made.
      let (named, located) = All-find IsNamed name r l.rules w found in
      let (same, storages) = keeps r changed made in
      some-All Fine (record l { rules = set name changed l.rules })
        (All-set IsNamed name changed l.rules w (same ∙ named, rw storages located)))))

with_storage-Fine :
    (l : Loading) (f : Storage → Option Storage)
    → ((s changed : Storage) → f s ≡ some changed → Stays s changed)
    → Fine l
    → (m : Loading) → with_storage l f ≡ some m
    → Fine m
unfolding with_storage
with_storage-Fine l f keeps w = bind-All Fine l.current_storage _ (λ place current.
    bind-All Fine (find place.0 l.rules) _ (λ r found.
      bind-All Fine (find place.1 r.storages) _ (λ s there. bind-All Fine (f s) _ (λ changed made.
        let (named, located) = All-find IsNamed place.0 r l.rules w found in
        let at_place = All-find IsLocated place.1 s r.storages located there in
        let storages = set place.1 changed r.storages in
        some-All Fine (record l { rules = set place.0 (record r { storages = storages }) l.rules })
          (All-set IsNamed place.0 (record r { storages = storages }) l.rules w
            (
              named,
              All-set IsLocated place.1 changed r.storages located
                  (keeps s changed made ∙ at_place),
            ))))))

add_remote-Fine :
    (l : Loading) (location : Bytes)
    → Fine l
    → (m : Loading) → add_remote l location ≡ some m
    → Fine m
unfolding add_remote
add_remote-Fine l location w = bind-All Fine l.current_rule _ (λ name current.
    bind-All Fine (find name l.rules) _ (λ r found.
      let (named, located) = All-find IsNamed name r l.rules w found in
      some-All Fine _ (
        All-set IsNamed name _ l.rules w
          (named, All-set IsLocated location _ r.storages located refl))))

pub start_rule-Fine :
    (block : Bytes) (l : Loading) → Fine l → (m : Loading) → start_rule block l ≡ some m → Fine m
unfolding start_rule
start_rule-Fine block l w =
    let name : Bytes = trim_whitespace (take (length block - 2) (drop 1 block)) in
    started name (find name l.rules) l w
  where
    started :
        (name : Bytes) (o : Option Rule) (l : Loading)
        → Fine l
        → (m : Loading)
        → (elim o [
          | some r ↦ none
          | none ↦
              some (record l { rules = set name (new_rule name) l.rules; current_rule = some name })
        ])
          ≡ some m
        → Fine m
    started name (some r) l w = λ m e. absurd (cc)
    started name none l w =
        some-All Fine _ (All-set IsNamed name (new_rule name) l.rules w (refl, tt))

module _ (realpath : Bytes → Option Bytes) (cache_dir backups_dir : Bytes)
    (scaled : ℕ → Bytes → ℕ) where
  rule_row-Keeps :
      (key : RuleKeyWord) (value : Bytes) (r changed : Rule)
      → rule_row realpath cache_dir backups_dir scaled key value r ≡ some changed
      → Keeps r changed
  unfolding rule_row generate_default_settings
  rule_row-Keeps origin_key value r = some-All (Keeps r) _ (refl, refl)
  rule_row-Keeps type_key value r =
      bind-All (Keeps r) (rule_type_of value) _ (λ t e. some-All (Keeps r) _ (refl, refl))
  rule_row-Keeps cache_key value r =
      bind-All (Keeps r) (real_path r.origin_path value) _
        (λ p e. some-All (Keeps r) _ (refl, refl))
  rule_row-Keeps cache_size_key value r =
      bind-All (Keeps r) (parse_human_readable scaled value) _
        (λ n e. some-All (Keeps r) _ (refl, refl))
  rule_row-Keeps local_key value r =
      bind-All (Keeps r) (real_path r.origin_path value) _
        (λ p e. some-All (Keeps r) _ (refl, refl))
  rule_row-Keeps local_keep_key value r =
      guard-All (Keeps r) (not (is_no_such r.local.type)) _
        (bind-All (Keeps r) (parse_keep value) _ (λ k e. some-All (Keeps r) _ (refl, refl)))

  remote-Fine :
      (o : Option Rule) (l : Loading) (location : Bytes)
      → Fine l
      → (m : Loading) → (elim o [ some r ↦ none | none ↦ add_remote l location ]) ≡ some m
      → Fine m
  remote-Fine (some r) l location w = λ m e. absurd (cc)
  remote-Fine none l location w = add_remote-Fine l location w

  storage_row-Fine :
      (key : StorageKeyWord) (value : Bytes) (l : Loading)
      → Fine l
      → (m : Loading) → storage_row realpath cache_dir backups_dir scaled key value l ≡ some m
      → Fine m
  unfolding storage_row
  storage_row-Fine remote_key value l w = guard-All Fine (not (length value == 0)) _ (
      remote-Fine (find_rule_from_storage_location realpath l.rules (lookup value)) l (lookup value)
        w)
  storage_row-Fine remote_type_key value l w =
      with_storage-Fine l _
        (λ s. bind-All (Stays s) (storage_type_of value) _ (λ t e. some-All (Stays s) _ refl)) w
  storage_row-Fine remote_usage_key value l w =
      with_storage-Fine l _
        (λ s. bind-All (Stays s) (storage_usage_of value) _ (λ t e. some-All (Stays s) _ refl)) w
  storage_row-Fine remote_keep_key value l w =
      with_storage-Fine l _
        (λ s. bind-All (Stays s) (parse_keep value) _ (λ t e. some-All (Stays s) _ refl)) w

  storage-Fine :
      (value : Bytes) (l : Loading) (o : Option StorageKeyWord)
      → Fine l
      → (m : Loading)
      → (o >>= λ k. storage_row realpath cache_dir backups_dir scaled k value l) ≡ some m
      → Fine m
  storage-Fine value l o w = bind-All Fine o _ (λ k e. storage_row-Fine k value l w)

  row-Fine :
      (key value : Bytes) (l : Loading) (o : Option RuleKeyWord)
      → Fine l
      → (m : Loading)
      → (elim o [
        | some k ↦ with_rule l (rule_row realpath cache_dir backups_dir scaled k value)
        | none ↦
            storage_keyword key >>= λ k. storage_row realpath cache_dir backups_dir scaled k value l
      ])
        ≡ some m
      → Fine m
  row-Fine key value l (some k) w =
      with_rule-Fine l (rule_row realpath cache_dir backups_dir scaled k value)
        (rule_row-Keeps k value) w
  row-Fine key value l none w = storage-Fine value l (storage_keyword key) w

  pub parse_row-Fine :
      (key value : Bytes) (l : Loading)
      → Fine l
      → (m : Loading) → parse_row realpath cache_dir backups_dir scaled key value l ≡ some m
      → Fine m
  unfolding parse_row
  parse_row-Fine key value l w =
      bind-All Fine l.current_rule _ (λ name e. row-Fine key value l (rule_keyword key) w)
