-- ===== src/Config/WellNamed.antt =====
-- src/configuration.cc: what the rules that are loaded from a configuration file are like.
mod Rows
use beak.Prelude.{
  ℕ, zero, suc, ◌≡◌, refl, sym, ◌∙◌, Bool, true, false, not, ◌||◌, Option, none, some, [], ◌∷◌, inl,
  inr, subst, if◌then◌else◌, ◌>>=◌, ◌>>◌, guard, some_inj, Bytes, All, equal, equal_iff, Bool-cases,
  ◌==◌, length, at, take, drop, ◌-◌, ◌*◌,
}
use beak.Text.Eating.{Eaten, eat_to, eat_whitespace, trim_whitespace, is_end}
use beak.Config.Tables.{Table, find, set}
use beak.Config.Rules.{
  Rule, Storage, new_rule, generate_default_settings, rule_type_of, storage_type_of,
  storage_usage_of, real_path, is_no_such, find_rule_from_storage_location,
}
use beak.Config.Sizes.{parse_human_readable}
use beak.Config.Keeps.{parse_keep}
use beak.FileSystem.Paths.{lookup}
use beak.Config.File.{
  Loading, rule_keyword, storage_keyword, continued, is_header, RuleKeyWord, origin_key, type_key,
  cache_key, cache_size_key, local_key, local_keep_key, StorageKeyWord, remote_key, remote_type_key,
  remote_usage_key, remote_keep_key, rule_row, storage_row, with_rule, with_storage, add_remote,
  parse_row, key_value, start_rule, load_loop, load,
}
use beak.Config.Every.{All-set, All-find, bind-All, guard-All, either-All, some-All}
pub use Rows.{IsLocated, IsNamed, WellNamed}
use Rows.{Fine, start_rule-Fine, parse_row-Fine}

module _ (realpath : Bytes → Option Bytes) (cache_dir backups_dir : Bytes)
    (scaled : ℕ → Bytes → ℕ) where
  abbrev FinePair : Loading × Bool → Type 0
  FinePair r = Fine r.0

  key_value-Fine :
      (line : Bytes) (l : Loading)
      → Fine l
      → (r : Loading × Bool) → key_value realpath cache_dir backups_dir scaled line l ≡ some r
      → FinePair r
  unfolding key_value
  key_value-Fine line l w =
      let k : Eaten = eat_to line (some b'=') (1024 * 1024) in
      let v : Eaten = eat_to k.rest none (1024 * 1024) in
      kept (k.eof || (k.err || v.err)) (trim_whitespace k.text) (trim_whitespace v.text)
    where
      kept :
          (b : Bool) (key value : Bytes) (r : Loading × Bool)
          → (if b
              then some (l, false)
              else (parse_row realpath cache_dir backups_dir scaled key value l >>= λ next.
                  some (next, true)))
            ≡ some r
          → FinePair r
      kept true key value = some-All FinePair (l, false) w
      kept false key value =
          bind-All FinePair (parse_row realpath cache_dir backups_dir scaled key value l) _
            (λ next e.
              some-All FinePair (next, true)
                (parse_row-Fine realpath cache_dir backups_dir scaled key value l w next e))

  load_loop-Fine :
      (fuel : ℕ) (buf : Bytes) (l : Loading)
      → Fine l
      → (m : Loading) → load_loop realpath cache_dir backups_dir scaled fuel buf l ≡ some m
      → Fine m
  unfolding load_loop
  load_loop-Fine zero buf l w = some-All Fine l w
  load_loop-Fine (suc fuel) buf l w =
      let i : Bytes = eat_whitespace buf in
      let e : Eaten = eat_to i (some b'\n') (1024 * 1024) in
      let block : Bytes = trim_whitespace e.text in
      let c : (Bytes × Bytes) × (Bool × Bool) =
        continued (suc (length e.rest)) block e.rest e.eof in
      either-All Fine (is_end i || e.err) _ _ (some-All Fine l w) (
        either-All Fine (length block == 0 || at block 0 == b'#') _ _
          (load_loop-Fine fuel e.rest l w)
          (either-All Fine (is_header block) _ _
            (bind-All Fine (start_rule block l) _
              (λ next s. load_loop-Fine fuel e.rest next (start_rule-Fine block l w next s)))
            (either-All Fine c.1.1 _ _ (some-All Fine l w) (
              bind-All Fine (key_value realpath cache_dir backups_dir scaled c.0.0 l) _ (λ r s.
                let fine = key_value-Fine c.0.0 l w r s in
                either-All Fine r.1 _ _ (load_loop-Fine fuel c.0.1 r.0 fine)
                  (some-All Fine r.0 fine))))))

  -- Whatever a configuration file holds, and whatever the operating system says of paths, if it is
  -- loaded, then every rule stands under its own name, and every remote storage of a rule
  -- under its own location, so that the lookups by name and by location give what they ask for.
  pub load-WellNamed :
      (buf : Bytes) (rules : Table Rule)
      → load realpath cache_dir backups_dir scaled buf ≡ some rules
      → WellNamed rules
  unfolding load
  load-WellNamed buf =
      bind-All WellNamed
        (load_loop realpath cache_dir backups_dir scaled (suc (length buf)) buf
          (record { rules = []; current_rule = none; current_storage = none }))
        _ (λ l e. some-All WellNamed l.rules (load_loop-Fine (suc (length buf)) buf _ tt l e))
