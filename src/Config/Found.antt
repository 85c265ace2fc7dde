-- ===== src/Config/Found.antt =====
-- src/configuration.cc: where the storages are that findStorageFrom finds.
use beak.Prelude.{
  ◌≡◌, ◌⊎◌, refl, sym, Bool, true, false, Option, none, some, List, [], ◌∷◌, inl, inr,
  if◌then◌else◌, Bytes, All, map, Bool-cases, some_inj, subst,
}
use beak.Config.Tables.{Table, find, insert, sorted, less}
use beak.Config.Rules.{
  Rule, Storage, filesystem_storage, rclone_storage, rsync_storage, aftmtp_storage, gphoto2_storage,
  rule_at, stores_at, sorted_storages, sorted_rules, find_rule_from_storage_location,
}
use beak.Config.Every.{All-find, some-All}
use beak.Config.WellNamed.{WellNamed, IsLocated}
use beak.Config.Find.{
  find_storage_from, find_directory, is_filesystem_storage, is_some, rclone_type, is_rsync_storage,
  is_aftmtp_storage, is_gphoto2_storage,
}

All-insert {ℓ} :
    {V : Type ℓ} (P : V → Type 0) (text : V → Bytes) (v : V) (ws : List V)
    → P v
    → All P ws
    → All P (insert text v ws)
unfolding insert
All-insert P text v [] p a = (p, tt)
All-insert P text v (w ∷ ws) p (q, a) = elim (Bool-cases (less (text w) (text v))) [
  | inl e ↦ rw e (q, All-insert P text v ws p a)
  | inr e ↦ rw e (p, (q, a))
]

All-sorted {ℓ} :
    {V : Type ℓ} (P : V → Type 0) (text : V → Bytes) (vs : List V)
    → All P vs
    → All P (sorted text vs)
unfolding sorted
All-sorted P text [] a = tt
All-sorted P text (v ∷ vs) (p, a) = All-insert P text v (sorted text vs) p (All-sorted P text vs a)

-- The storages of a rule stand under their locations.
abbrev LocatedRule : Rule → Type 0
LocatedRule r = All IsLocated r.storages

All-rules :
    (rules : Table Rule) → WellNamed rules → All LocatedRule (map (λ (e : Bytes × Rule). e.1) rules)
All-rules [] w = tt
All-rules (e ∷ rules) ((named, located), w) = (located, All-rules rules w)

sorted_rules-Located : (rules : Table Rule) → WellNamed rules → All LocatedRule (sorted_rules rules)
unfolding sorted_rules
sorted_rules-Located rules w = All-sorted LocatedRule (λ (r : Rule). r.name) _ (All-rules rules w)

rule_at-Located :
    (location : Bytes) (rs : List Rule) (r : Rule)
    → All LocatedRule rs
    → rule_at location rs ≡ some r
    → LocatedRule r
unfolding rule_at
rule_at-Located location [] r a h = absurd (cc)
rule_at-Located location (q ∷ rs) r (p, a) h =
    elim (Bool-cases (stores_at location (sorted_storages q))) [
      | inl e ↦ subst LocatedRule (some_inj (rw e at h)) p
      | inr e ↦ rule_at-Located location rs r a (rw e at h)
    ]

if-All {κ} :
    {B : Type κ} (P : B → Type 0) (c : Bool) (x y : Option B)
    → ((b : B) → x ≡ some b → P b)
    → ((b : B) → y ≡ some b → P b)
    → (b : B) → (if c then x else y) ≡ some b
    → P b
if-All P true x y h k = h
if-All P false x y h k = k

none-All {κ} : {B : Type κ} (P : B → Type 0) (b : B) → none ≡ some b → P b
none-All P b e = absurd (cc)

module _ (realpath : Bytes → Option Bytes) (is_directory : Bytes → Bool)
    (readdir : Bytes → Option (List Bytes)) (listing : Option Bytes) (importing : Bool)
    (rules : Table Rule) (a_storage : Storage) (location : Bytes) where
  -- At the location that was asked for, or at what it resolves to.
  abbrev pub IsThere : Storage → Type 0
  IsThere s = (s.storage_location ≡ some location) ⊎ (s.storage_location ≡ realpath location)

  place-IsThere :
      (o : Option Bytes)
      → realpath location ≡ o
      → IsThere (record a_storage {
        type = filesystem_storage;
        storage_location = some (elim o [ none ↦ location | some rp ↦ rp ]);
      })
  place-IsThere none e = inl refl
  place-IsThere (some rp) e = inr (sym e)

  directory-IsThere :
      (s : Storage)
      → find_directory realpath is_directory readdir listing importing a_storage location ≡ some s
      → IsThere s
  unfolding find_directory
  directory-IsThere =
      if-All IsThere
        (is_filesystem_storage realpath is_directory readdir listing importing
          (elim (realpath location) [ none ↦ location | some rp ↦ rp ]))
        _ none (some-All IsThere _ (place-IsThere (realpath location) refl)) (none-All IsThere)

  abbrev unknown : Option Storage
  unknown =
      if is_some (rclone_type listing location)
      then some (record a_storage { type = rclone_storage; storage_location = some location })
      else if is_rsync_storage location
      then some (record a_storage { type = rsync_storage; storage_location = some location })
      else if is_aftmtp_storage location
      then some (record a_storage { type = aftmtp_storage; storage_location = some location })
      else if is_gphoto2_storage location
      then some (record a_storage { type = gphoto2_storage; storage_location = some location })
      else find_directory realpath is_directory readdir listing importing a_storage location

  unknown-IsThere : (s : Storage) → unknown ≡ some s → IsThere s
  unknown-IsThere =
      if-All IsThere (is_some (rclone_type listing location)) _ _ (some-All IsThere _ (inl refl)) (
        if-All IsThere (is_rsync_storage location) _ _ (some-All IsThere _ (inl refl)) (
          if-All IsThere (is_aftmtp_storage location) _ _ (some-All IsThere _ (inl refl)) (
            if-All IsThere (is_gphoto2_storage location) _ _ (some-All IsThere _ (inl refl))
              directory-IsThere)))

  of_rule :
      (o : Option Rule)
      → ((r : Rule) → o ≡ some r → LocatedRule r)
      → (s : Storage) → (elim o [ some r ↦ find location r.storages | none ↦ unknown ]) ≡ some s
      → IsThere s
  of_rule (some r) h = λ s e. inl (All-find IsLocated location s r.storages (h r refl) e)
  of_rule none h = unknown-IsThere

  -- With rules as the configuration file gives them, and whatever the operating system and rclone
  -- answer, the storage that findStorageFrom finds is at the location that was asked for, or
  -- at the path that it resolves to.
  pub find_storage_from-IsThere :
      WellNamed rules
      → (s : Storage)
      → find_storage_from realpath is_directory readdir listing importing rules a_storage location
        ≡ some s
      → IsThere s
  unfolding find_storage_from find_rule_from_storage_location
  find_storage_from-IsThere w =
      of_rule (find_rule_from_storage_location realpath rules location)
        (λ r e. rule_at-Located _ (sorted_rules rules) r (sorted_rules-Located rules w) e)
