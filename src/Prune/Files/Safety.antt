-- ===== src/Prune/Files/Safety.antt =====
-- src/beak_prune.cc: pruning deletes no file that a kept point in time needs.
use beak.Prelude.{
  ℕ, ◌≡◌, refl, Bool, true, false, not, ◌&&◌, ◌||◌, some, List, [], ◌∷◌, ◌++◌, arith, ◌==◌,
  if◌then◌else◌, inl, inr, Bool-cases, ◌∙◌, ◌↔◌,
}
use beak.Prelude.Maps.{Map, get}
use beak.Prune.{Keep, contains}
use beak.Prune.History.{Ascends, last_point}
use beak.Prune.Decision.{IsKept, Decided, prune-Decided}
use beak.Prune.Files.{
  PointInTime, BackupFile, Consent, is_kept, points, required_beak_files, beak_files_to_delete,
  total_size_removed, prune_storage,
}

contains-append :
    (xs ys : List ℕ) (q : ℕ) → contains (xs ++ ys) q ≡ (contains xs q || contains ys q)
unfolding contains
contains-append [] ys q = refl
contains-append (x ∷ xs) ys q = ground (arith, contains-append xs ys q)

-- A file of a point in time: its index file or one of its tar files.
abbrev pub needs : PointInTime → ℕ → Bool
needs i q = contains i.tarfiles q || i.gz_index_file == q

-- A point of a history.
pub data Among (i : PointInTime) : List PointInTime → Type 0 where
  first : (history : List PointInTime) → Among i (i ∷ history)
  later : (j : PointInTime) {history : List PointInTime} → Among i history → Among i (j ∷ history)

required_of_kept :
    (keeps : Map Bool) (i : PointInTime) {history : List PointInTime} (q : ℕ)
    → Among i history
    → is_kept keeps i.point ≡ true
    → needs i q ≡ true
    → contains (required_beak_files keeps history) q ≡ true
unfolding required_beak_files contains
required_of_kept keeps i q (first history) k n = rw k (
    contains-append i.tarfiles (i.gz_index_file ∷ required_beak_files keeps history) q
    ∙ ground arith)
required_of_kept keeps i q (later j {history} m) k n =
    let rest = required_of_kept keeps i q m k n in
    ground (
      arith,
      rest,
      contains-append j.tarfiles (j.gz_index_file ∷ required_beak_files keeps history) q,
    )

not_deleted :
    (required : List ℕ) (files : List BackupFile) (q : ℕ)
    → contains required q ≡ true
    → contains (beak_files_to_delete required files) q ≡ false
unfolding beak_files_to_delete contains
not_deleted required [] q h = refl
not_deleted required (f ∷ files) q h = elim (Bool-cases (f.path == q)) [
  | inl same ↦
      let e : f.path ≡ q = ground arith in
      let kept : contains required f.path ≡ true = rw e h in
      rw kept (not_deleted required files q h)
  | inr other ↦ ground (arith, not_deleted required files q h)
]

is_kept_iff : (keeps : Map Bool) (p : ℕ) → (is_kept keeps p ≡ true) ↔ (get p keeps ≡ some true)
unfolding is_kept
is_kept_iff keeps p = ground arith

contains-points :
    (i : PointInTime) {history : List PointInTime}
    → Among i history
    → contains (points history) i.point ≡ true
unfolding contains points
contains-points i (first history) = ground arith
contains-points i (later j m) = ground (arith, contains-points i m)

kept_of_Decided :
    (now : ℕ) (keep : Keep) (latest : ℕ) (ps : List ℕ) (q : ℕ) (r : Map Bool)
    → Decided now keep latest ps q r
    → contains ps q ≡ true
    → IsKept now keep latest ps q
    → get q r ≡ some true
kept_of_Decided now keep latest ps q r (inl (c, _)) h k = cc
kept_of_Decided now keep latest ps q r (inr (inl (_, e, _))) h k = e
kept_of_Decided now keep latest ps q r (inr (inr (_, _, n))) h k = absurd (n k)

-- Pruning a history of one point at least, from the oldest to the newest and with none in the
-- future, ends with an answer, and deletes no tar file and no index file of a point in time that
-- the keep rule keeps.
pub prune_storage_safe :
    (now : ℕ) (keep : Keep) (oldest : PointInTime) (newer : List PointInTime)
    (existing : List BackupFile) (consent : Consent) (i : PointInTime) (q : ℕ)
    → Ascends 0 now (points (oldest ∷ newer))
    → Among i (oldest ∷ newer)
    → IsKept now keep (last_point oldest.point (points newer)) (points (oldest ∷ newer)) i.point
    → needs i q ≡ true
    → (deleted : List ℕ) × (prune_storage now keep (oldest ∷ newer) existing consent ≡ some deleted)
      × (contains deleted q ≡ false)
unfolding prune_storage points contains
prune_storage_safe now keep oldest newer existing consent i q a m k n =
    let history = oldest ∷ newer in
    let (s, keeps, added, pruned, decided) = prune-Decided now keep oldest.point (points newer) a in
    let yes_kept : get i.point keeps ≡ some true =
      kept_of_Decided now keep _ (points history) i.point keeps (decided i.point)
        (contains-points i m) k in
    let required = required_beak_files keeps history in
    let need : contains required q ≡ true =
      required_of_kept keeps i q m ((is_kept_iff keeps i.point).1 yes_kept) n in
    let removed = total_size_removed required existing 0 in
    let go = not consent.dryrun && consent.proceed in
    let unneeded = beak_files_to_delete required existing in
    (
      if removed == 0 then [] else if go then unneeded else [],
      rw (added, pruned) refl,
      ground (arith, not_deleted required existing q need),
    )
