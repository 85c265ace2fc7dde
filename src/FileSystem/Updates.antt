-- ===== src/FileSystem/Updates.antt =====
-- src/filesystem.cc: when checkStat says what.
use beak.Prelude.{
  ◌%◌, ◌<◌, ◌≡◌, ◌≢◌, ◌↔◌, ◌⊎◌, inl, inr, refl, Bool, true, not, ◌&&◌, ◌||◌, some, if◌then◌else◌,
  arith, Bool-cases, ==_iff, subst, sym, ◌∙◌,
}
use beak.FileSystem.{
  UpdateDisk, no_update_identical, update_permissions, other_is_newer, store, FileStat,
  same_permissions, same_size, same_mtime, older_than_mtime, check_stat,
}

-- The content counts as the same: the times are equal, and the sizes unless it is a hard link.
abbrev pub IsUnchanged : FileStat → FileStat → Type 0
IsUnchanged s o =
    ((s.hard_link ≡ true) ⊎ (s.st_size ≡ o.st_size))
    × (s.mtim_sec ≡ o.mtim_sec)
    × (s.mtim_nsec ≡ o.mtim_nsec)

abbrev pub IsOlder : FileStat → FileStat → Type 0
IsOlder s o = (s.mtim_sec < o.mtim_sec) ⊎ ((s.mtim_sec ≡ o.mtim_sec) × (s.mtim_nsec < o.mtim_nsec))

abbrev pub IsPermitted : FileStat → FileStat → Type 0
IsPermitted s o = s.st_mode % 4096 ≡ o.st_mode % 4096

-- What each answer means for a target that exists.
pub data Says (s o : FileStat) : UpdateDisk → Type 0 where
  identical : IsUnchanged s o → IsPermitted s o → Says s o no_update_identical
  permissions : IsUnchanged s o → s.st_mode % 4096 ≢ o.st_mode % 4096 → Says s o update_permissions
  newer : IsOlder s o → Says s o other_is_newer
  changed : ¬ (IsUnchanged s o) → ¬ (IsOlder s o) → Says s o store

unchanged : FileStat → FileStat → Bool
unfolding same_size same_mtime
unchanged s o = (s.hard_link || same_size s o) && same_mtime s o

unchanged_iff : (s o : FileStat) → (unchanged s o ≡ true) ↔ IsUnchanged s o
unfolding unchanged same_size same_mtime
unchanged_iff s o = elim (Bool-cases s.hard_link) [
  | inl h ↦ rw h (λ e. (inl refl, ground arith, ground arith), λ (c, sec, nsec). ground arith)
  | inr h ↦
      rw h (λ e. (inr (ground arith), ground arith, ground arith), λ (c, sec, nsec). ground arith)
]

IsOlder-iff : (s o : FileStat) → (older_than_mtime s o ≡ true) ↔ IsOlder s o
unfolding older_than_mtime
IsOlder-iff s o = (λ e. ground arith, λ e. ground arith)

decide : Bool → Bool → Bool → UpdateDisk
decide same permitted older =
    if same
    then (if not permitted then update_permissions else no_update_identical)
    else if older
    then other_is_newer
    else store

check_stat-decide :
    (s o : FileStat)
    → check_stat s (some o) ≡ decide (unchanged s o) (same_permissions s o) (older_than_mtime s o)
unfolding check_stat decide unchanged
check_stat-decide s o = refl

says :
    (s o : FileStat) (u : UpdateDisk)
    → decide (unchanged s o) (same_permissions s o) (older_than_mtime s o) ≡ u
    → Says s o u
    → Says s o (check_stat s (some o))
says s o u e h = subst (Says s o) (sym (check_stat-decide s o ∙ e)) h

IsPermitted-iff : (s o : FileStat) → (same_permissions s o ≡ true) ↔ IsPermitted s o
unfolding same_permissions
IsPermitted-iff s o = ==_iff (s.st_mode % 4096) (o.st_mode % 4096)

-- A target that exists is left alone exactly if time, size (unless it is a hard link) and
-- permissions agree; only its permissions are set if they alone differ; a target that is newer is
-- never written; and everything else is stored.
pub check_stat-Says : (s o : FileStat) → Says s o (check_stat s (some o))
unfolding decide
check_stat-Says s o = elim (Bool-cases (unchanged s o)) [
  | inl same ↦ elim (Bool-cases (same_permissions s o)) [
    | inl p ↦
        says s o no_update_identical (rw (same, p) refl)
          (identical ((unchanged_iff s o).0 same) ((IsPermitted-iff s o).0 p))
    | inr p ↦
        says s o update_permissions (rw (same, p) refl) (
          permissions ((unchanged_iff s o).0 same)
            (λ e. absurd (cc ((IsPermitted-iff s o).1 e, p))))
  ]
  | inr other ↦ elim (Bool-cases (older_than_mtime s o)) [
    | inl old ↦ says s o other_is_newer (rw (other, old) refl) (newer ((IsOlder-iff s o).0 old))
    | inr new ↦ says s o store (rw (other, new) refl) (
        changed (λ e. absurd (cc ((unchanged_iff s o).1 e, other)))
          (λ e. absurd (cc ((IsOlder-iff s o).1 e, new))))
  ]
]
