-- ===== src/Prune/Tests.antt =====
-- Runs of pruning, and its theorems at concrete inputs.
use beak.Prelude.{ℕ, ◌+◌, ◌*◌, ◌≡◌, refl, Bool, true, false, some, List, [], ◌∷◌, arith, ◌>>=◌}
use beak.Prelude.Words.{add64}
use beak.Prelude.Maps.{Map, get, put}
use beak.Prune.{
  Keep, PruneImplementation, new_prune, add_points, add_point_in_time, prune, contains,
  to_month_identifier_since_epoch, to_weeks_since_epoch, to_days_since_epoch, nanos,
}
use beak.Prune.Decision.{is_latest, Decided, prune-Decided}
use beak.Prune.Files.{PointInTime, BackupFile, Consent, points, prune_storage}
use beak.Prune.Files.Safety.{later, first, prune_storage_safe}

abbrev day : ℕ → ℕ
day n = n * 3600 * 24 * nanos

-- 2018-12-02 lies in month 201812, and the next Monday begins another week.
month_run : to_month_identifier_since_epoch (day 17867) ≡ 201812
unfolding to_month_identifier_since_epoch
month_run = refl

week_run : to_weeks_since_epoch (day 17868) ≡ to_weeks_since_epoch (day 17867) + 1
unfolding to_weeks_since_epoch add64
week_run = refl

abbrev weekly_rule : Keep
weekly_rule = record { all = 0; daily = 3600 * 24 * 2; weekly = 3600 * 24 * 30; monthly = 0 }

abbrev history : List ℕ
history = day 17866 ∷ day 17867 ∷ day 17868 ∷ []

prune_run :
    (add_points (new_prune (day 17869) weekly_rule) history >>= prune)
    ≡ some ((day 17866, false) ∷ (day 17867, true) ∷ (day 17868, true) ∷ [])
unfolding add_points add_point_in_time new_prune prune put to_month_identifier_since_epoch
    to_weeks_since_epoch to_days_since_epoch add64
prune_run = refl

prune-Decided_example :
    (s : PruneImplementation) × (r : Map Bool) × (add_points
        (new_prune (day 17869) weekly_rule)
        history
      ≡ some s)
    × (prune s ≡ some r)
    × ((q : ℕ) → Decided (day 17869) weekly_rule (day 17868) history q r)
prune-Decided_example =
    prune-Decided (day 17869) weekly_rule (day 17866) (day 17867 ∷ day 17868 ∷ []) (omega arith)

abbrev old_point : PointInTime
old_point = record { point = day 17866; tarfiles = 1 ∷ 2 ∷ []; gz_index_file = 3 }

abbrev new_point : PointInTime
new_point = record { point = day 17868; tarfiles = 2 ∷ 4 ∷ []; gz_index_file = 5 }

abbrev file : ℕ → BackupFile
file n = record { path = n; st_size = 512 }

abbrev stored : List BackupFile
stored = file 1 ∷ file 2 ∷ file 3 ∷ file 4 ∷ file 5 ∷ []

abbrev sure : Consent
sure = record { dryrun = false; proceed = true }

abbrev no_rule : Keep
no_rule = record { all = 0; daily = 0; weekly = 0; monthly = 0 }

prune_storage_run :
    prune_storage (day 17869) no_rule (old_point ∷ new_point ∷ []) stored sure ≡ some (1 ∷ 3 ∷ [])
unfolding prune_storage add_points add_point_in_time new_prune prune put get contains
    to_month_identifier_since_epoch to_weeks_since_epoch to_days_since_epoch add64
prune_storage_run = refl

prune_storage_safe_example :
    (deleted : List ℕ) × (prune_storage (day 17869) no_rule (old_point ∷ new_point ∷ []) stored sure
      ≡ some deleted)
    × (contains deleted 4 ≡ false)
unfolding points contains
prune_storage_safe_example =
    prune_storage_safe (day 17869) no_rule old_point (new_point ∷ []) stored sure new_point 4
      (omega arith) (later old_point (first [])) (is_latest refl) refl
