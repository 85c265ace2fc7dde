-- ===== src/Prune.antt =====
-- src/prune.cc: which points in time a storage keeps, by the keep rule. Times are nanoseconds since
-- 1970 in 64 bits. A failed assertion, and a read of latest_ before it is set, is `none`.
pub mod Kept
pub mod Newest
pub mod History
pub mod Decision
pub mod Files
mod Tests
use beak.Prelude.{
  ℕ, ◌+◌, ◌-◌, ◌*◌, ◌/◌, ◌%◌, Bool, true, false, ◌&&◌, ◌||◌, Option, none, some, List, [], ◌∷◌, ltb,
  leb, ◌==◌, if◌then◌else◌, ◌>>=◌, ◌>>◌, guard,
}
use beak.Prelude.Words.{add64}
use beak.Prelude.Maps.{Map, put, has_value}

-- src/configuration.h: seconds back in time from now.
pub record Keep : Type 0 where
  pub all : ℕ
  pub daily : ℕ
  pub weekly : ℕ
  pub monthly : ℕ

pub record PruneImplementation : Type 0 where
  pub now : ℕ
  pub keep : Keep
  pub prev : ℕ
  pub points : Map Bool
  pub num_lost_files : Map ℕ
  pub size_lost_files : Map ℕ
  pub latest : Option ℕ
  pub all : List ℕ
  pub daily_max : Map ℕ
  pub weekly_max : Map ℕ
  pub monthly_max : Map ℕ

unfoldable pub new_prune : ℕ → Keep → PruneImplementation
new_prune now keep = record {
  now = now;
  keep = keep;
  prev = 0;
  points = [];
  num_lost_files = [];
  size_lost_files = [];
  latest = none;
  all = [];
  daily_max = [];
  weekly_max = [];
  monthly_max = [];
}

abbrev pub nanos : ℕ
nanos = 1000 * 1000 * 1000

unfoldable pub to_days_since_epoch : ℕ → ℕ
to_days_since_epoch p = p / (3600 * 24 * nanos)

-- Weeks that begin on a Monday.
unfoldable pub to_weeks_since_epoch : ℕ → ℕ
to_weeks_since_epoch p = add64 p (3 * 3600 * 24 * nanos) / (3600 * 24 * 7 * nanos)

-- The year times 100 plus the month of day `z`, counted from 0000-03-01.
unfoldable pub month_identifier_of_day : ℕ → ℕ
month_identifier_of_day z =
    let era = z / 146097 in
    let doe = z - era * 146097 in
    let yoe = (doe - doe / 1460 + doe / 36524 - doe / 146096) / 365 in
    let y = yoe + era * 400 in
    let doy = doe - (365 * yoe + yoe / 4 - yoe / 100) in
    let mp = (5 * doy + 2) / 153 in
    let m = if ltb mp 10 then mp + 3 else mp - 9 in (if leb m 2 then y + 1 else y) * 100 + m

unfoldable pub to_month_identifier_since_epoch : ℕ → ℕ
unfolding to_days_since_epoch month_identifier_of_day
to_month_identifier_since_epoch p = month_identifier_of_day (to_days_since_epoch p + 719468)

unfoldable pub contains : List ℕ → ℕ → Bool
contains [] q = false
contains (p ∷ l) q = p == q || contains l q

-- The set all_ as the list of what was put in.
unfoldable pub is_all : PruneImplementation → ℕ → Bool
unfolding contains
is_all s p = contains s.all p

unfoldable pub is_daily_max : PruneImplementation → ℕ → Bool
is_daily_max s p = has_value s.daily_max p

unfoldable pub is_weekly_max : PruneImplementation → ℕ → Bool
is_weekly_max s p = has_value s.weekly_max p

unfoldable pub is_monthly_max : PruneImplementation → ℕ → Bool
is_monthly_max s p = has_value s.monthly_max p

unfoldable pub point_has_lost_files : PruneImplementation → ℕ → ℕ → ℕ → PruneImplementation
point_has_lost_files s point num_files size_lost = record s {
  num_lost_files = put point num_files s.num_lost_files;
  size_lost_files = put point size_lost s.size_lost_files;
}

unfoldable pub add_point_in_time : PruneImplementation → ℕ → Option PruneImplementation
add_point_in_time s p = do
  guard (leb p s.now)
  guard (leb s.prev p)
  let diff = (s.now - p) / (1000 * 1000 * 1000)
  let d = to_days_since_epoch p
  let w = to_weeks_since_epoch p
  let m = to_month_identifier_since_epoch p
  some (record s {
    prev = p;
    points = put p false s.points;
    latest = some p;
    all = if ltb diff s.keep.all then p ∷ s.all else s.all;
    daily_max = if ltb diff s.keep.daily then put d p s.daily_max else s.daily_max;
    weekly_max = if ltb diff s.keep.weekly then put w p s.weekly_max else s.weekly_max;
    monthly_max = if ltb diff s.keep.monthly then put m p s.monthly_max else s.monthly_max;
  })

-- The calls of addPointInTime for a history, oldest first.
unfoldable pub add_points : PruneImplementation → List ℕ → Option PruneImplementation
add_points s [] = some s
add_points s (p ∷ ps) = add_point_in_time s p >>= λ s'. add_points s' ps

last_value : Map ℕ → ℕ → ℕ
last_value [] w = w
last_value ((k, v) ∷ m) w = last_value m v

unfoldable pub most_recent_weekly_backup : PruneImplementation → Option ℕ
unfolding last_value
most_recent_weekly_backup s =
    let w = last_value s.weekly_max 0 in if w == 0 then s.latest else some w

-- The loops that set points_[...] = true.
unfoldable pub keep_points : List ℕ → Map Bool → Map Bool
keep_points [] points = points
keep_points (p ∷ l) points = keep_points l (put p true points)

unfoldable pub keep_values : Map ℕ → Map Bool → Map Bool
keep_values [] points = points
keep_values ((k, p) ∷ m) points = keep_values m (put p true points)

unfoldable pub prune : PruneImplementation → Option (Map Bool)
unfolding keep_points keep_values
prune s = do
  latest ← s.latest
  some (
      keep_values s.monthly_max (
        keep_values s.weekly_max
          (keep_values s.daily_max (keep_points s.all (put latest true s.points)))))
