-- ===== src/Prune/History.antt =====
-- src/prune.cc: adding a history of points, and the points that prune then keeps.
use beak.Prelude.{
  ℕ, ◌≤◌, ◌≡◌, refl, Bool, true, ◌||◌, some, List, [], ◌∷◌, arith, ◌==◌, if◌then◌else◌,
}
use beak.Prelude.Maps.{Map, put, get, get-put, has_value}
use beak.Prune.{
  Keep, PruneImplementation, new_prune, contains, add_points, keep_points, keep_values, prune,
}
use beak.Prune.Newest.{newest}
use beak.Prune.Kept.{Holds, added, add_point_in_time_lem, added-Holds}

-- A history from the oldest point to the newest, none of them in the future.
abbrev pub Ascends : ℕ → ℕ → List ℕ → Type 0
Ascends prev now [] = Unit {0}
Ascends prev now (p ∷ ps) = (prev ≤ p) × (p ≤ now) × Ascends p now ps

-- The same history from the newest point on, before the points seen earlier.
abbrev pub newest_first : List ℕ → List ℕ → List ℕ
newest_first [] seen = seen
newest_first (p ∷ ps) seen = newest_first ps (p ∷ seen)

abbrev pub last_point : ℕ → List ℕ → ℕ
last_point p [] = p
last_point p (q ∷ qs) = last_point q qs

pub all_added : PruneImplementation → List ℕ → PruneImplementation
all_added s [] = s
all_added s (p ∷ ps) = all_added (added s p) ps

pub add_points_lem :
    (s : PruneImplementation) (ps : List ℕ)
    → Ascends s.prev s.now ps
    → add_points s ps ≡ some (all_added s ps)
unfolding add_points all_added added
add_points_lem s [] a = refl
add_points_lem s (p ∷ ps) a =
    rw (add_point_in_time_lem s p a.1 a.0) (add_points_lem (added s p) ps a.2)

pub all_added-Holds :
    (s : PruneImplementation) (ps seen : List ℕ)
    → Ascends s.prev s.now ps
    → Holds seen s
    → Holds (newest_first ps seen) (all_added s ps)
unfolding all_added added
all_added-Holds s [] seen a h = h
all_added-Holds s (p ∷ ps) seen a h =
    all_added-Holds (added s p) ps (p ∷ seen) a.2 (added-Holds s p seen h a.0)

pub all_added-now : (s : PruneImplementation) (ps : List ℕ) → (all_added s ps).now ≡ s.now
unfolding all_added added
all_added-now s [] = refl
all_added-now s (p ∷ ps) = all_added-now (added s p) ps

pub all_added-keep : (s : PruneImplementation) (ps : List ℕ) → (all_added s ps).keep ≡ s.keep
unfolding all_added added
all_added-keep s [] = refl
all_added-keep s (p ∷ ps) = all_added-keep (added s p) ps

pub all_added-latest :
    (s : PruneImplementation) (p : ℕ) (ps : List ℕ)
    → (all_added s (p ∷ ps)).latest ≡ some (last_point p ps)
unfolding all_added added
all_added-latest s p [] = refl
all_added-latest s p (q ∷ qs) = all_added-latest (added s p) q qs

pub new_prune-Holds : (now : ℕ) (keep : Keep) → Holds [] (new_prune now keep)
unfolding new_prune get contains newest
new_prune-Holds now keep = record {
  order = tt;
  points_are = λ q. refl;
  all_are = λ q. refl;
  daily_are = λ d. refl;
  daily_rise = tt;
  weekly_are = λ d. refl;
  weekly_rise = tt;
  monthly_are = λ d. refl;
  monthly_rise = tt;
}

get-keep_points :
    (l : List ℕ) (q : ℕ) (m : Map Bool)
    → get q (keep_points l m) ≡ (if contains l q then some true else get q m)
unfolding keep_points contains
get-keep_points [] q m = refl
get-keep_points (p ∷ l) q m = ground (arith, get-keep_points l q (put p true m), get-put p q true m)

get-keep_values :
    (l : Map ℕ) (q : ℕ) (m : Map Bool)
    → get q (keep_values l m) ≡ (if has_value l q then some true else get q m)
unfolding keep_values has_value
get-keep_values [] q m = refl
get-keep_values ((k, p) ∷ l) q m =
    ground (arith, get-keep_values l q (put p true m), get-put p q true m)

-- The marks of one state: the tests of prune, in its order from the last one.
abbrev pub marked : PruneImplementation → ℕ → ℕ → Bool
marked s latest q =
    has_value s.monthly_max q
    || (has_value s.weekly_max q || (has_value s.daily_max q || (contains s.all q || latest == q)))

pub prune_lem :
    (s : PruneImplementation) (latest : ℕ)
    → s.latest ≡ some latest
    → (r : Map Bool) × (prune s ≡ some r)
      × ((q : ℕ) → get q r ≡ (if marked s latest q then some true else get q s.points))
unfolding prune
prune_lem s latest e =
    let p0 = put latest true s.points in
    let p1 = keep_points s.all p0 in
    let p2 = keep_values s.daily_max p1 in
    let p3 = keep_values s.weekly_max p2 in
    (
      keep_values s.monthly_max p3,
      rw e refl,
      λ q. ground (
        arith,
        get-keep_values s.monthly_max q p3,
        get-keep_values s.weekly_max q p2,
        get-keep_values s.daily_max q p1,
        get-keep_points s.all q p0,
        get-put latest q true s.points,
      ),
    )
