-- ===== src/Prune/Kept.antt =====
-- src/prune.cc: which points in time prune keeps.
use beak.Prelude.{
  ℕ, ◌≤◌, ◌≡◌, refl, Bool, true, false, ◌&&◌, none, some, List, ◌∷◌, arith, ltb, ◌==◌,
  if◌then◌else◌, inl, inr, Bool-cases, le→leb,
}
use beak.Prelude.Maps.{Map, put, get, get-put, Rising, put-Rising}
use beak.Prune.{
  PruneImplementation, contains, to_days_since_epoch, to_weeks_since_epoch,
  to_month_identifier_since_epoch, add_point_in_time,
}
use beak.Prune.Newest.{Falling, Falling-mono, age, newest}

-- What a state says of the points added so far, the newest first.
pub record Holds (seen : List ℕ) (s : PruneImplementation) : Type 0 where
  pub order : Falling s.prev seen
  pub points_are : (q : ℕ) → get q s.points ≡ (if contains seen q then some false else none)
  pub all_are : (q : ℕ) → contains s.all q ≡ (contains seen q && ltb (age s.now q) s.keep.all)
  pub daily_are : (d : ℕ) → get d s.daily_max ≡ newest to_days_since_epoch s.keep.daily s.now seen d
  pub daily_rise : Rising 0 s.daily_max
  pub weekly_are :
      (w : ℕ) → get w s.weekly_max ≡ newest to_weeks_since_epoch s.keep.weekly s.now seen w
  pub weekly_rise : Rising 0 s.weekly_max
  pub monthly_are :
      (m : ℕ)
      → get m s.monthly_max ≡ newest to_month_identifier_since_epoch s.keep.monthly s.now seen m
  pub monthly_rise : Rising 0 s.monthly_max

-- One of the three maps, before and after a point: `c` is the test of its age.
map_step :
    (unit : ℕ → ℕ) (limit now p d : ℕ) (seen : List ℕ) (m : Map ℕ)
    → get d m ≡ newest unit limit now seen d
    → get d (if ltb (age now p) limit then put (unit p) p m else m)
      ≡ newest unit limit now (p ∷ seen) d
unfolding newest
map_step unit limit now p d seen m h = elim (Bool-cases (ltb (age now p) limit)) [
  | inl young ↦ rw (young, get-put (unit p) d p m, h) refl
  | inr old ↦ rw old h
]

rise_step : (c : Bool) (k p : ℕ) (m : Map ℕ) → Rising 0 m → Rising 0 (if c then put k p m else m)
rise_step true k p m r = put-Rising 0 k p m (omega arith) r
rise_step false k p m r = r

points_step :
    (p q : ℕ) (seen : List ℕ) (m : Map Bool)
    → get q m ≡ (if contains seen q then some false else none)
    → get q (put p false m) ≡ (if contains (p ∷ seen) q then some false else none)
unfolding contains
points_step p q seen m h = ground (arith, get-put p q false m)

all_step :
    (now limit p q : ℕ) (seen l : List ℕ)
    → contains l q ≡ (contains seen q && ltb (age now q) limit)
    → contains (if ltb (age now p) limit then p ∷ l else l) q
      ≡ (contains (p ∷ seen) q && ltb (age now q) limit)
unfolding contains
all_step now limit p q seen l h = elim (Bool-cases (p == q)) [
  | inl same ↦ let e : p ≡ q = ground arith in rw e (ground arith)
  | inr other ↦ ground arith
]

-- The state after a point that passes both assertions.
unfoldable pub added : PruneImplementation → ℕ → PruneImplementation
added s p = record s {
  prev = p;
  points = put p false s.points;
  latest = some p;
  all = if ltb (age s.now p) s.keep.all then p ∷ s.all else s.all;
  daily_max =
      if ltb (age s.now p) s.keep.daily
      then put (to_days_since_epoch p) p s.daily_max
      else s.daily_max;
  weekly_max =
      if ltb (age s.now p) s.keep.weekly
      then put (to_weeks_since_epoch p) p s.weekly_max
      else s.weekly_max;
  monthly_max =
      if ltb (age s.now p) s.keep.monthly
      then put (to_month_identifier_since_epoch p) p s.monthly_max
      else s.monthly_max;
}

pub add_point_in_time_lem :
    (s : PruneImplementation) (p : ℕ)
    → p ≤ s.now
    → s.prev ≤ p
    → add_point_in_time s p ≡ some (added s p)
unfolding add_point_in_time added
add_point_in_time_lem s p a b = rw (le→leb p s.now a, le→leb s.prev p b) refl

pub added-Holds :
    (s : PruneImplementation) (p : ℕ) (seen : List ℕ)
    → Holds seen s
    → s.prev ≤ p
    → Holds (p ∷ seen) (added s p)
unfolding added
added-Holds s p seen h b = record {
  order = (omega arith, Falling-mono s.prev p seen b h.order);
  points_are = λ q. points_step p q seen s.points (h.points_are q);
  all_are = λ q. all_step s.now s.keep.all p q seen s.all (h.all_are q);
  daily_are =
      λ d. map_step to_days_since_epoch s.keep.daily s.now p d seen s.daily_max (h.daily_are d);
  daily_rise = rise_step (ltb (age s.now p) s.keep.daily) _ p s.daily_max h.daily_rise;
  weekly_are =
      λ d. map_step to_weeks_since_epoch s.keep.weekly s.now p d seen s.weekly_max (h.weekly_are d);
  weekly_rise = rise_step (ltb (age s.now p) s.keep.weekly) _ p s.weekly_max h.weekly_rise;
  monthly_are = λ d.
      map_step to_month_identifier_since_epoch s.keep.monthly s.now p d seen s.monthly_max
        (h.monthly_are d);
  monthly_rise = rise_step (ltb (age s.now p) s.keep.monthly) _ p s.monthly_max h.monthly_rise;
}
