-- ===== src/Prune/Decision.antt =====
-- src/prune.cc: prune keeps exactly the points that the keep rule asks for.
use beak.Prelude.{
  ℕ, ◌≤◌, ◌<◌, ◌≡◌, ◌≢◌, refl, Bool, true, false, ◌||◌, none, some, List, [], ◌∷◌, arith,
  if◌then◌else◌, ◌⊎◌, inl, inr, Bool-cases, All, ◌↔◌, ◌∙◌, sym, ap, subst,
}
use beak.Prelude.Maps.{Map, get, Rising, has_value, has_value_of_get, get_of_has_value}
use beak.Prune.{
  Keep, PruneImplementation, new_prune, contains, to_days_since_epoch, to_weeks_since_epoch,
  to_month_identifier_since_epoch, add_points, prune,
}
use beak.Prune.Newest.{Falling, age, IsNewest, newest, newest-IsNewest, IsNewest-newest}
use beak.Prune.Kept.{Holds}
use beak.Prune.History.{
  Ascends, newest_first, last_point, all_added, add_points_lem, all_added-Holds, all_added-now,
  all_added-keep, all_added-latest, new_prune-Holds, prune_lem, marked,
}

-- Why a point of the history `ps`, whose last point is `latest`, is kept: it is the latest, it is
-- young enough for keeping all, or it is the newest of its day, week or month and young enough for
-- that.
pub data IsKept (now : ℕ) (keep : Keep) (latest : ℕ) (ps : List ℕ) (q : ℕ) : Type 0 where
  is_latest : latest ≡ q → IsKept now keep latest ps q
  is_recent : age now q < keep.all → IsKept now keep latest ps q
  of_day : IsNewest to_days_since_epoch keep.daily now ps q → IsKept now keep latest ps q
  of_week : IsNewest to_weeks_since_epoch keep.weekly now ps q → IsKept now keep latest ps q
  of_month :
      IsNewest to_month_identifier_since_epoch keep.monthly now ps q → IsKept now keep latest ps q

-- One map of a state: it has the value `q` exactly if `q` is the newest of its unit.
has_value_iff :
    (unit : ℕ → ℕ) (limit now hi q : ℕ) (seen : List ℕ) (m : Map ℕ)
    → ((d : ℕ) → get d m ≡ newest unit limit now seen d)
    → Rising 0 m
    → Falling hi seen
    → contains seen q ≡ true
    → (has_value m q ≡ true) ↔ IsNewest unit limit now seen q
has_value_iff unit limit now hi q seen m e r f c = (
  λ h.
      let (k, _, found) = get_of_has_value 0 m q r h in
      (newest-IsNewest unit limit now hi seen k q f (sym (e k) ∙ found)).2,
  λ v. has_value_of_get m (unit q) q (e (unit q) ∙ IsNewest-newest unit limit now hi seen q f c v),
)

marked→IsKept :
    (s : PruneImplementation) (latest q : ℕ) (seen : List ℕ)
    → Holds seen s
    → contains seen q ≡ true
    → marked s latest q ≡ true
    → IsKept s.now s.keep latest seen q
marked→IsKept s latest q seen h c e = elim (Bool-cases (has_value s.monthly_max q)) [
  | inl month ↦
      of_month (
        (has_value_iff _ _ _ _ q seen s.monthly_max h.monthly_are h.monthly_rise h.order c).0 month)
  | inr a ↦ elim (Bool-cases (has_value s.weekly_max q)) [
    | inl week ↦
        of_week
          ((has_value_iff _ _ _ _ q seen s.weekly_max h.weekly_are h.weekly_rise h.order c).0 week)
    | inr b ↦ elim (Bool-cases (has_value s.daily_max q)) [
      | inl day ↦
          of_day
            ((has_value_iff _ _ _ _ q seen s.daily_max h.daily_are h.daily_rise h.order c).0 day)
      | inr d ↦ elim (Bool-cases (contains s.all q)) [
        | inl recent ↦ is_recent (ground (arith, h.all_are q))
        | inr f ↦ is_latest (ground arith)
      ]
    ]
  ]
]

IsKept→marked :
    (s : PruneImplementation) (latest q : ℕ) (seen : List ℕ)
    → Holds seen s
    → contains seen q ≡ true
    → IsKept s.now s.keep latest seen q
    → marked s latest q ≡ true
IsKept→marked s latest q seen h c (is_latest e) = ground arith
IsKept→marked s latest q seen h c (is_recent l) = ground (arith, h.all_are q)
IsKept→marked s latest q seen h c (of_day v) =
    let t = (has_value_iff _ _ _ _ q seen s.daily_max h.daily_are h.daily_rise h.order c).1 v in
    ground arith
IsKept→marked s latest q seen h c (of_week v) =
    let t = (has_value_iff _ _ _ _ q seen s.weekly_max h.weekly_are h.weekly_rise h.order c).1 v in
    ground arith
IsKept→marked s latest q seen h c (of_month v) =
    let t =
      (has_value_iff _ _ _ _ q seen s.monthly_max h.monthly_are h.monthly_rise h.order c).1 v in
    ground arith

-- The order in which the points are listed does not matter.
All-newest_first :
    (P : ℕ → Type 0) (ps seen : List ℕ) → All P (newest_first ps seen) ↔ (All P ps × All P seen)
All-newest_first P [] seen = (λ h. (tt, h), λ h. h.1)
All-newest_first P (p ∷ ps) seen =
    let (there, back) = All-newest_first P ps (p ∷ seen) in
    (λ h. ((((there h).1).0, (there h).0), ((there h).1).1), λ h. back ((h.0).1, ((h.0).0, h.1)))

contains-newest_first :
    (ps seen : List ℕ) (q : ℕ)
    → contains (newest_first ps seen) q ≡ (contains ps q || contains seen q)
unfolding contains
contains-newest_first [] seen q = refl
contains-newest_first (p ∷ ps) seen q = ground (arith, contains-newest_first ps (p ∷ seen) q)

IsNewest-newest_first :
    (unit : ℕ → ℕ) (limit now q : ℕ) (ps : List ℕ)
    → IsNewest unit limit now (newest_first ps []) q ↔ IsNewest unit limit now ps q
IsNewest-newest_first unit limit now q ps =
    let (there, back) = All-newest_first (λ r. (unit r ≢ unit q) ⊎ (r ≤ q)) ps [] in
    (λ h. (h.0, (there h.1).0), λ h. (h.0, back (h.1, tt)))

IsKept-newest_first :
    (now : ℕ) (keep : Keep) (latest q : ℕ) (ps : List ℕ)
    → IsKept now keep latest (newest_first ps []) q ↔ IsKept now keep latest ps q
IsKept-newest_first now keep latest q ps = (there, back)
  where
    there : IsKept now keep latest (newest_first ps []) q → IsKept now keep latest ps q
    there (is_latest e) = is_latest e
    there (is_recent l) = is_recent l
    there (of_day v) = of_day ((IsNewest-newest_first _ _ now q ps).0 v)
    there (of_week v) = of_week ((IsNewest-newest_first _ _ now q ps).0 v)
    there (of_month v) = of_month ((IsNewest-newest_first _ _ now q ps).0 v)

    back : IsKept now keep latest ps q → IsKept now keep latest (newest_first ps []) q
    back (is_latest e) = is_latest e
    back (is_recent l) = is_recent l
    back (of_day v) = of_day ((IsNewest-newest_first _ _ now q ps).1 v)
    back (of_week v) = of_week ((IsNewest-newest_first _ _ now q ps).1 v)
    back (of_month v) = of_month ((IsNewest-newest_first _ _ now q ps).1 v)

-- The answer for one point: not in the history, kept, or discarded.
abbrev pub Decided : ℕ → Keep → ℕ → List ℕ → ℕ → Map Bool → Type 0
Decided now keep latest ps q r =
    (contains ps q ≡ false) × (get q r ≡ none)
    ⊎ ((contains ps q ≡ true) × (get q r ≡ some true) × IsKept now keep latest ps q
        ⊎ (contains ps q ≡ true) × (get q r ≡ some false) × (¬ IsKept now keep latest ps q))

value_seen :
    (unit : ℕ → ℕ) (limit now hi q : ℕ) (seen : List ℕ) (m : Map ℕ)
    → ((d : ℕ) → get d m ≡ newest unit limit now seen d)
    → Rising 0 m
    → Falling hi seen
    → has_value m q ≡ true
    → contains seen q ≡ true
value_seen unit limit now hi q seen m e r f h =
    let (k, _, found) = get_of_has_value 0 m q r h in
    (newest-IsNewest unit limit now hi seen k q f (sym (e k) ∙ found)).0

-- Only points of the history are marked.
marked_seen :
    (s : PruneImplementation) (latest q : ℕ) (seen : List ℕ)
    → Holds seen s
    → contains seen latest ≡ true
    → marked s latest q ≡ true
    → contains seen q ≡ true
marked_seen s latest q seen h l e = elim (Bool-cases (has_value s.monthly_max q)) [
  | inl month ↦ value_seen _ _ _ _ q seen s.monthly_max h.monthly_are h.monthly_rise h.order month
  | inr a ↦ elim (Bool-cases (has_value s.weekly_max q)) [
    | inl week ↦ value_seen _ _ _ _ q seen s.weekly_max h.weekly_are h.weekly_rise h.order week
    | inr b ↦ elim (Bool-cases (has_value s.daily_max q)) [
      | inl day ↦ value_seen _ _ _ _ q seen s.daily_max h.daily_are h.daily_rise h.order day
      | inr d ↦ elim (Bool-cases (contains s.all q)) [
        | inl recent ↦ ground (arith, h.all_are q)
        | inr f ↦ let same : latest ≡ q = ground arith in rw same at l
      ]
    ]
  ]
]

same_points : (ps : List ℕ) (q : ℕ) → contains (newest_first ps []) q ≡ contains ps q
unfolding contains
same_points ps q = ground (arith, contains-newest_first ps [] q)

decide :
    (s : PruneImplementation) (latest q : ℕ) (ps : List ℕ) (r : Map Bool)
    → Holds (newest_first ps []) s
    → contains ps latest ≡ true
    → get q r ≡ (if marked s latest q then some true else get q s.points)
    → Decided s.now s.keep latest ps q r
decide s latest q ps r h l e =
    let seen = newest_first ps [] in
    let same = same_points ps q in
    let turn = IsKept-newest_first s.now s.keep latest q ps in
    elim (Bool-cases (marked s latest q)) [
      | inl kept ↦
          let c = marked_seen s latest q seen h (same_points ps latest ∙ l) kept in
          inr (inl (sym same ∙ c, rw kept at e, turn.0 (marked→IsKept s latest q seen h c kept)))
      | inr not_kept ↦
          let point : get q r ≡ (if contains ps q then some false else none) =
            (rw not_kept at e)
            ∙ h.points_are q
            ∙ ap (λ (b : Bool). if b then some false else none) same in
          elim (Bool-cases (contains ps q)) [
            | inl c ↦ inr (
                inr (
                  c,
                  rw c at point,
                  λ k. cc (sym not_kept ∙ IsKept→marked s latest q seen h (same ∙ c) (turn.1 k)),
                ))
            | inr c ↦ inl (c, rw c at point)
          ]
    ]

contains-last_point : (p : ℕ) (ps : List ℕ) → contains (p ∷ ps) (last_point p ps) ≡ true
unfolding contains
contains-last_point p [] = ground arith
contains-last_point p (q ∷ qs) = ground (arith, contains-last_point q qs)

-- For a history of one point at least, from the oldest to the newest and with none in the future,
-- addPointInTime passes its assertions and prune answers. Its answer has exactly the points of the
-- history; it is true for a point exactly if the point is the latest, or younger than the `all`
-- limit, or the newest of its day, week or month and younger than the limit of that.
pub prune-Decided :
    (now : ℕ) (keep : Keep) (p : ℕ) (ps : List ℕ)
    → Ascends 0 now (p ∷ ps)
    → (s : PruneImplementation) × (r : Map Bool) × (add_points (new_prune now keep) (p ∷ ps)
        ≡ some s)
      × (prune s ≡ some r)
      × ((q : ℕ) → Decided now keep (last_point p ps) (p ∷ ps) q r)
unfolding new_prune
prune-Decided now keep p ps a =
    let start = new_prune now keep in
    let s = all_added start (p ∷ ps) in
    let latest = last_point p ps in
    let (r, run, marks) = prune_lem s latest (all_added-latest start p ps) in
    let h = all_added-Holds start (p ∷ ps) [] a (new_prune-Holds now keep) in
    (
      s,
      r,
      add_points_lem start (p ∷ ps) a,
      run,
      λ q.
          subst (λ (n : ℕ). Decided n keep latest (p ∷ ps) q r) (all_added-now start (p ∷ ps))
            (subst (λ (k : Keep). Decided s.now k latest (p ∷ ps) q r)
              (all_added-keep start (p ∷ ps))
              (decide s latest q (p ∷ ps) r h (contains-last_point p ps) (marks q))),
    )
