-- ===== src/Config/Keeps/Subset.antt =====
-- src/configuration.cc and src/prune.cc: what Keep::subsetOf promises of pruning.
use beak.Prelude.{
  ℕ, ◌≤◌, ◌≡◌, ap, sym, ◌∙◌, Bool, true, false, some, List, ◌∷◌, inl, inr, arith, some_inj, subst,
}
use beak.Prelude.Maps.{Map, get}
use beak.Prune.{Keep, PruneImplementation, new_prune, add_points, prune, contains}
use beak.Prune.Newest.{IsNewest}
use beak.Prune.History.{Ascends, last_point}
use beak.Prune.Decision.{
  IsKept, is_latest, is_recent, of_day, of_week, of_month, Decided, prune-Decided,
}
use beak.Config.Keeps.{subset_of}

-- Each limit is at most the other's.
record IsBelow (a b : Keep) : Type 0 where
  all_le : a.all ≤ b.all
  daily_le : a.daily ≤ b.daily
  weekly_le : a.weekly ≤ b.weekly
  monthly_le : a.monthly ≤ b.monthly

subset_of-IsBelow : (a b : Keep) → subset_of a b ≡ true → IsBelow a b
unfolding subset_of
subset_of-IsBelow a b h = record {
  all_le = ground arith;
  daily_le = ground arith;
  weekly_le = ground arith;
  monthly_le = ground arith;
}

IsNewest-longer :
    (unit : ℕ → ℕ) (l m now q : ℕ) (ps : List ℕ)
    → l ≤ m
    → IsNewest unit l now ps q
    → IsNewest unit m now ps q
IsNewest-longer unit l m now q ps h (young, newest) = (omega (arith, h, young), newest)

IsKept-below :
    (now : ℕ) (a b : Keep) (latest q : ℕ) (ps : List ℕ)
    → IsBelow a b
    → IsKept now a latest ps q
    → IsKept now b latest ps q
IsKept-below now a b latest q ps le (is_latest e) = is_latest e
IsKept-below now a b latest q ps le (is_recent young) = is_recent (omega (arith, le.all_le, young))
IsKept-below now a b latest q ps le (of_day v) =
    of_day (IsNewest-longer _ a.daily b.daily now q ps le.daily_le v)
IsKept-below now a b latest q ps le (of_week v) =
    of_week (IsNewest-longer _ a.weekly b.weekly now q ps le.weekly_le v)
IsKept-below now a b latest q ps le (of_month v) =
    of_month (IsNewest-longer _ a.monthly b.monthly now q ps le.monthly_le v)

false_not_true : ¬ (false ≡ true)
false_not_true e = cc

-- What the answer is, from the reason and back.
IsKept-of_true :
    (now : ℕ) (keep : Keep) (latest q : ℕ) (ps : List ℕ) (r : Map Bool)
    → Decided now keep latest ps q r
    → get q r ≡ some true
    → (contains ps q ≡ true) × IsKept now keep latest ps q
IsKept-of_true now keep latest q ps r (inl (_, e)) h = absurd (cc)
IsKept-of_true now keep latest q ps r (inr (inl (c, e, kept))) h = (c, kept)
IsKept-of_true now keep latest q ps r (inr (inr (c, e, dropped))) h =
    absurd (false_not_true (some_inj (sym e ∙ h)))

true_of_IsKept :
    (now : ℕ) (keep : Keep) (latest q : ℕ) (ps : List ℕ) (r : Map Bool)
    → Decided now keep latest ps q r
    → contains ps q ≡ true
    → IsKept now keep latest ps q
    → get q r ≡ some true
true_of_IsKept now keep latest q ps r (inl (missing, e)) c kept =
    absurd (false_not_true (sym missing ∙ c))
true_of_IsKept now keep latest q ps r (inr (inl (c1, e, k))) c kept = e
true_of_IsKept now keep latest q ps r (inr (inr (c1, e, dropped))) c kept = absurd (dropped kept)

-- The answers of the two runs on one history.
abbrev Ran : ℕ → Keep → List ℕ → PruneImplementation → Map Bool → Type 0
Ran now keep ps s r = (add_points (new_prune now keep) ps ≡ some s) × (prune s ≡ some r)

decided-of_run :
    (now : ℕ) (keep : Keep) (p : ℕ) (ps : List ℕ) (s : PruneImplementation) (r : Map Bool) (q : ℕ)
    → Ascends 0 now (p ∷ ps)
    → Ran now keep (p ∷ ps) s r
    → Decided now keep (last_point p ps) (p ∷ ps) q r
decided-of_run now keep p ps s r q a (added, ran) =
    let (s1, r1, added1, ran1, decided) = prune-Decided now keep p ps a in
    let same_s : s1 ≡ s = some_inj (sym added1 ∙ added) in
    let same_r : r1 ≡ r = some_inj (sym ran1 ∙ (ap prune same_s ∙ ran)) in
    subst (λ (m : Map Bool). Decided now keep (last_point p ps) (p ∷ ps) q m) same_r (decided q)

-- If subsetOf says that a rule is a subset of another one, then of any history, from the oldest
-- point to the newest and with none in the future, pruning with the first rule keeps only points
-- that pruning at the same time with the second one keeps too.
pub subset_of-prune :
    (now : ℕ) (a b : Keep) (p : ℕ) (ps : List ℕ) (sa sb : PruneImplementation) (ra rb : Map Bool)
    (q : ℕ)
    → subset_of a b ≡ true
    → Ascends 0 now (p ∷ ps)
    → Ran now a (p ∷ ps) sa ra
    → Ran now b (p ∷ ps) sb rb
    → get q ra ≡ some true
    → get q rb ≡ some true
subset_of-prune now a b p ps sa sb ra rb q h asc run_a run_b kept =
    let latest = last_point p ps in
    let (there, why) =
      IsKept-of_true now a latest q (p ∷ ps) ra (decided-of_run now a p ps sa ra q asc run_a)
        kept in
    true_of_IsKept now b latest q (p ∷ ps) rb (decided-of_run now b p ps sb rb q asc run_b) there
      (IsKept-below now a b latest q (p ∷ ps) (subset_of-IsBelow a b h) why)
