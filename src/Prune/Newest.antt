-- ===== src/Prune/Newest.antt =====
-- src/prune.cc: the newest point of each day, week or month, as the maps daily_max_, weekly_max_
-- and monthly_max_ hold it.
use beak.Prelude.{
  ℕ, ◌-◌, ◌*◌, ◌/◌, ◌≤◌, ◌<◌, ◌≡◌, ◌≢◌, true, Option, none, some, List, [], ◌∷◌, arith, ltb, ◌==◌,
  if◌then◌else◌, ◌⊎◌, inl, inr, Bool-cases, All, ◌∙◌,
}
use beak.Prune.{contains}

-- The points fall along the list, from `hi` on: the newest stands first.
abbrev pub Falling : ℕ → List ℕ → Type 0
Falling hi [] = Unit {0}
Falling hi (p ∷ l) = (p ≤ hi) × Falling p l

pub le_of_contains : (hi q : ℕ) (l : List ℕ) → Falling hi l → contains l q ≡ true → q ≤ hi
unfolding contains
le_of_contains hi q [] f h = cc
le_of_contains hi q (p ∷ l) f h = ground (arith, le_of_contains p q l)

pub Falling-mono : (lo hi : ℕ) (l : List ℕ) → lo ≤ hi → Falling lo l → Falling hi l
Falling-mono lo hi [] h f = tt
Falling-mono lo hi (p ∷ l) h f = (omega arith, f.1)

Falling-All :
    {P : ℕ → Type 0} (hi : ℕ) (l : List ℕ) → Falling hi l → ((r : ℕ) → r ≤ hi → P r) → All P l
Falling-All hi [] f h = tt
Falling-All hi (p ∷ l) f h = (h p f.0, Falling-All p l f.1 (λ r le. h r (omega arith)))

-- The whole seconds from a point to now.
abbrev pub age : ℕ → ℕ → ℕ
age now p = (now - p) / (1000 * 1000 * 1000)

-- `q` is young enough, and no point of its day, week or month is newer.
abbrev pub IsNewest : (ℕ → ℕ) → ℕ → ℕ → List ℕ → ℕ → Type 0
IsNewest unit limit now ps q = (age now q < limit) × All (λ r. (unit r ≢ unit q) ⊎ (r ≤ q)) ps

module _ (unit : ℕ → ℕ) (limit now : ℕ) where
  unfoldable pub newest : List ℕ → ℕ → Option ℕ
  newest [] d = none
  newest (p ∷ older) d =
      if ltb (age now p) limit
      then (if unit p == d then some p else newest older d)
      else newest older d

  -- The newest of the older points, where the first point does not come in its way.
  older-IsNewest :
      (p d q : ℕ) (older : List ℕ)
      → Falling p older
      → (unit p ≢ d) ⊎ (limit ≤ age now p)
      → (contains older q ≡ true) × (unit q ≡ d) × IsNewest unit limit now older q
      → (contains (p ∷ older) q ≡ true) × (unit q ≡ d) × IsNewest unit limit now (p ∷ older) q
  unfolding contains
  older-IsNewest p d q older f (inl other) (c, e, (young, v)) =
      (ground arith, e, (young, (inl (λ same. other (same ∙ e)), v)))
  older-IsNewest p d q older f (inr old) (c, e, (young, v)) =
      (ground arith, e, (young, (inr (omega (arith, le_of_contains p q older f c)), v)))

  first-IsNewest :
      (p d q : ℕ) (older : List ℕ)
      → Falling p older
      → age now p < limit
      → unit p ≡ d
      → p ≡ q
      → (contains (p ∷ older) q ≡ true) × (unit q ≡ d) × IsNewest unit limit now (p ∷ older) q
  unfolding contains
  first-IsNewest p d q older f young e same = (
    ground arith,
    rw (← same) e,
    (rw (← same) young, (inr (omega arith), Falling-All p older f (λ r le. inr (omega arith)))),
  )

  pub newest-IsNewest :
      (hi : ℕ) (seen : List ℕ) (d q : ℕ)
      → Falling hi seen
      → newest seen d ≡ some q
      → (contains seen q ≡ true) × (unit q ≡ d) × IsNewest unit limit now seen q
  unfolding newest contains
  newest-IsNewest hi [] d q f h = cc
  newest-IsNewest hi (p ∷ older) d q f h = elim (Bool-cases (ltb (age now p) limit)) [
    | inl young ↦ elim (Bool-cases (unit p == d)) [
      | inl hit ↦ first-IsNewest p d q older f.1 (ground arith) (ground arith) (ground arith)
      | inr miss ↦
          older-IsNewest p d q older f.1 (inl (ground arith))
            (newest-IsNewest p older d q f.1 (ground arith))
    ]
    | inr old ↦
        older-IsNewest p d q older f.1 (inr (ground arith))
          (newest-IsNewest p older d q f.1 (ground arith))
  ]

  pub IsNewest-newest :
      (hi : ℕ) (seen : List ℕ) (q : ℕ)
      → Falling hi seen
      → contains seen q ≡ true
      → IsNewest unit limit now seen q
      → newest seen (unit q) ≡ some q
  unfolding newest contains
  IsNewest-newest hi [] q f c v = cc
  IsNewest-newest hi (p ∷ older) q f c v =
      ground (arith, IsNewest-newest p older q, le_of_contains p q older)
