-- ===== src/Prelude/Maps.antt =====
-- std::map with unsigned integer keys: an association list in the order of its keys.
use Prim.Native.Nat.{ℕ, suc, ◌≤◌, ◌<◌}
use mathlib.Core.Path.{◌≡◌, refl}
use mathlib.Core.Bool.{Bool, true, false, ◌||◌}
use mathlib.Core.Option.{Option, none, some}
use mathlib.Core.List.{List, [], ◌∷◌}
use mathlib.Core.Logic.{inl, inr}
use native.Mathlib.Omega.{arith}
use beak.Prelude.Tests.{ltb, ◌==◌, if◌then◌else◌, Bool-cases}

abbrev pub Map {ℓ} : Type ℓ → Type ℓ
Map V = List (ℕ × V)

module _ {ℓ} {V : Type ℓ} where
  -- m[k] = v.
  unfoldable pub put : ℕ → V → Map V → Map V
  put k v [] = (k, v) ∷ []
  put k v ((j, w) ∷ m) =
      if ltb k j then (k, v) ∷ (j, w) ∷ m else if k == j then (k, v) ∷ m else (j, w) ∷ put k v m

  -- m.find(k).
  unfoldable pub get : ℕ → Map V → Option V
  get k [] = none
  get k ((j, w) ∷ m) = if j == k then some w else get k m

  pub get-put :
      (k j : ℕ) (v : V) (m : Map V) → get j (put k v m) ≡ (if k == j then some v else get j m)
  unfolding get put
  get-put k j v [] = refl
  get-put k j v ((i, w) ∷ m) = ground (arith, get-put k j v m)

  -- The keys rise, from `lo` on.
  abbrev pub Rising : ℕ → Map V → Type 0
  Rising lo [] = Unit {0}
  Rising lo ((k, v) ∷ m) = (lo ≤ k) × Rising (suc k) m

  pub put-Rising : (lo k : ℕ) (v : V) (m : Map V) → lo ≤ k → Rising lo m → Rising lo (put k v m)
  unfolding put
  put-Rising lo k v [] h r = (h, tt)
  put-Rising lo k v ((j, w) ∷ m) h r = ground (arith, put-Rising (suc j) k v m)

  get_below : (lo k : ℕ) (m : Map V) → Rising lo m → k < lo → get k m ≡ none
  unfolding get
  get_below lo k [] r h = refl
  get_below lo k ((j, w) ∷ m) r h = ground (arith, get_below (suc j) k m)

-- Whether some key has the value `q`.
unfoldable pub has_value : Map ℕ → ℕ → Bool
has_value [] q = false
has_value ((k, v) ∷ m) q = v == q || has_value m q

pub has_value_of_get : (m : Map ℕ) (k q : ℕ) → get k m ≡ some q → has_value m q ≡ true
unfolding get has_value
has_value_of_get [] k q h = cc
has_value_of_get ((j, v) ∷ m) k q h = ground (arith, has_value_of_get m k q)

pub get_of_has_value :
    (lo : ℕ) (m : Map ℕ) (q : ℕ)
    → Rising lo m
    → has_value m q ≡ true
    → (k : ℕ) × (lo ≤ k) × (get k m ≡ some q)
unfolding get has_value
get_of_has_value lo [] q r h = cc
get_of_has_value lo ((j, v) ∷ m) q r h = elim (Bool-cases (v == q)) [
  | inl here ↦ (j, r.0, ground arith)
  | inr later ↦
      let (k, le, e) = get_of_has_value (suc j) m q r.1 (ground arith) in
      (k, omega (arith, r.0), ground arith)
]
