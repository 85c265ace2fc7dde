-- ===== src/Config/Tables.antt =====
-- std::map with texts or paths as keys: an association list. Where the order of the keys shows, the
-- code sorts; `sorted` is std::sort by a text.
use beak.Prelude.{
  ◌≡◌, refl, ap, sym, ◌∙◌, Bool, true, false, Option, none, some, List, [], ◌∷◌, inl, inr, ltb,
  ◌==◌, if◌then◌else◌, Bytes, equal, equal_iff, Bool-cases,
}

abbrev pub Table {ℓ} : Type ℓ → Type ℓ
Table V = List (Bytes × V)

-- std::string's operator<.
unfoldable pub less : Bytes → Bytes → Bool
less [] [] = false
less [] (y ∷ t) = true
less (x ∷ s) [] = false
less (x ∷ s) (y ∷ t) = let rest = less s t in if x == y then rest else ltb x y

differs : (i j k : Bytes) → equal i j ≡ true → equal i k ≡ false → equal k j ≡ false
differs i j k h n = elim (Bool-cases (equal k j)) [
  | inl e ↦
      let same : i ≡ k = (equal_iff i j).0 h ∙ sym ((equal_iff k j).0 e) in
      absurd (cc (sym n ∙ (equal_iff i k).1 same))
  | inr e ↦ e
]

module _ {ℓ} {V : Type ℓ} where
  unfoldable pub find : Bytes → Table V → Option V
  unfolding equal
  find k [] = none
  find k ((j, v) ∷ m) = let rest = find k m in if equal j k then some v else rest

  -- m[k] = v.
  unfoldable pub set : Bytes → V → Table V → Table V
  unfolding equal
  set k v [] = (k, v) ∷ []
  set k v ((j, w) ∷ m) = let rest = set k v m in if equal j k then (j, v) ∷ m else (j, w) ∷ rest

  -- m.erase(k).
  unfoldable pub erase : Bytes → Table V → Table V
  unfolding equal
  erase k [] = []
  erase k ((j, w) ∷ m) = let rest = erase k m in if equal j k then m else (j, w) ∷ rest

  unfoldable pub insert : (V → Bytes) → V → List V → List V
  unfolding less
  insert text v [] = v ∷ []
  insert text v (w ∷ ws) =
      let rest = insert text v ws in if less (text w) (text v) then w ∷ rest else v ∷ w ∷ ws

  unfoldable pub sorted : (V → Bytes) → List V → List V
  unfolding insert
  sorted text [] = []
  sorted text (v ∷ vs) = insert text v (sorted text vs)

  pub find-set :
      (k j : Bytes) (v : V) (m : Table V)
      → find j (set k v m) ≡ (if equal k j then some v else find j m)
  unfolding find set
  find-set k j v [] = refl
  find-set k j v ((i, w) ∷ m) = elim (Bool-cases (equal i k)) [
    | inl e ↦
        let same : equal i j ≡ equal k j = ap (λ x. equal x j) ((equal_iff i k).0 e) in
        elim (Bool-cases (equal k j)) [
          | inl f ↦ rw (e, same, f) refl
          | inr f ↦ rw (e, same, f) refl
        ]
    | inr e ↦ elim (Bool-cases (equal i j)) [
      | inl f ↦ let other : equal k j ≡ false = differs i j k f e in rw (e, f, other) refl
      | inr f ↦ rw (e, f) (find-set k j v m)
    ]
  ]
