-- ===== src/Config/Every.antt =====
-- What holds of every entry of a map, and of every result of a chain of steps that can fail.
use beak.Prelude.{
  ◌≡◌, refl, sym, Bool, true, false, Option, none, some, [], ◌∷◌, inl, inr, subst, ◌>>=◌, ◌>>◌,
  guard, some_inj, Bytes, All, equal, equal_iff, Bool-cases,
}
use beak.Config.Tables.{Table, find, set}

-- Every element that a property of keys and values holds of.
pub All-set {ℓ} :
    {V : Type ℓ} (P : Bytes × V → Type 0) (k : Bytes) (v : V) (m : Table V)
    → All P m
    → P (k, v)
    → All P (set k v m)
unfolding set
All-set P k v [] a p = (p, tt)
All-set P k v ((j, w) ∷ m) (a, as_) p = elim (Bool-cases (equal j k)) [
  | inl e ↦ rw e (subst (λ i. P (i, v)) (sym ((equal_iff j k).0 e)) p, as_)
  | inr e ↦ rw e (a, All-set P k v m as_ p)
]

pub All-find {ℓ} :
    {V : Type ℓ} (P : Bytes × V → Type 0) (k : Bytes) (v : V) (m : Table V)
    → All P m
    → find k m ≡ some v
    → P (k, v)
unfolding find
All-find P k v [] a h = absurd (cc)
All-find P k v ((j, w) ∷ m) (a, as_) h = elim (Bool-cases (equal j k)) [
  | inl e ↦
      let same : w ≡ v = some_inj (rw e at h) in
      subst (λ u. P (k, u)) same (subst (λ i. P (i, w)) ((equal_iff j k).0 e) a)
  | inr e ↦ All-find P k v m as_ (rw e at h)
]

-- A predicate on every result of a chain.
pub bind-All {ℓ κ} :
    {A : Type ℓ} {B : Type κ} (P : B → Type 0) (o : Option A) (f : A → Option B)
    → ((a : A) → o ≡ some a → (b : B) → f a ≡ some b → P b)
    → (b : B) → (o >>= f) ≡ some b
    → P b
bind-All P none f h b e = absurd (cc)
bind-All P (some a) f h b e = h a refl b e

pub guard-All {κ} :
    {B : Type κ} (P : B → Type 0) (c : Bool) (o : Option B)
    → ((b : B) → o ≡ some b → P b)
    → (b : B) → (guard c >> o) ≡ some b
    → P b
guard-All P true o h b e = h b e
guard-All P false o h b e = absurd (cc)

pub either-All {κ} :
    {B : Type κ} (P : B → Type 0) (c : Bool) (x y : Option B)
    → ((b : B) → x ≡ some b → P b)
    → ((b : B) → y ≡ some b → P b)
    → (b : B) → (elim c [ true ↦ x | false ↦ y ]) ≡ some b
    → P b
either-All P true x y h k = h
either-All P false x y h k = k

pub some-All {κ} : {B : Type κ} (P : B → Type 0) (a : B) → P a → (b : B) → some a ≡ some b → P b
some-All P a p b e = subst P (some_inj e) p
