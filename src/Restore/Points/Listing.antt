-- ===== src/Restore/Points/Listing.antt =====
-- src/restore.cc, lookForPointsInTime and findPointInTime: the directories under which the points
-- in time are listed.
use beak.Prelude.{
  ℕ, zero, suc, ◌+◌, ◌<◌, ◌≡◌, ◌∙◌, refl, sym, false, Option, none, some, List, [], ◌∷◌, ◌++◌,
  arith, ◌==◌, inl, inr, Bool-cases, ap, subst, Bytes, equal, equal_iff, if◌then◌else◌, ltb, length,
  guard, some_inj, >>=-eq-some,
}
use beak.Prelude.Decimal.{to_decimal, number-to_decimal, to_decimal-digits, is_digit}
use beak.Index.Rows.Eaten.{leading}
use beak.Index.Rows.Columns.{append_assoc}
use beak.Index.Loading.Numbers.{leading-append}
use beak.Restore.Points.{
  PointInTimeFormat, absolute_point, relative_point, both_point, PointInTime, entry_name, count,
  name_points, find_point_in_time, index_points, sort_points, look_for_points_in_time, nth_point,
}

-- The formats whose names begin with the number of the point.
abbrev pub IsNumbered : PointInTimeFormat → Type 0
IsNumbered absolute_point = ⊥
IsNumbered relative_point = Unit
IsNumbered both_point = Unit

abbrev HasNumber : ℕ → Bytes → Type 0
HasNumber i s = (t : Bytes) × (s ≡ b'@' ∷ (to_decimal i ++ b' ' ∷ t))

number_of : Bytes → ℕ
number_of [] = 0
number_of (c ∷ s) = leading 0 s

blank : is_digit b' ' ≡ false
unfolding is_digit
blank = refl

number_of-HasNumber : (i : ℕ) (s : Bytes) → HasNumber i s → number_of s ≡ i
unfolding number_of
number_of-HasNumber i s (t, e) =
    ap number_of e
    ∙ leading-append 0 (to_decimal i) b' ' t (to_decimal-digits i) blank
    ∙ number-to_decimal i

equal-HasNumber :
    (i j : ℕ) (s r : Bytes) → HasNumber i s → HasNumber j r → i < j → equal r s ≡ false
equal-HasNumber i j s r h k l = elim (Bool-cases (equal r s)) [
  | inl e ↦
      let same : j ≡ i =
        sym (number_of-HasNumber j r k)
        ∙ ap number_of ((equal_iff r s).0 e)
        ∙ number_of-HasNumber i s h in
      absurd (omega arith)
  | inr e ↦ e
]

-- With or without a suffix.
append-HasNumber : (i : ℕ) (s r : Bytes) → HasNumber i s → HasNumber i (s ++ r)
append-HasNumber i s r (t, e) = (
  t ++ r,
  ap (λ (x : Bytes). x ++ r) e
      ∙ ap (λ (x : Bytes). b'@' ∷ x) (append_assoc (to_decimal i) (b' ' ∷ t) r),
)

entry_name-HasNumber :
    (f : PointInTimeFormat) (i : ℕ) (p : PointInTime)
    → IsNumbered f
    → HasNumber i (entry_name f i p)
unfolding entry_name
entry_name-HasNumber absolute_point i p h = elim h [ ]
entry_name-HasNumber relative_point i p h = (p.ago, refl)
entry_name-HasNumber both_point i p h = (p.datetime ++ b' ' ∷ p.ago, refl)

direntry-HasNumber :
    (f : PointInTimeFormat) (i c : ℕ) (p : PointInTime)
    → IsNumbered f
    → HasNumber i (if c == 0 then entry_name f i p else entry_name f i p ++ b'_' ∷ to_decimal c)
direntry-HasNumber f i c p h = elim (Bool-cases (c == 0)) [
  | inl e ↦ rw e (entry_name-HasNumber f i p h)
  | inr e ↦
      rw e
        (append-HasNumber i (entry_name f i p) (b'_' ∷ to_decimal c) (entry_name-HasNumber f i p h))
]

find_later :
    (f : PointInTimeFormat) (i j : ℕ) (s : Bytes) (seen : List Bytes) (ps : List PointInTime)
    → IsNumbered f
    → HasNumber i s
    → i < j
    → find_point_in_time s (name_points f j seen ps) ≡ none
unfolding find_point_in_time name_points
find_later f i j s seen [] n h l = refl
find_later f i j s seen (p ∷ ps) n h l =
    rw
      (
        find_later f i (j + 1) s (entry_name f j p ∷ seen) ps n h (omega arith),
        equal-HasNumber i j s _ h (direntry-HasNumber f j (count (entry_name f j p) seen) p n) l,
      )
      refl

find_head :
    (q : PointInTime) (rest : List PointInTime)
    → find_point_in_time q.direntry rest ≡ none
    → find_point_in_time q.direntry (q ∷ rest) ≡ some q
unfolding find_point_in_time
find_head q rest h = rw (h, (equal_iff q.direntry q.direntry).1 refl) refl

find_nth :
    (f : PointInTimeFormat) (i k : ℕ) (seen : List Bytes) (ps : List PointInTime) (p : PointInTime)
    → IsNumbered f
    → nth_point k (name_points f i seen ps) ≡ some p
    → find_point_in_time p.direntry (name_points f i seen ps) ≡ some p
unfolding find_point_in_time name_points nth_point
find_nth f i k seen [] p n h = absurd (cc)
find_nth f i zero seen (q ∷ ps) p n h =
    subst
      (λ (r : PointInTime). find_point_in_time r.direntry (name_points f i seen (q ∷ ps)) ≡ some r)
      (some_inj h)
      (find_head _ (name_points f (i + 1) (entry_name f i q ∷ seen) ps) (
        find_later f i (i + 1) _ (entry_name f i q ∷ seen) ps n
          (direntry-HasNumber f i (count (entry_name f i q) seen) q n) (omega arith)))
find_nth f i (suc k) seen (q ∷ ps) p n h =
    rw (find_nth f (i + 1) k (entry_name f i q ∷ seen) ps p n h) refl

-- Where the directories of the points in time are named by number, relative or with the date, each
-- point that the search finds is found again by the name of its directory.
pub find_point_in_time-direntry :
    (time_ago : ℕ → ℕ → Bytes) (local_minute : ℕ → Bytes) (f : PointInTimeFormat)
    (contents : Option (List Bytes)) (history : List PointInTime) (k : ℕ) (p : PointInTime)
    → IsNumbered f
    → look_for_points_in_time time_ago local_minute f contents ≡ some history
    → nth_point k history ≡ some p
    → find_point_in_time p.direntry history ≡ some p
unfolding look_for_points_in_time
find_point_in_time-direntry time_ago local_minute f none history k p n h found = absurd (cc)
find_point_in_time-direntry time_ago local_minute f (some names) history k p n h found =
    let points = sort_points (index_points time_ago local_minute names) in
    let (done, passed, same) =
      >>=-eq-some (guard (ltb 0 (length (index_points time_ago local_minute names)))) _ h in
    subst (λ (r : List PointInTime). find_point_in_time p.direntry r ≡ some p) (some_inj same)
      (find_nth f 0 k [] points p n (ap (nth_point k) (some_inj same) ∙ found))
