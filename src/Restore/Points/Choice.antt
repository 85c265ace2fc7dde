-- ===== src/Restore/Points/Choice.antt =====
-- src/restore.cc, setPointInTime after lookForPointsInTime: which point a number names.
use beak.Prelude.{
  ℕ, zero, suc, ◌+◌, ◌-◌, ◌^◌, ◌≤◌, ◌<◌, ◌≡◌, ◌∙◌, refl, sym, true, false, not, ◌||◌, Option, none,
  some, List, [], ◌∷◌, ◌++◌, arith, ltb, ◌==◌, inl, inr, Bool-cases, ap, Bytes, length, All,
  >>=-eq-some, subst, some_inj, guard, at, lt→ltb, lt→leb,
}
use beak.Prelude.Decimal.{to_decimal, to_decimal-digits, to_decimal-nonempty}
use beak.Index.Rows.Columns.{atoi-to_decimal}
use beak.Restore.Points.{
  PointInTimeFormat, PointInTime, earlier, insert_point, sort_points, name_points,
  look_for_points_in_time, index_points, nth_point, as_size, set_point_in_time, entry_name, count,
}

-- Not later than any of them.
abbrev pub NoneBefore : PointInTime → List PointInTime → Type 0
NoneBefore p = All (λ q. earlier q p ≡ false)

abbrev pub NoneAfter : PointInTime → List PointInTime → Type 0
NoneAfter p = All (λ q. earlier p q ≡ false)

-- From the oldest on.
abbrev IsOrdered : List PointInTime → Type 0
IsOrdered [] = Unit
IsOrdered (p ∷ ps) = NoneBefore p ps × IsOrdered ps

earlier_trans :
    (a b c : PointInTime) → earlier b a ≡ false → earlier c b ≡ false → earlier c a ≡ false
unfolding earlier
earlier_trans a b c h k = ground arith

earlier_asym : (a b : PointInTime) → earlier a b ≡ true → earlier b a ≡ false
unfolding earlier
earlier_asym a b h = ground arith

NoneBefore-of_earlier :
    (a b : PointInTime) (ps : List PointInTime)
    → earlier b a ≡ false
    → NoneBefore b ps
    → NoneBefore a ps
NoneBefore-of_earlier a b [] h k = tt
NoneBefore-of_earlier a b (c ∷ ps) h (k, ks) =
    (earlier_trans a b c h k, NoneBefore-of_earlier a b ps h ks)

NoneBefore-insert_point :
    (a p : PointInTime) (ps : List PointInTime)
    → earlier p a ≡ false
    → NoneBefore a ps
    → NoneBefore a (insert_point p ps)
unfolding insert_point
NoneBefore-insert_point a p [] h k = (h, tt)
NoneBefore-insert_point a p (q ∷ ps) h (k, ks) = elim (Bool-cases (earlier q p)) [
  | inl e ↦ rw e (k, NoneBefore-insert_point a p ps h ks)
  | inr e ↦ rw e (h, (k, ks))
]

insert_point-IsOrdered :
    (p : PointInTime) (ps : List PointInTime) → IsOrdered ps → IsOrdered (insert_point p ps)
unfolding insert_point
insert_point-IsOrdered p [] h = (tt, tt)
insert_point-IsOrdered p (q ∷ ps) (h, hs) = elim (Bool-cases (earlier q p)) [
  | inl e ↦
      rw e (NoneBefore-insert_point q p ps (earlier_asym q p e) h, insert_point-IsOrdered p ps hs)
  | inr e ↦ rw e ((e, NoneBefore-of_earlier p q ps e h), (h, hs))
]

sort_points-IsOrdered : (ps : List PointInTime) → IsOrdered (sort_points ps)
unfolding sort_points
sort_points-IsOrdered [] = tt
sort_points-IsOrdered (p ∷ ps) =
    insert_point-IsOrdered p (sort_points ps) (sort_points-IsOrdered ps)

NoneBefore-name_points :
    (f : PointInTimeFormat) (i : ℕ) (seen : List Bytes) (p q : PointInTime) (ps : List PointInTime)
    → p.sec ≡ q.sec
    → p.nsec ≡ q.nsec
    → NoneBefore p ps
    → NoneBefore q (name_points f i seen ps)
unfolding name_points earlier
NoneBefore-name_points f i seen p q [] a b h = tt
NoneBefore-name_points f i seen p q (r ∷ ps) a b (h, hs) =
    (rw (sym a, sym b) h, NoneBefore-name_points f (i + 1) (entry_name f i r ∷ seen) p q ps a b hs)

name_points-IsOrdered :
    (f : PointInTimeFormat) (i : ℕ) (seen : List Bytes) (ps : List PointInTime)
    → IsOrdered ps
    → IsOrdered (name_points f i seen ps)
unfolding name_points
name_points-IsOrdered f i seen [] h = tt
name_points-IsOrdered f i seen (p ∷ ps) (h, hs) = (
  NoneBefore-name_points f (i + 1) (entry_name f i p ∷ seen) p _ ps refl refl h,
  name_points-IsOrdered f (i + 1) (entry_name f i p ∷ seen) ps hs,
)

-- The place of a point: so many stand behind it, none of them earlier; none in front is later.
abbrev pub IsPlaced : ℕ → PointInTime → List PointInTime → Type 0
IsPlaced n p history =
    (older : List PointInTime) × (newer : List PointInTime) × (history ≡ older ++ p ∷ newer)
    × (length newer ≡ n)
    × NoneAfter p older
    × NoneBefore p newer

earlier-of_NoneBefore :
    (q p : PointInTime) (older newer : List PointInTime)
    → NoneBefore q (older ++ p ∷ newer)
    → earlier p q ≡ false
earlier-of_NoneBefore q p [] newer (h, hs) = h
earlier-of_NoneBefore q p (r ∷ older) newer (h, hs) = earlier-of_NoneBefore q p older newer hs

look_for_points_in_time-IsOrdered :
    (time_ago : ℕ → ℕ → Bytes) (local_minute : ℕ → Bytes) (f : PointInTimeFormat)
    (contents : Option (List Bytes)) (history : List PointInTime)
    → look_for_points_in_time time_ago local_minute f contents ≡ some history
    → IsOrdered history
unfolding look_for_points_in_time
look_for_points_in_time-IsOrdered time_ago local_minute f none history h = absurd (cc)
look_for_points_in_time-IsOrdered time_ago local_minute f (some names) history h =
    let points = index_points time_ago local_minute names in
    let (done, passed, same) = >>=-eq-some (guard (ltb 0 (length points))) _ h in
    subst IsOrdered (some_inj same)
      (name_points-IsOrdered f 0 [] (sort_points points) (sort_points-IsOrdered points))

nth_point-IsPlaced :
    (n k : ℕ) (ps : List PointInTime)
    → IsOrdered ps
    → length ps ≡ k + suc n
    → (p : PointInTime) × (nth_point k ps ≡ some p) × IsPlaced n p ps
unfolding nth_point
nth_point-IsPlaced n k [] h e = absurd (omega arith)
nth_point-IsPlaced n zero (p ∷ ps) (h, hs) e = (p, refl, ([], ps, refl, omega arith, tt, h))
nth_point-IsPlaced n (suc k) (q ∷ ps) (h, hs) e =
    let (p, found, (older, newer, same, count, a, b)) =
      nth_point-IsPlaced n k ps hs (omega arith) in
    let first = earlier-of_NoneBefore q p older newer (subst (NoneBefore q) same h) in
    (p, found, (q ∷ older, newer, ap (λ (r : List PointInTime). q ∷ r) same, count, (first, a), b))

set_point_in_time-nth_point :
    (n : ℕ) (history : List PointInTime)
    → n < length history
    → length history ≤ 2 ^ 31
    → set_point_in_time (b'@' ∷ to_decimal n) history
      ≡ some (nth_point (length history - n - 1) history)
unfolding set_point_in_time as_size at
set_point_in_time-nth_point n history h k =
    let text : (ltb (suc (length (to_decimal n))) 2 || not (b'@' == b'@')) ≡ false =
      ground (arith, to_decimal-nonempty n) in
    rw
      (
        text,
        to_decimal-digits n,
        atoi-to_decimal n (omega arith),
        lt→ltb n (2 ^ 31) (omega arith),
        lt→leb (length history) n h,
      )
      refl

-- Where the search for points in time finds fewer than a billion, "@" and a number below their
-- count choose a point that so many others stand behind, none of which is earlier, and no other
-- point is later.
pub set_point_in_time-IsPlaced :
    (time_ago : ℕ → ℕ → Bytes) (local_minute : ℕ → Bytes) (f : PointInTimeFormat)
    (contents : Option (List Bytes)) (history : List PointInTime) (n : ℕ)
    → look_for_points_in_time time_ago local_minute f contents ≡ some history
    → n < length history
    → length history < 1_000_000_000
    → (p : PointInTime) × (set_point_in_time (b'@' ∷ to_decimal n) history ≡ some (some p))
      × IsPlaced n p history
set_point_in_time-IsPlaced time_ago local_minute f contents history n h k l =
    let (p, found, placed) =
      nth_point-IsPlaced n (length history - n - 1) history
        (look_for_points_in_time-IsOrdered time_ago local_minute f contents history h)
        (omega arith) in
    (p, set_point_in_time-nth_point n history k (omega arith) ∙ ap some found, placed)
