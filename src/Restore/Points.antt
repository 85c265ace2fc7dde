-- ===== src/Restore/Points.antt =====
-- src/restore.cc and src/restore.h: the points in time that a storage lists, and the choice of one.
-- `none` is RC::ERR, a null pointer, or the end in error(...). The text of an age, which is told
-- from the time when the program started, and the local time of a point are parameters.
pub mod Choice
pub mod Listing
use beak.Prelude.{
  ℕ, zero, suc, ◌+◌, ◌-◌, ◌*◌, ◌^◌, Bool, true, false, not, ◌&&◌, ◌||◌, Option, none, some, List,
  [], ◌∷◌, ◌++◌, ltb, leb, ◌==◌, if◌then◌else◌, ◌>>=◌, ◌>>◌, guard, Bytes, codes, length, drop, at,
  equal,
}
use beak.Prelude.Words.{u32_mod, u64_mod, add64, mul64, sub64}
use beak.Prelude.Decimal.{to_decimal, is_digit, all_digits}
use beak.Index.Rows.Eaten.{atoi}
use beak.Tar.Split.{is_index}
use beak.Tar.FileName.{TarFileName, new_tar_file_name, parse_file_name}

pub data PointInTimeFormat : Type 0 where
  absolute_point relative_point both_point : PointInTimeFormat

pub record PointInTime : Type 0 where
  pub key : ℕ
  pub sec : ℕ
  pub nsec : ℕ
  pub ago : Bytes
  pub datetime : Bytes
  pub direntry : Bytes
  pub filename : Bytes

-- point(): the nanoseconds, in 64 bits.
unfoldable pub nanoseconds : PointInTime → ℕ
nanoseconds p = add64 (mul64 1_000_000_000 p.sec) p.nsec

-- The comparison that sorts them.
unfoldable pub earlier : PointInTime → PointInTime → Bool
earlier a b = ltb a.sec b.sec || (b.sec == a.sec && ltb a.nsec b.nsec)

-- std::sort, which leaves open how points of one time are ordered.
unfoldable pub insert_point : PointInTime → List PointInTime → List PointInTime
insert_point p [] = p ∷ []
insert_point p (q ∷ qs) =
    let rest = insert_point p qs in if earlier q p then q ∷ rest else p ∷ q ∷ qs

unfoldable pub sort_points : List PointInTime → List PointInTime
sort_points [] = []
sort_points (p ∷ ps) = insert_point p (sort_points ps)

unfoldable pub entry_name : PointInTimeFormat → ℕ → PointInTime → Bytes
entry_name absolute_point i p = p.datetime
entry_name relative_point i p = b'@' ∷ (to_decimal i ++ b' ' ∷ p.ago)
entry_name both_point i p = b'@' ∷ (to_decimal i ++ b' ' ∷ (p.datetime ++ b' ' ∷ p.ago))

-- map::count: zero or one.
unfoldable pub count : Bytes → List Bytes → ℕ
count de [] = 0
count de (s ∷ seen) = let rest = count de seen in if equal s de then 1 else rest

-- The keys and the entries of the directory; `seen` are the keys of `points`.
unfoldable pub name_points :
    PointInTimeFormat → ℕ → List Bytes → List PointInTime → List PointInTime
name_points f i seen [] = []
name_points f i seen (p ∷ ps) =
    let de = entry_name f i p in
    let c = count de seen in
    record p { key = i; direntry = if c == 0 then de else de ++ b'_' ∷ to_decimal c }
    ∷ name_points f (i + 1) (de ∷ seen) ps

-- points_in_time_[s]: the last point that was put under the name.
unfoldable pub find_point_in_time : Bytes → List PointInTime → Option PointInTime
find_point_in_time s [] = none
find_point_in_time s (p ∷ ps) = elim (find_point_in_time s ps) [
  | none ↦ if equal p.direntry s then some p else none
  | some q ↦ some q
]

-- The history from the names of the files of a storage, the oldest first.
module _ (time_ago : ℕ → ℕ → Bytes) (local_minute : ℕ → Bytes) where
  unfoldable pub new_point : Bytes → TarFileName → PointInTime
  new_point f tfn = record {
    key = 0;
    sec = tfn.sec;
    nsec = tfn.nsec;
    ago = time_ago tfn.sec tfn.nsec;
    datetime = local_minute tfn.sec;
    direntry = [];
    filename = f;
  }

  unfoldable pub index_points : List Bytes → List PointInTime
  index_points [] = []
  index_points (f ∷ fs) =
      let rest = index_points fs in
      elim (parse_file_name new_tar_file_name f) [
        | none ↦ rest
        | some tfn ↦ if is_index tfn.type then new_point f tfn ∷ rest else rest
      ]

  -- `contents` is what readdir lists, if it can; `path` is null or not.
  unfoldable pub look_for_points_in_time :
      PointInTimeFormat → Option (List Bytes) → Option (List PointInTime)
  look_for_points_in_time f contents = do
    names ← contents
    let history = index_points names
    guard (ltb 0 (length history))
    some (name_points f 0 [] (sort_points history))

unfoldable pub nth_point : ℕ → List PointInTime → Option PointInTime
nth_point n [] = none
nth_point zero (p ∷ ps) = some p
nth_point (suc n) (p ∷ ps) = nth_point n ps

-- An int as a size_t.
unfoldable pub as_size : ℕ → ℕ
as_size i = if ltb i (2 ^ 31) then i else i + (u64_mod - u32_mod)

-- The point that "@0", "@1" and so on name; inside, the null pointer.
unfoldable pub set_point_in_time : Bytes → List PointInTime → Option (Option PointInTime)
set_point_in_time g history =
    if ltb (length g) 2 || not (at g 0 == b'@')
    then none
    else if not (all_digits (drop 1 g))
    then some none
    else (let gg = as_size (atoi (drop 1 g)) in
        let place = length history - gg - 1 in
        if leb (length history) gg then some none else some (nth_point place history))

unfoldable pub set_point_in_time_at : ℕ → List PointInTime → Option PointInTime
set_point_in_time_at point [] = none
set_point_in_time_at point (p ∷ ps) =
    let rest = set_point_in_time_at point ps in if nanoseconds p == point then some p else rest
