-- ===== src/Backup/Grouping/Steps.antt =====
-- src/backup.cc, groupFilesIntoTars: the loop that places the entries.
use native.Mathlib.Nat.{mod-lt}
use beak.Prelude.{
  ℕ, ◌+◌, ◌%◌, ◌≤◌, ◌<◌, ◌≡◌, ◌∙◌, refl, Option, some, List, [], ◌∷◌, map, arith, ltb, inl, inr,
  Bool-cases, All, length, lt→ltb,
}
use beak.Prelude.Words.{u64_mod}
use beak.Tar.Entries.{TarEntry, add_entry_last, add_hard_link}
use beak.Backup.Sizes.{NumTars}
use beak.Backup.Sizes.Powers.{IsPlan, sum}
use beak.Backup.Grouping.{Member, Tars, add_large, place_file, place, place_all}
use beak.Backup.Grouping.Placed.{
  hit, count_entries, count_tars, AreFine, add_entry_last-IsFine, add_hard_link-IsFine,
  add_at-IsFine, add_large-IsFine, All-IsFine, large-IsFine, IsFine-of_le,
}

-- The numbers of tars are those of the plan.
pub record HasTars (n : NumTars) (t : Tars) : Type 0 where
  pub small_there : length t.small ≡ n.nst
  pub medium_there : length t.medium ≡ n.nmt

-- Placing an entry succeeds, and adds it to what the tars hold.
abbrev IsAdded : ℕ → ℕ → NumTars → Tars → TarEntry → Option Tars → Type 0
IsAdded i b n t te result =
    (u : Tars) × (result ≡ some u)
    × AreFine (b + te.blocked_size) u
    × HasTars n u
    × (count_tars i u ≡ hit i te + count_tars i t)

AreFine-of_le : (b c : ℕ) (t : Tars) → b ≤ c → AreFine b t → AreFine c t
AreFine-of_le b c t h v = record {
  small_fine = All-IsFine b c t.small h v.small_fine;
  medium_fine = All-IsFine b c t.medium h v.medium_fine;
  large_fine = large-IsFine b c t.large h v.large_fine;
  taz_fine = IsFine-of_le b c t.taz h v.taz_fine;
}

mod_below : (h n count : ℕ) → 0 < n → count ≡ n → h % n < count
mod_below h n count a e = rw e (mod-lt h a)

place_file-IsAdded :
    (i b target total : ℕ) (n : NumTars) (t : Tars) (m : Member)
    → IsPlan target total n
    → HasTars n t
    → AreFine b t
    → 0 < m.entry.blocked_size
    → b + m.entry.blocked_size < u64_mod
    → IsAdded i b n t m.entry (place_file n t m)
unfolding place_file
place_file-IsAdded i b target total n t m plan has v h l =
    let te = m.entry in
    let w = AreFine-of_le b (b + te.blocked_size) t (omega arith) v in
    elim (Bool-cases (ltb te.blocked_size n.sc)) [
      | inl e ↦
          let (fs, run, fine, count, same) =
            add_at-IsFine i b (m.tarpath_hash % n.nst) t.small te v.small_fine h l
              (mod_below m.tarpath_hash n.nst (length t.small) plan.some_small has.small_there) in
          (
            record t { small = fs },
            rw (e, lt→ltb 0 n.nst plan.some_small, run) refl,
            record {
              small_fine = fine;
              medium_fine = w.medium_fine;
              large_fine = w.large_fine;
              taz_fine = w.taz_fine;
            },
            record { small_there = same ∙ has.small_there; medium_there = has.medium_there },
            omega (arith, count),
          )
      | inr e ↦ elim (Bool-cases (ltb te.blocked_size n.mc)) [
        | inl g ↦
            let some_medium : 0 < n.nmt = elim plan.some_medium [
              | inl some_tars ↦ some_tars
              | inr all_small ↦ absurd (ground (arith, all_small))
            ] in
            let (fs, run, fine, count, same) =
              add_at-IsFine i b (m.tarpath_hash % n.nmt) t.medium te v.medium_fine h l
                (mod_below m.tarpath_hash n.nmt (length t.medium) some_medium has.medium_there) in
            (
              record t { medium = fs },
              rw (e, g, lt→ltb 0 n.nmt some_medium, run) refl,
              record {
                small_fine = w.small_fine;
                medium_fine = fine;
                large_fine = w.large_fine;
                taz_fine = w.taz_fine;
              },
              record { small_there = has.small_there; medium_there = same ∙ has.medium_there },
              omega (arith, count),
            )
        | inr g ↦
            let (fine, count) = add_large-IsFine i b m.tarpath_hash t.large te v.large_fine h l in
            (
              record t { large = add_large m.tarpath_hash te t.large },
              rw (e, g) refl,
              record {
                small_fine = w.small_fine;
                medium_fine = w.medium_fine;
                large_fine = fine;
                taz_fine = w.taz_fine;
              },
              record { small_there = has.small_there; medium_there = has.medium_there },
              omega (arith, count),
            )
      ]
    ]

place-IsAdded :
    (i b target total : ℕ) (n : NumTars) (t : Tars) (m : Member)
    → IsPlan target total n
    → HasTars n t
    → AreFine b t
    → 0 < m.entry.blocked_size
    → b + m.entry.blocked_size < u64_mod
    → IsAdded i b n t m.entry (place n t m)
unfolding place place_file
place-IsAdded i b target total n t m plan has v h l =
    let te = m.entry in
    let w = AreFine-of_le b (b + te.blocked_size) t (omega arith) v in
    let there : HasTars n t = has in
    elim (Bool-cases m.is_directory) [
      | inl e ↦
          let (fine, count) = add_entry_last-IsFine i b t.taz te v.taz_fine h l in
          (
            record t { taz = add_entry_last t.taz te },
            rw e refl,
            record {
              small_fine = w.small_fine;
              medium_fine = w.medium_fine;
              large_fine = w.large_fine;
              taz_fine = fine;
            },
            record { small_there = has.small_there; medium_there = has.medium_there },
            omega (arith, count),
          )
      | inr e ↦ elim (Bool-cases m.is_hard_link) [
        | inl g ↦
            let (fine, count) = add_hard_link-IsFine i b t.taz te v.taz_fine h in
            (
              record t { taz = add_hard_link t.taz te },
              rw (e, g) refl,
              record {
                small_fine = w.small_fine;
                medium_fine = w.medium_fine;
                large_fine = w.large_fine;
                taz_fine = fine;
              },
              record { small_there = has.small_there; medium_there = has.medium_there },
              omega (arith, count),
            )
        | inr g ↦ rw (e, g) (place_file-IsAdded i b target total n t m plan has v h l)
      ]
    ]

abbrev pub sizes_of : List Member → List ℕ
sizes_of = map (λ (m : Member). m.entry.blocked_size)

abbrev pub entries_of : List Member → List TarEntry
entries_of = map (λ (m : Member). m.entry)

pub place_all-AreFine :
    (i b target total : ℕ) (n : NumTars) (t : Tars) (ms : List Member)
    → IsPlan target total n
    → HasTars n t
    → AreFine b t
    → All (λ (m : Member). 0 < m.entry.blocked_size) ms
    → b + sum (sizes_of ms) < u64_mod
    → (u : Tars) × (place_all n t ms ≡ some u)
      × AreFine (b + sum (sizes_of ms)) u
      × (count_tars i u ≡ count_tars i t + count_entries i (entries_of ms))
unfolding place_all
place_all-AreFine i b target total n t [] plan has v h l =
    (t, refl, AreFine-of_le b (b + 0) t (omega arith) v, omega arith)
place_all-AreFine i b target total n t (m ∷ ms) plan has v (h, hs) l =
    let (u, run, fine, has_them, count) =
      place-IsAdded i b target total n t m plan has v h (omega arith) in
    let (w, runs, fines, counts) =
      place_all-AreFine i (b + m.entry.blocked_size) target total n u ms plan has_them fine hs
        (omega arith) in
    (
      w,
      rw run runs,
      AreFine-of_le (b + m.entry.blocked_size + sum (sizes_of ms)) (b + sum (sizes_of (m ∷ ms))) w
          (omega arith) fines,
      omega (arith, count, counts),
    )
