-- ===== src/Backup/Grouping/Links.antt =====
-- src/backup.cc, groupFilesIntoTars: hard links wait in the taz file only.
use beak.Prelude.{
  ℕ, zero, suc, ◌%◌, ◌≡◌, refl, true, false, Option, some, List, [], ◌∷◌, ltb, ◌==◌, inl, inr,
  Bool-cases, All, subst, Bool, guard, ◌>>◌, >>=-eq-some, some_inj,
}
use beak.Tar.Entries.{TarEntry, TarFile, add_entry_last}
use beak.Backup.Sizes.{NumTars}
use beak.Backup.Grouping.{
  Member, Tars, create_tars, add_at, add_large, place_file, place, place_all, start_tars,
}

-- No hard link waits outside of the contents of the file.
abbrev pub HasNone : TarFile → Type 0
HasNone f = f.hard_links ≡ []

-- None waits but in the taz file.
pub record AreUnlinked (t : Tars) : Type 0 where
  pub small_unlinked : All HasNone t.small
  pub medium_unlinked : All HasNone t.medium
  pub large_unlinked : All (λ (e : ℕ × TarFile). HasNone e.1) t.large

create_tars-HasNone : (n : ℕ) → All HasNone (create_tars n)
unfolding create_tars
create_tars-HasNone zero = tt
create_tars-HasNone (suc n) = (refl, create_tars-HasNone n)

pub start_tars-AreUnlinked : (n : NumTars) → AreUnlinked (start_tars n)
unfolding start_tars
start_tars-AreUnlinked n = record {
  small_unlinked = create_tars-HasNone n.nst;
  medium_unlinked = create_tars-HasNone n.nmt;
  large_unlinked = tt;
}

add_entry_last-HasNone : (f : TarFile) (te : TarEntry) → HasNone f → HasNone (add_entry_last f te)
unfolding add_entry_last
add_entry_last-HasNone f te h = h

add_at-HasNone :
    (o : ℕ) (te : TarEntry) (fs gs : List TarFile)
    → add_at o te fs ≡ some gs
    → All HasNone fs
    → All HasNone gs
unfolding add_at
add_at-HasNone o te [] gs run h = absurd (cc)
add_at-HasNone zero te (f ∷ fs) gs run (h, hs) =
    subst (λ (l : List TarFile). All HasNone l) (some_inj run) (add_entry_last-HasNone f te h, hs)
add_at-HasNone (suc o) te (f ∷ fs) gs run (h, hs) =
    let (rest, runs, same) = >>=-eq-some (add_at o te fs) _ run in
    subst (λ (l : List TarFile). All HasNone l) (some_inj same)
      (h, add_at-HasNone o te fs rest runs hs)

add_large-HasNone :
    (k : ℕ) (te : TarEntry) (m : List (ℕ × TarFile))
    → All (λ (e : ℕ × TarFile). HasNone e.1) m
    → All (λ (e : ℕ × TarFile). HasNone e.1) (add_large k te m)
unfolding add_large add_entry_last
add_large-HasNone k te [] h = (refl, tt)
add_large-HasNone k te ((j, f) ∷ m) (h, hs) = elim (Bool-cases (k == j)) [
  | inl e ↦ rw e (add_entry_last-HasNone f te h, hs)
  | inr e ↦ elim (Bool-cases (ltb k j)) [
    | inl g ↦ rw (e, g) (refl, (h, hs))
    | inr g ↦ rw (e, g) (h, add_large-HasNone k te m hs)
  ]
]

past_guard : (b : Bool) (o : Option Tars) (u : Tars) → (guard b >> o) ≡ some u → o ≡ some u
past_guard true o u run = run
past_guard false o u run = absurd (cc)

place_file-AreUnlinked :
    (n : NumTars) (t u : Tars) (m : Member)
    → place_file n t m ≡ some u
    → AreUnlinked t
    → AreUnlinked u
unfolding place_file
place_file-AreUnlinked n t u m run v = elim (Bool-cases (ltb m.entry.blocked_size n.sc)) [
  | inl e ↦
      let placed = past_guard (ltb 0 n.nst) _ u (rw e at run) in
      let (fs, added, same) =
        >>=-eq-some (add_at (m.tarpath_hash % n.nst) m.entry t.small)
          (λ fs. some (record t { small = fs })) placed in
      subst AreUnlinked (some_inj same) (record {
        small_unlinked =
            add_at-HasNone (m.tarpath_hash % n.nst) m.entry t.small fs added v.small_unlinked;
        medium_unlinked = v.medium_unlinked;
        large_unlinked = v.large_unlinked;
      })
  | inr e ↦ elim (Bool-cases (ltb m.entry.blocked_size n.mc)) [
    | inl g ↦
        let placed = past_guard (ltb 0 n.nmt) _ u (rw (e, g) at run) in
        let (fs, added, same) =
          >>=-eq-some (add_at (m.tarpath_hash % n.nmt) m.entry t.medium)
            (λ fs. some (record t { medium = fs })) placed in
        subst AreUnlinked (some_inj same) (record {
          small_unlinked = v.small_unlinked;
          medium_unlinked =
              add_at-HasNone (m.tarpath_hash % n.nmt) m.entry t.medium fs added v.medium_unlinked;
          large_unlinked = v.large_unlinked;
        })
    | inr g ↦ subst AreUnlinked (some_inj (rw (e, g) at run)) (record {
      small_unlinked = v.small_unlinked;
      medium_unlinked = v.medium_unlinked;
      large_unlinked = add_large-HasNone m.tarpath_hash m.entry t.large v.large_unlinked;
    })
  ]
]

place-AreUnlinked :
    (n : NumTars) (t u : Tars) (m : Member) → place n t m ≡ some u → AreUnlinked t → AreUnlinked u
unfolding place place_file
place-AreUnlinked n t u m run v = elim (Bool-cases m.is_directory) [
  | inl e ↦ subst AreUnlinked (some_inj (rw e at run)) (record {
    small_unlinked = v.small_unlinked;
    medium_unlinked = v.medium_unlinked;
    large_unlinked = v.large_unlinked;
  })
  | inr e ↦ elim (Bool-cases m.is_hard_link) [
    | inl g ↦ subst AreUnlinked (some_inj (rw (e, g) at run)) (record {
      small_unlinked = v.small_unlinked;
      medium_unlinked = v.medium_unlinked;
      large_unlinked = v.large_unlinked;
    })
    | inr g ↦ place_file-AreUnlinked n t u m (rw (e, g) at run) v
  ]
]

pub place_all-AreUnlinked :
    (n : NumTars) (t u : Tars) (ms : List Member)
    → place_all n t ms ≡ some u
    → AreUnlinked t
    → AreUnlinked u
unfolding place_all
place_all-AreUnlinked n t u [] run v = subst AreUnlinked (some_inj run) v
place_all-AreUnlinked n t u (m ∷ ms) run v =
    let (w, first, rest) = >>=-eq-some (place n t m) _ run in
    place_all-AreUnlinked n w u ms rest (place-AreUnlinked n t w m first v)
