-- ===== src/Backup/Grouping/Placed.antt =====
-- src/backup.cc, groupFilesIntoTars: every entry is in one tar file, once.
use beak.Prelude.{
  ℕ, zero, suc, ◌+◌, ◌≤◌, ◌<◌, ◌≡◌, refl, some, List, [], ◌∷◌, ◌++◌, arith, ltb, ◌==◌,
  if◌then◌else◌, inl, inr, Bool-cases, All, length,
}
use beak.Prelude.Words.{u64_mod, add64_exact}
use beak.Tar.Entries.{TarEntry, Contents, TarFile, add_entry_last, add_hard_link}
use beak.Tar.Entries.Layout.{IsLaidOut, total_size}
use beak.Tar.Entries.Adding.{add_entry_last_lem}
use beak.Backup.Grouping.{Tars, new_tar, add_at, add_large}

-- How often an entry is there.
abbrev pub hit : ℕ → TarEntry → ℕ
hit i te = if te.id == i then 1 else 0

abbrev pub count_entries : ℕ → List TarEntry → ℕ
count_entries i [] = 0
count_entries i (te ∷ l) = hit i te + count_entries i l

abbrev pub count_contents : ℕ → Contents → ℕ
count_contents i [] = 0
count_contents i ((k, te) ∷ m) = hit i te + count_contents i m

abbrev pub count_file : ℕ → TarFile → ℕ
count_file i f = count_contents i f.contents + count_entries i f.hard_links

abbrev pub count_files : ℕ → List TarFile → ℕ
count_files i [] = 0
count_files i (f ∷ fs) = count_file i f + count_files i fs

abbrev pub count_large : ℕ → List (ℕ × TarFile) → ℕ
count_large i [] = 0
count_large i ((h, f) ∷ m) = count_file i f + count_large i m

abbrev pub count_tars : ℕ → Tars → ℕ
count_tars i t =
    count_files i t.small + count_files i t.medium + count_large i t.large + count_file i t.taz

-- A gapless tar file of at most `b` bytes, with the hard links that wait.
pub record IsFine (b : ℕ) (f : TarFile) : Type 0 where
  pub laid_out : IsLaidOut f
  pub within : f.current_tar_offset + total_size f.hard_links ≤ b
  pub links_sized : All (λ te. 0 < te.blocked_size) f.hard_links

pub record AreFine (b : ℕ) (t : Tars) : Type 0 where
  pub small_fine : All (IsFine b) t.small
  pub medium_fine : All (IsFine b) t.medium
  pub large_fine : All (λ (e : ℕ × TarFile). IsFine b e.1) t.large
  pub taz_fine : IsFine b t.taz

pub count_contents-append :
    (i : ℕ) (c d : Contents) → count_contents i (c ++ d) ≡ count_contents i c + count_contents i d
count_contents-append i [] d = omega arith
count_contents-append i ((k, te) ∷ c) d = omega (arith, count_contents-append i c d)

pub count_entries-append :
    (i : ℕ) (c d : List TarEntry) → count_entries i (c ++ d) ≡ count_entries i c + count_entries i d
count_entries-append i [] d = omega arith
count_entries-append i (te ∷ c) d = omega (arith, count_entries-append i c d)

total_size-append : (c d : List TarEntry) → total_size (c ++ d) ≡ total_size c + total_size d
total_size-append [] d = omega arith
total_size-append (te ∷ c) d = omega (arith, total_size-append c d)

same_links : (f : TarFile) (te : TarEntry) → (add_entry_last f te).hard_links ≡ f.hard_links
unfolding add_entry_last
same_links f te = refl

next_offset :
    (f : TarFile) (te : TarEntry)
    → f.current_tar_offset + te.blocked_size < u64_mod
    → (add_entry_last f te).current_tar_offset ≡ f.current_tar_offset + te.blocked_size
unfolding add_entry_last
next_offset f te h = add64_exact f.current_tar_offset te.blocked_size h

All-snoc :
    (l : List TarEntry) (te : TarEntry)
    → All (λ (e : TarEntry). 0 < e.blocked_size) l
    → 0 < te.blocked_size
    → All (λ (e : TarEntry). 0 < e.blocked_size) (l ++ te ∷ [])
All-snoc [] te v h = (h, tt)
All-snoc (x ∷ l) te (v, vs) h = (v, All-snoc l te vs h)

pub add_entry_last-IsFine :
    (i b : ℕ) (f : TarFile) (te : TarEntry)
    → IsFine b f
    → 0 < te.blocked_size
    → b + te.blocked_size < u64_mod
    → IsFine (b + te.blocked_size) (add_entry_last f te)
      × (count_file i (add_entry_last f te) ≡ hit i te + count_file i f)
add_entry_last-IsFine i b f te v h l =
    let fits : f.current_tar_offset + te.blocked_size < u64_mod = omega (arith, v.within) in
    let (laid, put) = add_entry_last_lem f te v.laid_out h fits in
    let added =
      count_contents-append i f.contents
        ((f.current_tar_offset, record te { tar_offset = f.current_tar_offset }) ∷ []) in
    (
      record {
        laid_out = laid;
        within = rw (same_links f te, next_offset f te fits) (omega (arith, v.within));
        links_sized = rw (same_links f te) v.links_sized;
      },
      rw (put, same_links f te) (omega (arith, added)),
    )

pub add_hard_link-IsFine :
    (i b : ℕ) (f : TarFile) (te : TarEntry)
    → IsFine b f
    → 0 < te.blocked_size
    → IsFine (b + te.blocked_size) (add_hard_link f te)
      × (count_file i (add_hard_link f te) ≡ hit i te + count_file i f)
unfolding add_hard_link
add_hard_link-IsFine i b f te v h = (
  record {
    laid_out = record { laid = v.laid_out.laid; keyed = v.laid_out.keyed; fits = v.laid_out.fits };
    within = omega (arith, v.within, total_size-append f.hard_links (te ∷ []));
    links_sized = All-snoc f.hard_links te v.links_sized h;
  },
  omega (arith, count_entries-append i f.hard_links (te ∷ [])),
)

pub IsFine-of_le : (b c : ℕ) (f : TarFile) → b ≤ c → IsFine b f → IsFine c f
IsFine-of_le b c f h v = record {
  laid_out = v.laid_out;
  within = omega (arith, v.within);
  links_sized = v.links_sized;
}

pub All-IsFine : (b c : ℕ) (fs : List TarFile) → b ≤ c → All (IsFine b) fs → All (IsFine c) fs
All-IsFine b c [] h v = tt
All-IsFine b c (f ∷ fs) h (v, vs) = (IsFine-of_le b c f h v, All-IsFine b c fs h vs)

pub large-IsFine :
    (b c : ℕ) (m : List (ℕ × TarFile))
    → b ≤ c
    → All (λ (e : ℕ × TarFile). IsFine b e.1) m
    → All (λ (e : ℕ × TarFile). IsFine c e.1) m
large-IsFine b c [] h v = tt
large-IsFine b c ((j, f) ∷ m) h (v, vs) = (IsFine-of_le b c f h v, large-IsFine b c m h vs)

pub add_at-IsFine :
    (i b o : ℕ) (fs : List TarFile) (te : TarEntry)
    → All (IsFine b) fs
    → 0 < te.blocked_size
    → b + te.blocked_size < u64_mod
    → o < length fs
    → (gs : List TarFile) × (add_at o te fs ≡ some gs)
      × All (IsFine (b + te.blocked_size)) gs
      × (count_files i gs ≡ hit i te + count_files i fs)
      × (length gs ≡ length fs)
unfolding add_at
add_at-IsFine i b o [] te v h l k = absurd (omega arith)
add_at-IsFine i b zero (f ∷ fs) te (v, vs) h l k =
    let (fine, count) = add_entry_last-IsFine i b f te v h l in
    (
      add_entry_last f te ∷ fs,
      refl,
      (fine, All-IsFine b (b + te.blocked_size) fs (omega arith) vs),
      omega (arith, count),
      refl,
    )
add_at-IsFine i b (suc o) (f ∷ fs) te (v, vs) h l k =
    let (gs, run, fine, count, same) = add_at-IsFine i b o fs te vs h l (omega arith) in
    (
      f ∷ gs,
      rw run refl,
      (IsFine-of_le b (b + te.blocked_size) f (omega arith) v, fine),
      omega (arith, count),
      omega (arith, same),
    )

pub new_tar-IsFine : (b : ℕ) → IsFine b new_tar
new_tar-IsFine b = record {
  laid_out = record { laid = refl; keyed = refl; fits = omega arith };
  within = omega arith;
  links_sized = tt;
}

pub add_large-IsFine :
    (i b h : ℕ) (m : List (ℕ × TarFile)) (te : TarEntry)
    → All (λ (e : ℕ × TarFile). IsFine b e.1) m
    → 0 < te.blocked_size
    → b + te.blocked_size < u64_mod
    → All (λ (e : ℕ × TarFile). IsFine (b + te.blocked_size) e.1) (add_large h te m)
      × (count_large i (add_large h te m) ≡ hit i te + count_large i m)
unfolding add_large
add_large-IsFine i b h [] te v k l =
    let (fine, count) = add_entry_last-IsFine i b new_tar te (new_tar-IsFine b) k l in
    ((fine, tt), omega (arith, count))
add_large-IsFine i b h ((j, f) ∷ m) te (v, vs) k l =
    let more : b ≤ b + te.blocked_size = omega arith in
    let tail = large-IsFine b (b + te.blocked_size) m more vs in
    let head = IsFine-of_le b (b + te.blocked_size) f more v in
    elim (Bool-cases (h == j)) [
      | inl e ↦
          let (fine, count) = add_entry_last-IsFine i b f te v k l in
          rw e ((fine, tail), omega (arith, count))
      | inr e ↦ elim (Bool-cases (ltb h j)) [
        | inl g ↦
            let (fine, count) = add_entry_last-IsFine i b new_tar te (new_tar-IsFine b) k l in
            rw (e, g) ((fine, (head, tail)), omega (arith, count))
        | inr g ↦
            let (fine, count) = add_large-IsFine i b h m te vs k l in
            rw (e, g) ((head, fine), omega (arith, count))
      ]
    ]
