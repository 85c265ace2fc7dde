-- ===== src/Tar/Entries/Adding.antt =====
-- src/tarfile.cc: adding entries to a TarFile keeps them in one gapless row from offset 0.
use mathlib.Core.List.{append-nil, append_assoc}
use beak.Prelude.{ℕ, ◌+◌, ◌<◌, ◌≡◌, refl, List, [], ◌∷◌, ◌++◌, arith, sym, ap, subst, ◌∙◌, All}
use beak.Prelude.Words.{u64_mod, add64, add64_exact}
use beak.Tar.Entries.{
  Timespec, TarEntry, Contents, TarFile, put_entry, add_entry_last, add_entry_first, blocked_sum,
  place_links, prepend_hard_links, update_mtim,
}
use beak.Tar.Entries.Layout.{
  Laid, keys, IsLaidOut, shifted, placed, total_size, put_entry_end, Laid-snoc, keys-append,
  Laid-append, Laid-shifted, move_up_lem,
}

-- The time after every link has handed its own on.
abbrev latest : List TarEntry → Timespec → Timespec
latest [] mtim = mtim
latest (te ∷ l) mtim = latest l (update_mtim te.mtim mtim)

-- The loop over the hard links appends them in a row, with their offsets.
place_links_lem :
    (o : ℕ) (l : List TarEntry) (done : Contents) (newo : List ℕ) (mtim : Timespec)
    → Laid 0 done o
    → All (λ te. 0 < te.blocked_size) l
    → o + total_size l < u64_mod
    → place_links l done newo mtim o
      ≡ (done ++ placed o l, newo ++ keys (placed o l), latest l mtim)
unfolding place_links
place_links_lem o [] done newo mtim d p w = simp append-nil
place_links_lem o (te ∷ l) done newo mtim d p w =
    let here = record te { tar_offset = o } in
    let exact : add64 o te.blocked_size ≡ o + te.blocked_size =
      add64_exact o te.blocked_size (omega arith) in
    rw (exact, put_entry_end 0 o done here d)
      (place_links_lem (o + te.blocked_size) l (done ++ (o, here) ∷ []) (newo ++ o ∷ [])
          (update_mtim te.mtim mtim) (Laid-snoc 0 o done here d refl p.0) p.1 (omega arith)
        ∙ simp append_assoc)

Laid-placed :
    (o : ℕ) (l : List TarEntry)
    → All (λ te. 0 < te.blocked_size) l
    → Laid o (placed o l) (o + total_size l)
Laid-placed o [] p = omega arith
Laid-placed o (te ∷ l) p = (
  refl,
  refl,
  p.0,
  let e : o + te.blocked_size + total_size l ≡ o + (te.blocked_size + total_size l) = omega arith in
      subst (λ (x : ℕ). Laid (o + te.blocked_size) (placed (o + te.blocked_size) l) x) e
        (Laid-placed (o + te.blocked_size) l p.1),
)

blocked_sum_lem :
    (l : List TarEntry) (acc : ℕ)
    → acc + total_size l < u64_mod
    → blocked_sum l acc ≡ acc + total_size l
unfolding blocked_sum
blocked_sum_lem [] acc h = omega arith
blocked_sum_lem (te ∷ l) acc h =
    rw (add64_exact acc te.blocked_size (omega arith))
      (blocked_sum_lem l (acc + te.blocked_size) (omega arith) ∙ omega arith)

-- An entry of some size that is added last, while sizes stay below 2^64, goes behind the others,
-- which keep their places; the row stays gapless.
pub add_entry_last_lem :
    (f : TarFile) (te : TarEntry)
    → IsLaidOut f
    → 0 < te.blocked_size
    → f.current_tar_offset + te.blocked_size < u64_mod
    → IsLaidOut (add_entry_last f te)
      × ((add_entry_last f te).contents
          ≡ f.contents
            ++ (f.current_tar_offset, record te { tar_offset = f.current_tar_offset }) ∷ [])
unfolding add_entry_last
add_entry_last_lem f te v b w =
    let here = record te { tar_offset = f.current_tar_offset } in
    let put = put_entry_end 0 f.current_tar_offset f.contents here v.laid in
    let exact = add64_exact f.current_tar_offset te.blocked_size w in
    (
      record {
        laid = rw (put, exact) (Laid-snoc 0 f.current_tar_offset f.contents here v.laid refl b);
        keyed = rw (put, keys-append f.contents ((f.current_tar_offset, here) ∷ []), v.keyed) refl;
        fits = rw exact w;
      },
      put,
    )

-- An entry of some size that is added first takes offset 0, and every other entry moves up by its
-- size; the row stays gapless.
pub add_entry_first_lem :
    (f : TarFile) (te : TarEntry)
    → IsLaidOut f
    → 0 < te.blocked_size
    → f.current_tar_offset + te.blocked_size < u64_mod
    → IsLaidOut (add_entry_first f te)
      × ((add_entry_first f te).contents
          ≡ (0, record te { tar_offset = 0 }) ∷ shifted te.blocked_size f.contents)
unfolding add_entry_first put_entry
add_entry_first_lem f te v b w =
    let here = record te { tar_offset = 0 } in
    let moved =
      move_up_lem te.blocked_size 0 0 f.current_tar_offset f.contents ((0, here) ∷ []) (0 ∷ [])
        (refl, refl, b, refl) v.laid w in
    let exact = add64_exact f.current_tar_offset te.blocked_size w in
    (
      record {
        laid =
            rw (moved, exact)
              (
                refl,
                refl,
                b,
                Laid-shifted te.blocked_size 0 f.current_tar_offset f.contents v.laid,
              );
        keyed = rw moved refl;
        fits = rw exact w;
      },
      ap (λ r. r.0) moved,
    )

-- Prepending puts the collected hard links in front, in the order in which they came, and moves
-- every other entry up by their sizes together; the row stays gapless and the collection empties.
pub prepend_hard_links_lem :
    (f : TarFile)
    → IsLaidOut f
    → All (λ te. 0 < te.blocked_size) f.hard_links
    → f.current_tar_offset + total_size f.hard_links < u64_mod
    → IsLaidOut (prepend_hard_links f)
      × ((prepend_hard_links f).contents
          ≡ placed 0 f.hard_links ++ shifted (total_size f.hard_links) f.contents)
      × ((prepend_hard_links f).hard_links ≡ [])
unfolding prepend_hard_links
prepend_hard_links_lem f v p w =
    let total = total_size f.hard_links in
    let links = placed 0 f.hard_links in
    let sum : blocked_sum f.hard_links 0 ≡ total =
      blocked_sum_lem f.hard_links 0 (omega arith) ∙ omega arith in
    let put = place_links_lem 0 f.hard_links [] [] f.mtim refl p (omega arith) in
    let moved =
      move_up_lem total 0 0 f.current_tar_offset f.contents links (keys links)
        (Laid-placed 0 f.hard_links p) v.laid w in
    let exact = add64_exact f.current_tar_offset total w in
    let e : 0 + total ≡ total = omega arith in
    let row : Laid 0 links total =
      subst (λ (x : ℕ). Laid 0 links x) e (Laid-placed 0 f.hard_links p) in
    let rest : Laid total (shifted total f.contents) (f.current_tar_offset + total) =
      subst (λ (x : ℕ). Laid x (shifted total f.contents) (f.current_tar_offset + total)) e
        (Laid-shifted total 0 f.current_tar_offset f.contents v.laid) in
    (
      record {
        laid =
            rw (sum, put, moved, exact)
              (Laid-append 0 total (f.current_tar_offset + total) links (shifted total f.contents)
                row rest);
        keyed = rw (sum, put, moved) (sym (keys-append links (shifted total f.contents)));
        fits = rw (sum, exact) w;
      },
      rw (sum, put, moved) refl,
      refl,
    )
