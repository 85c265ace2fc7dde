-- ===== src/Tar/Entries/Layout.antt =====
-- src/tarfile.cc: the gapless row of the entries of a TarFile, from offset 0.
use mathlib.Core.List.{append-nil, append_assoc}
use beak.Prelude.{ℕ, ◌+◌, ◌≤◌, ◌<◌, ◌≡◌, refl, List, [], ◌∷◌, ◌++◌, arith, sym, ap, subst, ◌∙◌}
use beak.Prelude.Words.{u64_mod, add64, add64_exact}
use beak.Tar.Entries.{TarEntry, Contents, TarFile, put_entry, move_up}

-- The entries follow one another from offset `o` to offset `e`, and know their offsets.
abbrev pub Laid : ℕ → Contents → ℕ → Type 0
Laid o [] e = o ≡ e
Laid o ((k, te) ∷ m) e =
    (k ≡ o) × (te.tar_offset ≡ o) × (0 < te.blocked_size) × Laid (o + te.blocked_size) m e

abbrev pub keys : Contents → List ℕ
keys [] = []
keys ((k, te) ∷ m) = k ∷ keys m

pub record IsLaidOut (f : TarFile) : Type 0 where
  pub laid : Laid 0 f.contents f.current_tar_offset
  pub keyed : f.offsets ≡ keys f.contents
  pub fits : f.current_tar_offset < u64_mod

pub Laid-le : (o e : ℕ) (m : Contents) → Laid o m e → o ≤ e
Laid-le o e [] h = omega arith
Laid-le o e ((k, te) ∷ m) h = omega (arith, Laid-le (o + te.blocked_size) e m h.3)

-- The same entries, `by` bytes further up.
abbrev pub shifted : ℕ → Contents → Contents
shifted by [] = []
shifted by ((k, te) ∷ m) = (k + by, record te { tar_offset = k + by }) ∷ shifted by m

-- Entries in a row from offset `o`.
abbrev pub placed : ℕ → List TarEntry → Contents
placed o [] = []
placed o (te ∷ l) = (o, record te { tar_offset = o }) ∷ placed (o + te.blocked_size) l

abbrev pub total_size : List TarEntry → ℕ
total_size [] = 0
total_size (te ∷ l) = te.blocked_size + total_size l

-- The map's insertion at the end of a row puts the entry last.
pub put_entry_end :
    (o e : ℕ) (m : Contents) (te : TarEntry) → Laid o m e → put_entry e te m ≡ m ++ (e, te) ∷ []
unfolding put_entry
put_entry_end o e [] te h = refl
put_entry_end o e ((k, other) ∷ m) te h = ground (
  arith,
  Laid-le (o + other.blocked_size) e m h.3,
  put_entry_end (o + other.blocked_size) e m te h.3,
)

pub Laid-snoc :
    (o e : ℕ) (m : Contents) (te : TarEntry)
    → Laid o m e
    → te.tar_offset ≡ e
    → 0 < te.blocked_size
    → Laid o (m ++ (e, te) ∷ []) (e + te.blocked_size)
Laid-snoc o e [] te h a b = (sym h, a ∙ sym h, b, ap (λ (n : ℕ). n + te.blocked_size) h)
Laid-snoc o e ((k, other) ∷ m) te h a b =
    (h.0, h.1, h.2, Laid-snoc (o + other.blocked_size) e m te h.3 a b)

pub keys-append : (m n : Contents) → keys (m ++ n) ≡ keys m ++ keys n
keys-append [] n = refl
keys-append ((k, te) ∷ m) n = ap (◌∷◌ k) (keys-append m n)

pub Laid-append : (o e d : ℕ) (m n : Contents) → Laid o m e → Laid e n d → Laid o (m ++ n) d
Laid-append o e d [] n h k = subst (λ (x : ℕ). Laid x n d) (sym h) k
Laid-append o e d ((j, te) ∷ m) n h k =
    (h.0, h.1, h.2, Laid-append (o + te.blocked_size) e d m n h.3 k)

pub Laid-shifted : (by o e : ℕ) (m : Contents) → Laid o m e → Laid (o + by) (shifted by m) (e + by)
Laid-shifted by o e [] h = omega arith
Laid-shifted by o e ((k, te) ∷ m) h = (
  omega arith,
  omega arith,
  h.2,
  let e' : o + te.blocked_size + by ≡ o + by + te.blocked_size = omega arith in
      subst (λ (x : ℕ). Laid x (shifted by m) (e + by)) e'
        (Laid-shifted by (o + te.blocked_size) e m h.3),
)

-- The loop over the old map appends the moved entries, in their order, and their offsets.
pub move_up_lem :
    (by s o e : ℕ) (m done : Contents) (newo : List ℕ)
    → Laid s done (o + by)
    → Laid o m e
    → e + by < u64_mod
    → move_up by m done newo ≡ (done ++ shifted by m, newo ++ keys (shifted by m))
unfolding move_up
move_up_lem by s o e [] done newo d h w = simp append-nil
move_up_lem by s o e ((k, te) ∷ m) done newo d h w =
    let start : k + by ≡ o + by = omega (arith, h.0) in
    let exact : add64 k by ≡ k + by =
      add64_exact k by (omega (arith, h.0, Laid-le (o + te.blocked_size) e m h.3)) in
    let moved = record te { tar_offset = k + by } in
    let d' : Laid s done (k + by) = subst (λ (x : ℕ). Laid s done x) (sym start) d in
    let next : k + by + te.blocked_size ≡ o + te.blocked_size + by = omega (arith, h.0) in
    rw (exact, put_entry_end s (k + by) done moved d')
      (move_up_lem by s (o + te.blocked_size) e m (done ++ (k + by, moved) ∷ [])
          (newo ++ (k + by) ∷ [])
          (subst (λ (x : ℕ). Laid s (done ++ (k + by, moved) ∷ []) x) next
            (Laid-snoc s (k + by) done moved d' refl h.2))
          h.3 w
        ∙ simp append_assoc)
