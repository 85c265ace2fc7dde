-- ===== src/Tar/Entries/Lookup.antt =====
-- src/tarfile.cc, findTarEntry: the entry that holds a byte of the tar file.
use beak.Prelude.{
  ℕ, ◌+◌, ◌≤◌, ◌<◌, ◌≡◌, ◌≢◌, refl, true, false, Option, none, some, [], ◌∷◌, arith, ltb, leb, ◌⊎◌,
  inl, inr, Bool-cases, sym, subst, ◌∙◌, ltb→lt,
}
use beak.Tar.Entries.{TarEntry, Contents, TarFile, last_at_most, lookup, find_tar_entry}
use beak.Tar.Entries.Layout.{Laid, keys, IsLaidOut, Laid-le}

-- Entry `te` at offset `k` holds the byte at `offset`; a row ends at `e`.
record Holds (m : Contents) (o e offset k : ℕ) (te : TarEntry) : Type 0 where
  found : lookup k m ≡ some te
  placed : te.tar_offset ≡ k
  from : o ≤ k
  before : k ≤ offset
  within : offset < e → offset < k + te.blocked_size
  at_end : offset ≡ e → k + te.blocked_size ≡ e

Found : Contents → ℕ → ℕ → ℕ → Option ℕ → Type 0
Found m o e offset r = (k : ℕ) × (te : TarEntry) × (r ≡ some k) × Holds m o e offset k te

Holds-head :
    (k : ℕ) (te : TarEntry) (m : Contents) (o e offset : ℕ)
    → Laid o ((k, te) ∷ m) e
    → o ≤ offset
    → (offset < e → offset < o + te.blocked_size)
    → (offset ≡ e → o + te.blocked_size ≡ e)
    → Holds ((k, te) ∷ m) o e offset k te
unfolding lookup
Holds-head k te m o e offset h a b c = record {
  found = ground arith;
  placed = h.1 ∙ sym (h.0);
  from = omega arith;
  before = omega arith;
  within = λ l. omega (arith, b l);
  at_end = λ l. omega (arith, c l, h.0);
}

Holds-tail :
    (j k : ℕ) (other te : TarEntry) (m : Contents) (o e offset : ℕ)
    → Laid o ((j, other) ∷ m) e
    → Holds m (o + other.blocked_size) e offset k te
    → Holds ((j, other) ∷ m) o e offset k te
unfolding lookup
Holds-tail j k other te m o e offset l h = record {
  found = ground (arith, h.found, h.from);
  placed = h.placed;
  from = omega (arith, h.from);
  before = h.before;
  within = h.within;
  at_end = h.at_end;
}

last_at_most-Found :
    (k : ℕ) (te : TarEntry) (m : Contents) (o e offset : ℕ) (prev : Option ℕ)
    → Laid o ((k, te) ∷ m) e
    → o ≤ offset
    → Found ((k, te) ∷ m) o e offset (last_at_most (keys ((k, te) ∷ m)) offset prev)
unfolding Found last_at_most
last_at_most-Found k te [] o e offset prev h a =
    let first : leb k offset ≡ true = ground arith in
    (
      k,
      te,
      rw first refl,
      Holds-head k te [] o e offset h a (λ l. omega (arith, h.3)) (λ l. omega (arith, h.3)),
    )
last_at_most-Found k te ((j, other) ∷ m) o e offset prev h a =
    let first : leb k offset ≡ true = ground arith in
    elim (Bool-cases (leb j offset)) [
      | inl more ↦
          let (k', te', run, holds) =
            last_at_most-Found j other m (o + te.blocked_size) e offset (some k) h.3
              (ground arith) in
          (k', te', rw first run, Holds-tail k k' te te' ((j, other) ∷ m) o e offset h holds)
      | inr stop ↦ (
        k,
        te,
        rw (first, stop) refl,
        Holds-head k te ((j, other) ∷ m) o e offset h a (λ l. ground arith)
            (λ l.
              absurd (ground (arith, h.3.0, Laid-le (o + te.blocked_size) e ((j, other) ∷ m) h.3))),
      )
    ]

find-Found :
    (f : TarFile) (m : Contents) (offset : ℕ)
    → f.contents ≡ m
    → IsLaidOut f
    → m ≢ []
    → Found m 0 f.current_tar_offset offset (last_at_most (keys m) offset none)
find-Found f [] offset e v n = absurd (n refl)
find-Found f ((k, te) ∷ m) offset e v n =
    last_at_most-Found k te m 0 f.current_tar_offset offset none
      (subst (λ (x : Contents). Laid 0 x f.current_tar_offset) e v.laid) (omega arith)

-- In a row with some entry, findTarEntry reads no entry that is missing. Past the end of the file
-- it answers null. Elsewhere it answers an entry of the file and that entry's offset: the one that
-- holds the byte, and at the end of the file the entry that ends there.
pub find_tar_entry_lem :
    (f : TarFile) (offset : ℕ)
    → IsLaidOut f
    → f.contents ≢ []
    → ((f.current_tar_offset < offset) × (find_tar_entry f f.current_tar_offset offset ≡ some none)
        ⊎ ((o : ℕ) × (te : TarEntry) × (offset ≤ f.current_tar_offset)
            × (find_tar_entry f f.current_tar_offset offset ≡ some (some (te, o)))
            × (lookup o f.contents ≡ some te)
            × (te.tar_offset ≡ o)
            × (o ≤ offset)
            × ((offset < o + te.blocked_size)
                ⊎ ((offset ≡ f.current_tar_offset)
                    × (o + te.blocked_size ≡ f.current_tar_offset)))))
unfolding find_tar_entry Found
find_tar_entry_lem f offset v n = elim (Bool-cases (ltb f.current_tar_offset offset)) [
  | inl past ↦ inl (ltb→lt _ _ past, rw past refl)
  | inr inside ↦
      let (k, te, run, holds) = find-Found f f.contents offset refl v n in
      inr (
        k,
        te,
        ground arith,
        rw (inside, v.keyed, run, holds.found) refl,
        holds.found,
        holds.placed,
        holds.before,
        last k te holds.within holds.at_end inside,
      )
]
  where
    last :
        (k : ℕ) (te : TarEntry)
        → (offset < f.current_tar_offset → offset < k + te.blocked_size)
        → (offset ≡ f.current_tar_offset → k + te.blocked_size ≡ f.current_tar_offset)
        → ltb f.current_tar_offset offset ≡ false
        → (offset < k + te.blocked_size)
          ⊎ ((offset ≡ f.current_tar_offset) × (k + te.blocked_size ≡ f.current_tar_offset))
    last k te within at_end inside = elim (Bool-cases (ltb offset f.current_tar_offset)) [
      | inl below ↦ inl (within (ltb→lt _ _ below))
      | inr over ↦ let e : offset ≡ f.current_tar_offset = ground arith in inr (e, at_end e)
    ]
