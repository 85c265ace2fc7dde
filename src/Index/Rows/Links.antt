-- ===== src/Index/Rows/Links.antt =====
-- src/tarentry.cc: the link column, from cookEntry to eatEntry.
use beak.Prelude.{
  ◌<◌, ◌≡◌, refl, true, false, not, some, ◌++◌, inl, inr, arith, ltb, if◌then◌else◌, Bytes, codes,
  length, equal, Bool-cases, ap, sym, ◌∙◌,
}
use beak.Index.Permissions.{is_kind, s_iflnk}
use beak.Index.Rows.{RowEntry, link_text}
use beak.Index.Rows.Eaten.{IndexEntry, read_link}

read_symbolic :
    (ie : IndexEntry) (l : Bytes)
    → 0 < length l
    → read_link ie (codes " -> " ++ l)
      ≡ record ie { link = l; st_size = length l; is_sym_link = true; is_hard_link = false }
unfolding read_link equal
read_symbolic ie l more =
    let long : ltb 4 (length (codes " -> " ++ l)) ≡ true = ground arith in rw long refl

read_hard :
    (ie : IndexEntry) (l : Bytes)
    → 0 < length l
    → read_link ie (codes " link to " ++ l)
      ≡ record ie { link = l; st_size = length l; is_sym_link = false; is_hard_link = true }
unfolding read_link equal
read_hard ie l more =
    let long : ltb 9 (length (codes " link to " ++ l)) ≡ true = ground arith in
    let some_more : ltb 4 (length (codes " link to " ++ l)) ≡ true = ground arith in
    rw (some_more, long) refl

link_text-some :
    (e : RowEntry) (l : Bytes)
    → e.link ≡ some l
    → link_text e ≡ (if is_kind s_iflnk e.st_mode then codes " -> " else codes " link to ") ++ l
unfolding link_text
link_text-some e l there = rw (there, link_text) refl

-- The target of a link that is not empty comes back from the link column, with its length as the
-- size; it is a symbolic link if the entry's mode says so, and a hard link otherwise.
pub read_link-link_text :
    (ie : IndexEntry) (e : RowEntry) (l : Bytes)
    → e.link ≡ some l
    → 0 < length l
    → read_link ie (link_text e) ≡ record ie {
      link = l;
      st_size = length l;
      is_sym_link = is_kind s_iflnk e.st_mode;
      is_hard_link = not (is_kind s_iflnk e.st_mode);
    }
read_link-link_text ie e l there more = elim (Bool-cases (is_kind s_iflnk e.st_mode)) [
  | inl sym_link ↦
      ap (read_link ie) (link_text-some e l there)
      ∙ ap (λ b. read_link ie ((if b then codes " -> " else codes " link to ") ++ l)) sym_link
      ∙ read_symbolic ie l more
      ∙ ap (λ b. record ie { link = l; st_size = length l; is_sym_link = b; is_hard_link = not b })
          (sym sym_link)
  | inr hard_link ↦
      ap (read_link ie) (link_text-some e l there)
      ∙ ap (λ b. read_link ie ((if b then codes " -> " else codes " link to ") ++ l)) hard_link
      ∙ read_hard ie l more
      ∙ ap (λ b. record ie { link = l; st_size = length l; is_sym_link = b; is_hard_link = not b })
          (sym hard_link)
]
