-- ===== src/Index/Loading/Rests.antt =====
-- src/index.cc: the iterator of loadIndex only moves on, so that what it has before it is always an
-- end of the file.
use beak.Prelude.{
  ℕ, zero, suc, ◌-◌, ◌≡◌, ap, Bool, true, false, ◌||◌, Option, none, some, [], ◌∷◌, inl, inr,
  Bool-cases, Option-cases, ◌==◌, if◌then◌else◌, >>=-eq-some, some_inj, subst, not, drop, Bytes,
  codes, length, equal,
}
use beak.Text.Names.{starts_with}
use beak.Text.Eating.{Eaten, eat_to, is_end}
use beak.Index.Rows.Eaten.{IndexEntry, Eat, got, stopped, eat_entry}
use beak.Index.Loading.{
  Header, header_max, read_lines, read_version, read_data, read_header, LoadedFiles, load_files,
  load_parts,
}
use beak.Index.Loading.Tars.{TarRow, LoadedTars, eat_tar_row, tar_names, load_tars}
use beak.Index.Rows.Rests.{IsRest, eat_to-IsRest, eaten-IsRest, LeavesRest, eat_entry-LeavesRest}

-- What is loaded after a row.
abbrev pub files_after : (IndexEntry → Bytes → Bool → LoadedFiles) → ℕ → Bytes → Eat → LoadedFiles
files_after again num v (got e rest end) =
    let r = again e rest end in record { entries = e ∷ r.entries; left = r.left; rest = r.rest }
files_after again num v (stopped e end) = record { entries = []; left = suc num; rest = v }

module _ (w : Bytes) where
  module _ (safedir dir : Option Bytes) where
    after-IsRest :
        (num : ℕ) (v : Bytes) (again : IndexEntry → Bytes → Bool → LoadedFiles) (r : Eat)
        → IsRest w v
        → ((e : IndexEntry) (rest : Bytes) (end : Bool)
            → IsRest w rest
            → IsRest w (again e rest end).rest)
        → LeavesRest w r
        → IsRest w (files_after again num v r).rest
    after-IsRest num v again (got e rest end) h more k = more e rest end k
    after-IsRest num v again (stopped err end) h more k = h

    pub load_files-IsRest :
        (num : ℕ) (ie : IndexEntry) (v : Bytes) (eof : Bool)
        → IsRest w v
        → IsRest w (load_files dir safedir num ie v eof).rest
    unfolding load_files
    load_files-IsRest zero ie v eof h = h
    load_files-IsRest (suc num) ie v eof h = elim (Bool-cases (is_end v || eof)) [
      | inl e ↦ rw e h
      | inr e ↦ rw e (
          after-IsRest num v (load_files dir safedir num) (eat_entry dir safedir ie v) h
            (λ ie1 rest end k. load_files-IsRest num ie1 rest end k)
            (eat_entry-LeavesRest w safedir dir ie v h))
    ]

  pub load_parts-IsRest : (num : ℕ) (v : Bytes) → IsRest w v → IsRest w (load_parts num v).1
  unfolding load_parts
  load_parts-IsRest zero v h = h
  load_parts-IsRest (suc num) v h = elim (Bool-cases (is_end v || (eat_to v (some 0) 4096).err)) [
    | inl e ↦ rw e h
    | inr e ↦ rw e (load_parts-IsRest num _ (eaten-IsRest w v 0 4096 h))
  ]

  row_rest : (b : Bool) (r row : TarRow) → (if b then none else some r) ≡ some row → r ≡ row
  row_rest true r row h = absurd (cc)
  row_rest false r row h = some_inj h

  eat_tar_row-IsRest :
      (v : Bytes) (row : TarRow) → eat_tar_row v ≡ some row → IsRest w v → IsRest w row.rest
  unfolding eat_tar_row
  eat_tar_row-IsRest v row run h =
      let e1 = eaten-IsRest w v 0 4096 h in
      let e2 = eaten-IsRest w _ 0 4096 e1 in
      let e3 = eaten-IsRest w _ 0 4096 e2 in
      subst (λ (r : TarRow). IsRest w r.rest) (row_rest _ _ row run) (eaten-IsRest w _ 0 4096 e3)

  pub load_tars-IsRest :
      (fuel num : ℕ) (v : Bytes) (r : LoadedTars)
      → load_tars fuel num v ≡ some r
      → IsRest w v
      → IsRest w r.rest
  unfolding load_tars
  load_tars-IsRest zero num v r run h = subst (λ (l : LoadedTars). IsRest w l.rest) (some_inj run) h
  load_tars-IsRest (suc fuel) num v r run h = elim (Bool-cases (num == 0 || is_end v)) [
    | inl e ↦ subst (λ (l : LoadedTars). IsRest w l.rest) (some_inj (rw e at run)) h
    | inr e ↦ elim (Option-cases (eat_tar_row v)) [
      | inl f ↦ subst (λ (l : LoadedTars). IsRest w l.rest) (some_inj (rw (e, f) at run)) h
      | inr (row, f) ↦
          let (names, named, then_more) =
            >>=-eq-some (tar_names row.tar_file) _ (rw (e, f) at run) in
          let (more, loaded, same) =
            >>=-eq-some
              (load_tars fuel (if length row.tar_file == 0 then num else num - 1) row.rest) _
              then_more in
          subst (λ (l : LoadedTars). IsRest w l.rest) (some_inj same)
            (load_tars-IsRest fuel _ row.rest more loaded (eat_tar_row-IsRest v row f h))
    ]
  ]

-- What follows the header.
pub read_header-IsRest :
    (size : ℕ) (v : Bytes) (h : Header) (rest : Bytes)
    → read_header size v ≡ some (h, rest)
    → IsRest v rest
unfolding read_header read_data read_version
read_header-IsRest size v h rest run =
    let e : Eaten = eat_to v (some 0) header_max in
    let type : Eaten = eat_to e.text (some b'\n') 64 in
    subst (λ (r : Bytes). IsRest v r) (same_rest type.text type.rest e.rest run)
      (eat_to-IsRest v 0 header_max)
  where
    same_rest : (type data_ r : Bytes) → read_version size r type data_ ≡ some (h, rest) → r ≡ rest
    same_rest type data_ r run = elim (Bool-cases (not (starts_with type (codes "#beak ")))) [
      | inl a ↦ absurd (cc (rw a at run))
      | inr a ↦ elim (Bool-cases (not (equal (drop 6 type) (codes "0.9")))) [
        | inl b ↦ absurd (cc (rw (a, b) at run))
        | inr b ↦
            let (h1, lines, same) =
              >>=-eq-some
                (read_lines (suc (length data_))
                  (record { config = []; size = size; num_files = 0 }) data_)
                _ (rw (a, b) at run) in
            ap (λ (o : Header × Bytes). o.1) (some_inj same)
      ]
    ]
