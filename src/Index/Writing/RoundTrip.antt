-- ===== src/Index/Writing/RoundTrip.antt =====
-- src/backup.cc and src/index.cc: an index file that the backup writes is loaded back.
use beak.Prelude.{
  ℕ, ◌^◌, ◌<◌, ◌≡◌, refl, ap, ◌∙◌, true, false, ◌&&◌, Option, none, some, List, [], ◌∷◌, ◌++◌,
  arith, ◌==◌, if◌then◌else◌, ◌>>=◌, Bytes, codes, length, length-append, All, ==_refl, inl, inr,
  Bool-cases, ◌⊎◌,
}
use beak.Text.Eating.{is_end}
use beak.Index.Rows.Columns.{append_assoc}
use beak.Index.Rows.Eaten.{IndexEntry}
use beak.Index.Rows.RoundTrip.{IsIndexable}
use beak.Index.Loading.{Header, read_header, load_files, LoadedFiles}
use beak.Index.Loading.Result.{Loaded, ok, err, positive, load_tail, read_files, load_index}
use beak.Index.Writing.{
  IndexContents, StoredTar, backup_size, header_text, cook_entries, tars_text, tar_rows,
  parts_count, part_rows, num_content_splits, summed, index_contents, line, is_content_split,
}
use beak.Index.Writing.Header.{HasHeader, told, read_header-header_text}
use beak.Index.Writing.Files.{indexed_files, load-cook}
use beak.Index.Writing.Tars
use beak.Index.Writing.Tars.{IsReadable, load-tar_rows}
use beak.Index.Writing.Singles.{IsSingle, single-IsReadable}
use beak.Index.Writing.PartNames.{IsRange}
use beak.Index.Writing.Ranges.{range-IsReadable}
use beak.Index.Writing.End.{positive-small, end_text, no_parts, counted, load-tail}

no_part_rows : (ts : List StoredTar) → num_content_splits ts ≡ 0 → part_rows ts ≡ []
unfolding num_content_splits part_rows
no_part_rows [] h = refl
no_part_rows (t ∷ ts) h = elim (Bool-cases (is_content_split t.file.sizes.tar_contents)) [
  | inl e ↦ absurd (ground arith)
  | inr e ↦ rw e (no_part_rows ts (ground arith))
]

-- The parts of the file, with what follows them.
file-shape :
    (h er tt rows np end : Bytes)
    → (((h ++ 0 ∷ []) ++ er) ++ (tt ++ 0 ∷ (rows ++ (np ++ 0 ∷ [])))) ++ end
      ≡ h ++ 0 ∷ (er ++ (tt ++ 0 ∷ (rows ++ (np ++ 0 ∷ end))))
file-shape h er tt rows np end =
    append_assoc ((h ++ 0 ∷ []) ++ er) (tt ++ 0 ∷ (rows ++ (np ++ 0 ∷ []))) end
    ∙ ap (λ s. ((h ++ 0 ∷ []) ++ er) ++ s)
        (append_assoc tt (0 ∷ (rows ++ (np ++ 0 ∷ []))) end
          ∙ ap (λ s. tt ++ 0 ∷ s)
              (append_assoc rows (np ++ 0 ∷ []) end
                ∙ ap (λ s. rows ++ s) (append_assoc np (0 ∷ []) end)))
    ∙ append_assoc (h ++ 0 ∷ []) er (tt ++ 0 ∷ (rows ++ (np ++ 0 ∷ end)))
    ∙ append_assoc h (0 ∷ []) (er ++ (tt ++ 0 ∷ (rows ++ (np ++ 0 ∷ end))))

-- A tar file in one part, or in several ones.
abbrev pub IsStored : StoredTar → Type 0
IsStored t = IsSingle t ⊎ IsRange t

stored-IsReadable : (ts : List StoredTar) → All IsStored ts → All IsReadable ts
stored-IsReadable [] vs = tt
stored-IsReadable (t ∷ ts) (inl single, vs) = (single-IsReadable t single, stored-IsReadable ts vs)
stored-IsReadable (t ∷ ts) (inr range, vs) = (range-IsReadable t range, stored-IsReadable ts vs)

-- What an index file can hold: a header that fits, rows that can be read back, and no tar of the
-- kind whose parts are listed by themselves, which no backup makes.
pub record IsLoadable (c : IndexContents) : Type 0 where
  pub header : HasHeader c
  pub entries : All IsIndexable c.entries
  pub tars : All IsStored c.tars
  pub few_tars : length c.tars < 2 ^ 31
  pub unlisted : num_content_splits c.tars ≡ 0

module _ (sha256 : Bytes → Bytes) (digest : (s : Bytes) → length (sha256 s) ≡ 32) where
  module _ (c : IndexContents) (valid : IsLoadable c) (dir safedir : Option Bytes)
      (old : IndexEntry) where
    -- What comes back.
    abbrev pub loaded : Loaded
    loaded = record {
      entries = indexed_files c.entries valid.entries dir safedir old;
      tars = Tars.all_tars c.tars;
      size = backup_size c.tars 0;
      rc = ok;
    }

    abbrev readable : All IsReadable c.tars
    readable = stored-IsReadable c.tars valid.tars

    abbrev cont_of : Bytes → Bytes → Bytes
    cont_of er rows =
        ((header_text c ++ 0 ∷ []) ++ er)
        ++ (line (codes "#tars ") (counted sha256 digest c.tars readable valid.few_tars)
            ++ 0 ∷ (rows ++ ((no_parts sha256 digest) ++ 0 ∷ [])))

    summed-written :
        (er rows : Bytes)
        → cook_entries c.entries (header_text c ++ 0 ∷ []) ≡ some ((header_text c ++ 0 ∷ []) ++ er)
        → tar_rows c.tars ≡ some rows
        → summed c ≡ some (cont_of er rows)
    unfolding summed tars_text parts_count
    summed-written er rows files tars =
        rw (files, tars, valid.unlisted, no_part_rows c.tars valid.unlisted) refl

    abbrev files_result : Bytes → Header → LoadedFiles → Loaded
    files_result v h f =
        if f.left == 0 && h.num_files == positive h.num_files
        then load_tail sha256 v h.size f.entries f.rest
        else record { entries = f.entries; tars = []; size = h.size; rc = err }

    read-files :
        (v er rest : Bytes) (tail : Loaded)
        → load_files dir safedir (length c.entries) old (er ++ rest) false ≡ record {
          entries = indexed_files c.entries valid.entries dir safedir old;
          left = 0;
          rest = rest;
        }
        → load_tail sha256 v
            (backup_size c.tars 0)
            (indexed_files c.entries valid.entries dir safedir old)
            rest
          ≡ tail
        → read_files sha256 dir safedir old v (told c valid.header) (er ++ rest) ≡ tail
    unfolding read_files
    read-files v er rest tail files rest_loaded =
        let count = positive-small (length c.entries) (valid.header.few_entries) in
        let same : (length c.entries == positive (length c.entries)) ≡ true =
          ap (λ n. length c.entries == n) count ∙ ==_refl (length c.entries) in
        ap (files_result v (told c valid.header))
          (ap (λ n. load_files dir safedir n old (er ++ rest) false) count ∙ files)
        ∙ rw (same, rest_loaded) refl

    load_index-header :
        (size : ℕ) (v rest : Bytes)
        → v ≡ header_text c ++ 0 ∷ rest
        → load_index sha256 dir safedir size old v
          ≡ read_files sha256 dir safedir old v (told c valid.header) rest
    unfolding load_index
    load_index-header size v rest e =
        ap (header_result v size)
          (ap (read_header size) e ∙ read_header-header_text c valid.header size rest)
      where
        header_result : Bytes → ℕ → Option (Header × Bytes) → Loaded
        header_result v size o = elim o [
          | none ↦ record { entries = []; tars = []; size = size; rc = err }
          | some hr ↦ read_files sha256 dir safedir old v hr.0 hr.1
        ]

    -- For every backup whose header, rows and tars an index file can hold, writing fails no
    -- assertion, and loading what was written, with any directories to prepend, into any entry and
    -- whatever the size was before, succeeds: it calls on_entry for every entry in its order and
    -- on_tar for every part of every tar in its order, with the place where the backup stores it,
    -- tells the size of the backup, and finds the checksum right, for any hash function with
    -- digests of 32 bytes. A tar in several parts stands below a relative directory.
    pub load-index_contents :
        (size : ℕ)
        → (v : Bytes) × (index_contents sha256 c ≡ some v)
          × (load_index sha256 dir safedir size old v ≡ loaded)
    unfolding index_contents is_end
    load-index_contents size =
        let (er, cooks, files) = load-cook c.entries valid.entries dir safedir old in
        let (rows, written, shorter, tars) = load-tar_rows c.tars readable in
        let cont : Bytes = cont_of er rows in
        let v : Bytes = cont ++ end_text sha256 digest cont in
        let after : Bytes =
          line (codes "#tars ") (counted sha256 digest c.tars readable valid.few_tars)
          ++ 0 ∷ (rows ++ ((no_parts sha256 digest) ++ 0 ∷ end_text sha256 digest cont)) in
        let enough =
          length-append rows ((no_parts sha256 digest) ++ 0 ∷ end_text sha256 digest cont) in
        (
          v,
          ap (λ o. o >>= λ s. some (s ++ end_text sha256 digest s))
              (summed-written er rows (cooks (header_text c ++ 0 ∷ [])) written),
          load_index-header size v (er ++ after) (
                file-shape (header_text c) er
                  (line (codes "#tars ") (counted sha256 digest c.tars readable valid.few_tars))
                  rows (no_parts sha256 digest) (end_text sha256 digest cont))
              ∙ read-files v er after _ (files after refl).0 (
                  load-tail sha256 digest c.tars readable valid.few_tars cont rows
                    (backup_size c.tars 0) (indexed_files c.entries valid.entries dir safedir old) _
                    (tars _ ((no_parts sha256 digest) ++ 0 ∷ end_text sha256 digest cont)
                      (omega (arith, enough, shorter)))),
        )
