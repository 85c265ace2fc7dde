-- ===== src/Index/Writing/Files.antt =====
-- src/tarentry.cc and src/index.cc: the rows of the entries of an index file are read back one
-- after the other.
use beak.Prelude.{
  ℕ, suc, ◌≡◌, refl, ap, sym, ◌∙◌, Bool, true, false, Option, some, List, [], ◌∷◌, ◌++◌, Bytes, All,
  length, ◌>>=◌,
}
use beak.Text.Eating.{is_end, eat_to, eat_loop, stops, step_over, missed}
use beak.Index.Rows.{RowEntry}
use beak.Index.Rows.Columns.{append_assoc}
use beak.Index.Rows.Eaten.{IndexEntry, Eat, got, stopped, eat_entry, take_field, go_on}
use beak.Index.Rows.RoundTrip.{IsIndexable, indexed, cooked}
use beak.Index.Loading.{LoadedFiles, load_files}
use beak.Index.Writing.{cook_entries}

-- The entries that come back, each read into the one before it.
abbrev pub indexed_files :
    (es : List RowEntry)
    → All IsIndexable es
    → Option Bytes
    → Option Bytes
    → IndexEntry
    → List IndexEntry
indexed_files [] v dir safedir old = []
indexed_files (e ∷ es) (v, vs) dir safedir old =
    indexed e v dir safedir old ∷ indexed_files es vs dir safedir (indexed e v dir safedir old)

append_nil : (s : Bytes) → s ++ [] ≡ s
append_nil [] = refl
append_nil (c ∷ s) = ap (◌∷◌ c) (append_nil s)

no_files :
    (dir safedir : Option Bytes) (old : IndexEntry) (rest : Bytes)
    → load_files dir safedir 0 old rest false ≡ record { entries = []; left = 0; rest = rest }
unfolding load_files
no_files dir safedir old rest = refl

abbrev files_step : Option Bytes → Option Bytes → ℕ → Bytes → Eat → LoadedFiles
files_step dir safedir num v (got e rest end) =
    let r = load_files dir safedir num e rest end in
    record { entries = e ∷ r.entries; left = r.left; rest = r.rest }
files_step dir safedir num v (stopped err end) = record { entries = []; left = suc num; rest = v }

load_files-step :
    (dir safedir : Option Bytes) (num : ℕ) (old : IndexEntry) (v : Bytes) (e : Eat)
    → is_end v ≡ false
    → eat_entry dir safedir old v ≡ e
    → load_files dir safedir (suc num) old v false ≡ files_step dir safedir num v e
unfolding load_files
load_files-step dir safedir num old v e more read = rw more (ap (files_step dir safedir num v) read)

eat_entry_nothing :
    (dir safedir : Option Bytes) (old : IndexEntry)
    → eat_entry dir safedir old [] ≡ stopped true true
unfolding eat_entry take_field go_on eat_to eat_loop stops step_over missed is_end
eat_entry_nothing dir safedir old = refl

-- What a row is read from is not the end.
not_end_of_got :
    (dir safedir : Option Bytes) (old e : IndexEntry) (v rest : Bytes) (end : Bool)
    → eat_entry dir safedir old v ≡ got e rest end
    → is_end v ≡ false
unfolding is_end
not_end_of_got dir safedir old e [] rest end h =
    let stop = sym (eat_entry_nothing dir safedir old) ∙ h in absurd (cc)
not_end_of_got dir safedir old e (c ∷ v) rest end h = refl

load-next :
    (dir safedir : Option Bytes) (num : ℕ) (old e : IndexEntry) (v rest : Bytes) (r : LoadedFiles)
    → eat_entry dir safedir old v ≡ got e rest (is_end rest)
    → is_end rest ≡ false
    → load_files dir safedir num e rest false ≡ r
    → load_files dir safedir (suc num) old v false
      ≡ record { entries = e ∷ r.entries; left = r.left; rest = r.rest }
load-next dir safedir num old e v rest r read more loaded =
    load_files-step dir safedir num old v (got e rest false)
      (not_end_of_got dir safedir old e v rest (is_end rest) read) (read ∙ ap (got e rest) more)
    ∙ ap (λ (f : LoadedFiles). record { entries = e ∷ f.entries; left = f.left; rest = f.rest })
        loaded

pub load-cook :
    (es : List RowEntry) (vs : All IsIndexable es) (dir safedir : Option Bytes) (old : IndexEntry)
    → (rows : Bytes) × ((listing : Bytes) → cook_entries es listing ≡ some (listing ++ rows))
      × ((rest : Bytes)
          → is_end rest ≡ false
          → (load_files dir safedir (length es) old (rows ++ rest) false
              ≡ record { entries = indexed_files es vs dir safedir old; left = 0; rest = rest })
            × (is_end (rows ++ rest) ≡ false))
unfolding cook_entries
load-cook [] vs dir safedir old = (
  [],
  λ listing. ap some (sym (append_nil listing)),
  λ rest more. (no_files dir safedir old rest, more),
)
load-cook (e ∷ es) (v, vs) dir safedir old =
    let (row, written, read) = cooked e v dir safedir old in
    let (rows, cooks, loads) = load-cook es vs dir safedir (indexed e v dir safedir old) in
    (
      row ++ rows,
      λ listing.
          ap (λ o. o >>= cook_entries es) (written listing)
          ∙ cooks (listing ++ row)
          ∙ ap some (append_assoc listing row rows),
      λ rest more.
          let (loaded, on) = loads rest more in
          let whole = append_assoc row rows rest in
          let read = read (rows ++ rest) in
          (
            ap (λ s. load_files dir safedir (length (e ∷ es)) old s false) whole
                ∙ load-next dir safedir (length es) old (indexed e v dir safedir old)
                    (row ++ (rows ++ rest)) (rows ++ rest) _ read on loaded,
            ap is_end whole
                ∙ not_end_of_got dir safedir old (indexed e v dir safedir old)
                    (row ++ (rows ++ rest)) (rows ++ rest) (is_end (rows ++ rest)) read,
          ),
    )
