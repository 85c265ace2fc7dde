-- ===== src/Index/Loading/Checked.antt =====
-- src/index.cc: what it means that loadIndex succeeds.
use beak.Prelude.{
  ℕ, zero, suc, ◌+◌, ◌≡◌, ◌≢◌, refl, ap, sym, ◌∙◌, Bool, true, false, ◌&&◌, ◌||◌, Option, none,
  some, List, [], ◌∷◌, arith, ◌==◌, if◌then◌else◌, Bytes, codes, length, equal, equal_iff, inl, inr,
  Bool-cases, ◌-◌, ◌++◌, ◌∷◌, take, length-append,
}
use beak.Text.Eating.{Eaten, eat_to, is_end}
use beak.Index.Rows.Eaten.{IndexEntry, Eat, got, stopped, eat_entry}
use beak.Index.Loading.{Header, LoadedFiles, header_max, read_header, load_files, load_parts}
use beak.Index.Loading.Scan.{scan_counted, scan_word}
use beak.Text.Hex.{to_hex}
use beak.Index.Rows.Rests.{IsRest, eaten-IsRest}
use beak.Index.Loading.Rests.{
  files_after, load_files-IsRest, load_parts-IsRest, load_tars-IsRest, read_header-IsRest,
}
use beak.Index.Loading.Tars.{LoadedTars, load_tars}
use beak.Index.Loading.Result.{
  Loaded, Rc, ok, err, undetermined, positive, checksum, check_sum, check_end, read_parts_line,
  load_end, read_tars, read_tars_line, load_tail, read_files, load_index,
}

files_after-count :
    (again : IndexEntry → Bytes → Bool → LoadedFiles) (num : ℕ) (v : Bytes) (e : Eat)
    → ((ie : IndexEntry) (rest : Bytes) (end : Bool)
        → length (again ie rest end).entries + (again ie rest end).left ≡ num)
    → length (files_after again num v e).entries + (files_after again num v e).left ≡ suc num
files_after-count again num v (got e rest end) h = omega (arith, h e rest end)
files_after-count again num v (stopped e end) h = omega arith

-- The number of entries and what is left of the count are the count.
load_files-count :
    (dir safedir : Option Bytes) (num : ℕ) (ie : IndexEntry) (v : Bytes) (eof : Bool)
    → length (load_files dir safedir num ie v eof).entries
        + (load_files dir safedir num ie v eof).left
      ≡ num
unfolding load_files
load_files-count dir safedir zero ie v eof = omega arith
load_files-count dir safedir (suc num) ie v eof = elim (Bool-cases (is_end v || eof)) [
  | inl e ↦ rw e (omega arith)
  | inr e ↦ rw e (
      files_after-count (load_files dir safedir num) num v (eat_entry dir safedir ie v)
        (load_files-count dir safedir num))
]

-- A result that is ok under a test, the other branch not being ok.
ok_if : (b : Bool) (r : Rc) → (if b then r else err) ≡ ok → (b ≡ true) × (r ≡ ok)
ok_if true r h = (refl, h)
ok_if false r h = absurd (cc)

ok_unless : (b : Bool) (r : Rc) → (if b then err else r) ≡ ok → r ≡ ok
ok_unless true r h = absurd (cc)
ok_unless false r h = h

ok_of {ℓ} :
    {A : Type ℓ} (o : Option A) (f : A → Rc)
    → (elim o [ none ↦ err | some a ↦ f a ]) ≡ ok
    → (a : A) × (o ≡ some a) × (f a ≡ ok)
ok_of none f h = absurd (cc)
ok_of (some a) f h = (a, refl, h)

err_not_ok : err ≢ ok
err_not_ok e = cc

counts_agree :
    (left num pos entries : ℕ)
    → (left == 0 && num == pos) ≡ true
    → entries + left ≡ pos
    → entries ≡ num
counts_agree left num pos entries h k = ground arith

take-before : (s t : Bytes) → take (length (s ++ t) - length t) (s ++ t) ≡ s
take-before s t =
    let all : length (s ++ t) - length t ≡ length s = omega (arith, length-append s t) in
    rw all (front s)
  where
    front : (s : Bytes) → take (length s) (s ++ t) ≡ s
    front [] = refl
    front (c ∷ s) = ap (◌∷◌ c) (front s)

module _ (sha256 : Bytes → Bytes) where
  -- The file falls into two texts, and the second begins with a line that tells the checksum of the
  -- first.
  abbrev pub HasChecksum : Bytes → Type 0
  HasChecksum v =
      (before : Bytes) × (rest : Bytes) × (v ≡ before ++ rest)
      × (scan_word (codes "#end") (eat_to rest (some 0) 4096).text ≡ some (to_hex (sha256 before)))

  checksum-before :
      (v before rest : Bytes) → v ≡ before ++ rest → checksum sha256 v rest ≡ to_hex (sha256 before)
  unfolding checksum
  checksum-before v before rest e =
      ap (λ (u : Bytes). to_hex (sha256 u))
        (ap (λ (u : Bytes). take (length u - length rest) u) e ∙ take-before before rest)

  check_end-ok : (v rest : Bytes) → IsRest v rest → check_end sha256 v rest ≡ ok → HasChecksum v
  unfolding check_end check_sum
  check_end-ok v rest (before, joined) h =
      let (w, there, good) = ok_of _ _ (ok_unless _ _ h) in
      let (same, _) = ok_if (equal w (checksum sha256 v rest)) ok good in
      (
        before,
        rest,
        joined,
        there
            ∙ ap some ((equal_iff w (checksum sha256 v rest)).0 same)
            ∙ ap some (checksum-before v before rest joined),
      )

  abbrev parts_after : Bytes → Bytes → ℕ → Rc
  parts_after v rest n =
      let r = load_parts (positive n) rest in
      if r.0 == 0 && n == positive n then check_end sha256 v r.1 else err

  load_end-ok : (v rest : Bytes) → IsRest v rest → load_end sha256 v rest ≡ ok → HasChecksum v
  unfolding load_end read_parts_line
  load_end-ok v rest is_rest h =
      let e : Eaten = eat_to rest (some 0) 4096 in
      let count : Option ℕ = scan_counted (codes "#parts") e.text in
      let (n, there, good) =
        ok_of count (parts_after v e.rest)
          (ok_unless e.err (elim count [ none ↦ err | some n ↦ parts_after v e.rest n ]) h) in
      let r : ℕ × Bytes = load_parts (positive n) e.rest in
      let (_, end) = ok_if (r.0 == 0 && n == positive n) (check_end sha256 v r.1) good in
      check_end-ok v r.1
        (load_parts-IsRest v (positive n) e.rest (eaten-IsRest v rest 0 4096 is_rest)) end

  abbrev tars_result : Bytes → ℕ → List IndexEntry → ℕ → Option LoadedTars → Loaded
  tars_result v size entries n o = elim o [
    | none ↦ record { entries = entries; tars = []; size = size; rc = undetermined }
    | some r ↦ record {
      entries = entries;
      tars = r.tars;
      size = size;
      rc = if r.left == 0 && n == positive n then load_end sha256 v r.rest else err;
    }
  ]

  -- What the tars and the end leave as it was, and what success says of them.
  abbrev Ends : Bytes → ℕ → List IndexEntry → Loaded → Type 0
  Ends v size entries l = HasChecksum v × (l.entries ≡ entries) × (l.size ≡ size)

  tars_result-ok :
      (v : Bytes) (size : ℕ) (entries : List IndexEntry) (n : ℕ) (o : Option LoadedTars)
      → ((r : LoadedTars) → o ≡ some r → IsRest v r.rest)
      → (tars_result v size entries n o).rc ≡ ok
      → Ends v size entries (tars_result v size entries n o)
  tars_result-ok v size entries n none rests h = absurd (cc)
  tars_result-ok v size entries n (some r) rests h =
      let (_, end) = ok_if (r.left == 0 && n == positive n) (load_end sha256 v r.rest) h in
      (load_end-ok v r.rest (rests r refl) end, refl, refl)

  read_tars-ok :
      (v : Bytes) (size : ℕ) (entries : List IndexEntry) (rest : Bytes) (n : Option ℕ)
      → IsRest v rest
      → (read_tars sha256 v size entries rest n).rc ≡ ok
      → Ends v size entries (read_tars sha256 v size entries rest n)
  unfolding read_tars
  read_tars-ok v size entries rest none is_rest h = absurd (cc)
  read_tars-ok v size entries rest (some n) is_rest h =
      tars_result-ok v size entries n (load_tars (length rest) (positive n) rest)
        (λ r run. load_tars-IsRest v (length rest) (positive n) rest r run is_rest) h

  abbrev files_result : Bytes → Header → LoadedFiles → Loaded
  files_result v h f =
      if f.left == 0 && h.num_files == positive h.num_files
      then load_tail sha256 v h.size f.entries f.rest
      else record { entries = f.entries; tars = []; size = h.size; rc = err }

  -- What success says, the header being the one that was read.
  abbrev Succeeds : Bytes → Header → Loaded → Type 0
  Succeeds v h l = HasChecksum v × (length l.entries ≡ h.num_files) × (l.size ≡ h.size)

  load_tail-ok :
      (v : Bytes) (size : ℕ) (entries : List IndexEntry) (rest : Bytes)
      → IsRest v rest
      → (load_tail sha256 v size entries rest).rc ≡ ok
      → Ends v size entries (load_tail sha256 v size entries rest)
  unfolding load_tail read_tars_line
  load_tail-ok v size entries rest is_rest h =
      let e : Eaten = eat_to rest (some 0) header_max in
      read_tars-ok v size entries e.rest
        (scan_counted (codes "#tars") (eat_to e.text (some b'\n') 128).text)
        (eaten-IsRest v rest 0 header_max is_rest) h

  files_result-ok :
      (v : Bytes) (h : Header) (f : LoadedFiles)
      → IsRest v f.rest
      → length f.entries + f.left ≡ positive h.num_files
      → (files_result v h f).rc ≡ ok
      → Succeeds v h (files_result v h f)
  files_result-ok v h f is_rest count good =
      elim (Bool-cases (f.left == 0 && h.num_files == positive h.num_files)) [
        | inl e ↦
            let all = counts_agree f.left h.num_files _ (length f.entries) e count in
            let (sum, same, size) = load_tail-ok v h.size f.entries f.rest is_rest (rw e at good) in
            rw e (sum, ap length same ∙ all, size)
        | inr e ↦ absurd (err_not_ok (rw e at good))
      ]

  module _ (dir safedir : Option Bytes) (size : ℕ) (ie : IndexEntry) (v : Bytes) where
    abbrev header_result : Option (Header × Bytes) → Loaded
    header_result o = elim o [
      | none ↦ record { entries = []; tars = []; size = size; rc = err }
      | some hr ↦ read_files sha256 dir safedir ie v hr.0 hr.1
    ]

    header_result-ok :
        (o : Option (Header × Bytes))
        → ((h : Header) (rest : Bytes) → o ≡ some (h, rest) → IsRest v rest)
        → (header_result o).rc ≡ ok
        → (h : Header) × (rest : Bytes) × (o ≡ some (h, rest)) × Succeeds v h (header_result o)
    unfolding read_files
    header_result-ok none rests good = absurd (err_not_ok good)
    header_result-ok (some (h, rest)) rests good =
        let files = load_files dir safedir (positive h.num_files) ie rest false in
        let count = load_files-count dir safedir (positive h.num_files) ie rest false in
        (
          h,
          rest,
          refl,
          files_result-ok v h files
              (load_files-IsRest v safedir dir (positive h.num_files) ie rest false
                (rests h rest refl))
              count good,
        )

    load_index-header : load_index sha256 dir safedir size ie v ≡ header_result (read_header size v)
    unfolding load_index
    load_index-header = refl

    -- If loadIndex returns RC::OK, whatever the file holds and whatever the hash function is, then
    -- its header was understood, on_entry was called for exactly as many entries as the header says
    -- and the size is the header's, and the file falls into two texts of which the second begins
    -- with a line that tells the checksum of the first.
    pub load_index-ok :
        (load_index sha256 dir safedir size ie v).rc ≡ ok
        → (h : Header) × (rest : Bytes) × (read_header size v ≡ some (h, rest))
          × HasChecksum v
          × (length (load_index sha256 dir safedir size ie v).entries ≡ h.num_files)
          × ((load_index sha256 dir safedir size ie v).size ≡ h.size)
    load_index-ok good =
        let (h, rest, read, (sum, all, told)) =
          header_result-ok (read_header size v)
            (λ h rest read. read_header-IsRest size v h rest read)
            (sym (ap (λ (l : Loaded). l.rc) load_index-header) ∙ good) in
        (
          h,
          rest,
          read,
          sum,
          ap (λ (l : Loaded). length l.entries) load_index-header ∙ all,
          ap (λ (l : Loaded). l.size) load_index-header ∙ told,
        )
