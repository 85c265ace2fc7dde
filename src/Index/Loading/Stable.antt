-- ===== src/Index/Loading/Stable.antt =====
-- src/index.cc: the loops of loadIndex over the lines of the header and over the rows of the tars,
-- round by round.
use beak.Prelude.{
  ℕ, zero, suc, ◌-◌, ◌≤◌, ◌<◌, ◌≡◌, refl, ap, Bool, true, false, ◌||◌, Option, none, some, List, [],
  ◌∷◌, ◌++◌, arith, ◌==◌, if◌then◌else◌, ◌>>=◌, Bytes, length, length-append, map, some_inj, inl,
  inr, Bool-cases, Option-cases,
}
use beak.Text.Eating.{Eaten, eat_to, eat_to_lem, is_end}
use beak.Index.Loading.{Header, Line, next, last, bad, read_line, read_lines}
use beak.Index.Loading.Tars.{TarRow, LoadedTars, eat_tar_row, tar_names, load_tars}

-- What is left is shorter, unless there is an error.
eat_to-shorter :
    (v : Bytes) (c max : ℕ)
    → (eat_to v (some c) max).err ≡ false
    → length (eat_to v (some c) max).rest < length v
eat_to-shorter v c max h =
    let ((gap, joined, short, flag), free, fits) = eat_to_lem v c max in
    elim flag [
      | inl e ↦ absurd (cc)
      | inr e ↦
          let e1 = ap length joined in
          let e2 = ap length e in
          omega (
            arith,
            e1,
            e2,
            length-append (eat_to v (some c) max).text (gap ++ (eat_to v (some c) max).rest),
            length-append gap (eat_to v (some c) max).rest,
          )
    ]

-- What reading the lines of the header comes to, round by round and with no fuel: a line that is
-- cut off or not understood ends it with an error, the number of files with the header, and after
-- any other line the lines behind it are read.
pub data ReadsLines : Header → Bytes → Option Header → Type 0 where
  cut : {h : Header} {s : Bytes} → (eat_to s (some b'\n') 1024).err ≡ true → ReadsLines h s none
  refused :
      {h : Header} {s : Bytes}
      → (eat_to s (some b'\n') 1024).err ≡ false
      → read_line h (eat_to s (some b'\n') 1024).text ≡ bad
      → ReadsLines h s none
  counted :
      {h h1 : Header} {s : Bytes}
      → (eat_to s (some b'\n') 1024).err ≡ false
      → read_line h (eat_to s (some b'\n') 1024).text ≡ last h1
      → ReadsLines h s (some h1)
  read :
      {h h1 : Header} {s : Bytes} {r : Option Header}
      → (eat_to s (some b'\n') 1024).err ≡ false
      → read_line h (eat_to s (some b'\n') 1024).text ≡ next h1
      → ReadsLines h1 (eat_to s (some b'\n') 1024).rest r
      → ReadsLines h s r

abbrev after_line : (Header → Option Header) → Line → Option Header
after_line again (next h) = again h
after_line again (last h) = some h
after_line again bad = none

after_line-ReadsLines :
    (again : Header → Option Header) (h : Header) (s : Bytes) (l : Line)
    → (eat_to s (some b'\n') 1024).err ≡ false
    → read_line h (eat_to s (some b'\n') 1024).text ≡ l
    → ((h1 : Header) → ReadsLines h1 (eat_to s (some b'\n') 1024).rest (again h1))
    → ReadsLines h s (after_line again l)
after_line-ReadsLines again h s (next h1) good e more = read good e (more h1)
after_line-ReadsLines again h s (last h1) good e more = counted good e
after_line-ReadsLines again h s bad good e more = refused good e

-- The loop over the lines of the header, with any fuel that is more than the characters it reads,
-- ends by itself and not for want of fuel: its answer is what reading line after line comes to, the
-- header or an error.
pub read_lines-ReadsLines :
    (fuel : ℕ) (h : Header) (s : Bytes) → length s < fuel → ReadsLines h s (read_lines fuel h s)
unfolding read_lines
read_lines-ReadsLines zero h s k = absurd (omega arith)
read_lines-ReadsLines (suc fuel) h s k = elim (Bool-cases (eat_to s (some b'\n') 1024).err) [
  | inl e ↦ rw e (cut e)
  | inr e ↦
      let shorter = eat_to-shorter s b'\n' 1024 e in
      rw e (
        after_line-ReadsLines (λ h1. read_lines fuel h1 (eat_to s (some b'\n') 1024).rest) h s
          (read_line h (eat_to s (some b'\n') 1024).text) e refl
          (λ h1. read_lines-ReadsLines fuel h1 _ (omega (arith, shorter, k))))
]

both_false : (a b : Bool) → (a || b) ≡ false → (a ≡ false) × (b ≡ false)
both_false true b h = absurd (cc)
both_false false b h = (refl, h)

abbrev row_if : Bool → TarRow → Option TarRow
row_if bad_ row = if bad_ then none else some row

row_if-some : (b : Bool) (r row : TarRow) → row_if b r ≡ some row → (b ≡ false) × (r ≡ row)
row_if-some true r row h = absurd (cc)
row_if-some false r row h = (refl, some_inj h)

-- A row that is read leaves less to read.
eat_tar_row-shorter :
    (v : Bytes) (row : TarRow) → eat_tar_row v ≡ some row → length row.rest < length v
unfolding eat_tar_row
eat_tar_row-shorter v row h =
    let e1 : Eaten = eat_to v (some 0) 4096 in
    let e2 : Eaten = eat_to e1.rest (some 0) 4096 in
    let e3 : Eaten = eat_to e2.rest (some 0) 4096 in
    let e4 : Eaten = eat_to e3.rest (some 0) 4096 in
    let (good, same) =
      row_if-some (e1.err || (e2.err || (e3.err || (e4.err || length e4.text == 0)))) _ row h in
    let (g1, r1) = both_false e1.err _ good in
    let (g2, r2) = both_false e2.err _ r1 in
    let (g3, r3) = both_false e3.err _ r2 in
    let (g4, r4) = both_false e4.err _ r3 in
    let s1 = eat_to-shorter v 0 4096 g1 in
    let s2 = eat_to-shorter e1.rest 0 4096 g2 in
    let s3 = eat_to-shorter e2.rest 0 4096 g3 in
    let s4 = eat_to-shorter e3.rest 0 4096 g4 in
    let last = ap (λ (r : TarRow). length r.rest) same in omega (arith, s1, s2, s3, s4, last)

abbrev add_row : TarRow → Option (List Bytes) → Option LoadedTars → Option LoadedTars
add_row row names more = do
  names ← names
  more ← more
  some (record more {
    tars =
        map (λ n. record { backup_location = row.backup_location; tarfile_location = n }) names
        ++ more.tars;
  })

-- What reading the rows comes to, row by row and with no fuel: it stops when no tar is left to be
-- read, at the end of the file, or at a row that is broken. After a row, the rows behind it are
-- read, for one tar less if the row has a name.
pub data LoadsTars : ℕ → Bytes → Option LoadedTars → Type 0 where
  over :
      {num : ℕ} {v : Bytes}
      → (num == 0 || is_end v) ≡ true
      → LoadsTars num v (some (record { tars = []; left = num; rest = v }))
  broken :
      {num : ℕ} {v : Bytes}
      → (num == 0 || is_end v) ≡ false
      → eat_tar_row v ≡ none
      → LoadsTars num v (some (record { tars = []; left = num; rest = v }))
  row_read :
      {num : ℕ} {v : Bytes} {row : TarRow} {more : Option LoadedTars}
      → (num == 0 || is_end v) ≡ false
      → eat_tar_row v ≡ some row
      → LoadsTars (if length row.tar_file == 0 then num else num - 1) row.rest more
      → LoadsTars num v (add_row row (tar_names row.tar_file) more)

-- The loop over the rows of the tar files, with any fuel that is not less than the characters it
-- reads, ends by itself and not for want of fuel, rows without a name included: its answer is what
-- reading row after row comes to.
pub load_tars-LoadsTars :
    (fuel num : ℕ) (v : Bytes) → length v ≤ fuel → LoadsTars num v (load_tars fuel num v)
unfolding load_tars is_end
load_tars-LoadsTars zero num [] k = over (at_end num)
  where
    at_end : (num : ℕ) → (num == 0 || is_end []) ≡ true
    at_end num = ground arith
load_tars-LoadsTars zero num (c ∷ v) k = absurd (omega arith)
load_tars-LoadsTars (suc fuel) num v k = elim (Bool-cases (num == 0 || is_end v)) [
  | inl e ↦ rw e (over e)
  | inr e ↦ elim (Option-cases (eat_tar_row v)) [
    | inl f ↦ rw (e, f) (broken e f)
    | inr (row, f) ↦
        let shorter = eat_tar_row-shorter v row f in
        rw (e, f)
          (row_read e f (
            load_tars-LoadsTars fuel (if length row.tar_file == 0 then num else num - 1) row.rest
              (omega (arith, shorter, k))))
  ]
]
