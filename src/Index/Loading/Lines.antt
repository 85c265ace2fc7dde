-- ===== src/Index/Loading/Lines.antt =====
-- src/index.cc: the lines of the header of an index file, as the backup writes them.
use beak.Prelude.{
  ℕ, suc, ◌^◌, ◌≤◌, ◌<◌, ◌≡◌, refl, ap, ◌∙◌, true, false, Option, none, some, [], ◌∷◌, ◌++◌, inl,
  inr, Bytes, codes, length, has_char, strip_prefix, strip_prefix-append, Bool-cases, if◌then◌else◌,
}
use beak.Text.Eating.{Eaten, eat_to, is_end, eat_to-append}
use beak.Text.Names.{starts_with, starts_with_iff}
use beak.Prelude.Words.{u64_mod}
use beak.Prelude.Decimal.{to_decimal}
use beak.Index.Loading.Numbers.{scan_int-to_decimal, scan_size-to_decimal}
use beak.Index.Rows.Columns.{append_assoc}
use beak.Index.Loading.{Header, Line, next, last, read_line, read_lines, is_ignored}

-- A prefix is decided character by character.
pub starts_with-yes : (p s : Bytes) → starts_with (p ++ s) p ≡ true
starts_with-yes p s = (starts_with_iff (p ++ s) p).1 (s, refl)

pub starts_with-no : (p s : Bytes) → strip_prefix p s ≡ none → starts_with s p ≡ false
starts_with-no p s h = elim (Bool-cases (starts_with s p)) [
  | inl e ↦
      let (r, joined) = (starts_with_iff s p).0 e in
      let there : strip_prefix p s ≡ some r =
        ap (strip_prefix p) joined ∙ strip_prefix-append p r in
      absurd (cc)
  | inr e ↦ e
]

-- What is read of a line that fits.
pub eat_line :
    (s more : Bytes) (max : ℕ)
    → has_char s b'\n' ≡ false
    → length s ≤ max
    → eat_to ((s ++ codes "\n") ++ more) (some b'\n') max
      ≡ record { text = s; rest = more; eof = is_end more; err = false }
eat_line s more max free fits =
    ap (λ v. eat_to v (some b'\n') max) (append_assoc s (codes "\n") more)
    ∙ eat_to-append s more b'\n' max free fits

-- A loop step, named so that what is read can be replaced in it.
abbrev lines_step : ℕ → Header → Eaten → Option Header
lines_step fuel h e = if e.err then none else elim (read_line h e.text) [
  | next h1 ↦ read_lines fuel h1 e.rest
  | last h1 ↦ some h1
  | Line.bad ↦ none
]

read_lines-line :
    (fuel : ℕ) (h : Header) (s more : Bytes)
    → has_char s b'\n' ≡ false
    → length s ≤ 1024
    → read_lines (suc fuel) h ((s ++ codes "\n") ++ more)
      ≡ lines_step fuel h (record { text = s; rest = more; eof = is_end more; err = false })
unfolding read_lines
read_lines-line fuel h s more free fits = ap (lines_step fuel h) (eat_line s more 1024 free fits)

pub read_lines-next :
    (fuel : ℕ) (h h1 : Header) (s more : Bytes)
    → has_char s b'\n' ≡ false
    → length s ≤ 1024
    → read_line h s ≡ next h1
    → read_lines (suc fuel) h ((s ++ codes "\n") ++ more) ≡ read_lines fuel h1 more
read_lines-next fuel h h1 s more free fits e = read_lines-line fuel h s more free fits ∙ rw e refl

pub read_lines-last :
    (fuel : ℕ) (h h1 : Header) (s : Bytes)
    → has_char s b'\n' ≡ false
    → length s ≤ 1024
    → read_line h s ≡ last h1
    → read_lines (suc fuel) h (s ++ codes "\n") ≡ some h1
unfolding read_lines
read_lines-last fuel h h1 s free fits e =
    ap (lines_step fuel h) (eat_to-append s [] b'\n' 1024 free fits) ∙ rw e refl

-- The lines that the backup writes.
pub read_line-config :
    (h : Header) (s : Bytes) → read_line h (codes "#config " ++ s) ≡ next (record h { config = s })
unfolding read_line
read_line-config h s = rw (starts_with-yes (codes "#config ") s) refl

pub read_line-size :
    (h : Header) (n : ℕ)
    → n < u64_mod
    → read_line h (codes "#size " ++ to_decimal n) ≡ next (record h { size = n })
unfolding read_line strip_prefix
read_line-size h n fits =
    let s : Bytes = to_decimal n in
    rw
      (
        starts_with-no (codes "#config ") (codes "#size " ++ s) refl,
        starts_with-yes (codes "#size ") s,
        scan_size-to_decimal n fits,
      )
      refl

-- A line with none of the keys that count.
pub read_line-other :
    (h : Header) (line : Bytes)
    → strip_prefix (codes "#config ") line ≡ none
    → strip_prefix (codes "#size ") line ≡ none
    → strip_prefix (codes "#files ") line ≡ none
    → read_line h line ≡ next h
unfolding read_line
read_line-other h line config size files = elim (Bool-cases (is_ignored line)) [
  | inl e ↦
      rw
        (
          starts_with-no (codes "#config ") line config,
          starts_with-no (codes "#size ") line size,
          e,
        )
        refl
  | inr e ↦
      rw
        (
          starts_with-no (codes "#config ") line config,
          starts_with-no (codes "#size ") line size,
          e,
          starts_with-no (codes "#files ") line files,
        )
        refl
]

pub read_line-files :
    (h : Header) (n : ℕ) (columns : Bytes)
    → n < 2 ^ 32
    → read_line h (codes "#files " ++ (to_decimal n ++ b' ' ∷ columns))
      ≡ last (record h { num_files = n })
unfolding read_line strip_prefix is_ignored
read_line-files h n columns fits =
    let s : Bytes = to_decimal n ++ b' ' ∷ columns in
    let line : Bytes = codes "#files " ++ s in
    rw
      (
        starts_with-no (codes "#config ") line refl,
        starts_with-no (codes "#size ") line refl,
        starts_with-no (codes "#filecolumns ") line refl,
        starts_with-no (codes "#uids ") line refl,
        starts_with-no (codes "#gids ") line refl,
        starts_with-no (codes "#delta ") line refl,
        starts_with-yes (codes "#files ") s,
        scan_int-to_decimal n b' ' columns fits refl,
      )
      refl
