-- ===== src/Index/Writing/End.antt =====
-- src/index.cc: the end of an index file that the backup wrote, from the line of the tars on.
use beak.Prelude.{
  ℕ, suc, ◌-◌, ◌^◌, ◌≤◌, ◌<◌, ◌≡◌, refl, ap, ◌∙◌, true, false, ◌&&◌, Option, none, some, List, [],
  ◌∷◌, ◌++◌, arith, ltb, ◌==◌, if◌then◌else◌, Bytes, codes, length, length-append, take, has_char,
  All, equal_iff, ==_refl, strip_prefix,
}
use beak.Prelude.Decimal.{to_decimal, is_digit, length-to_decimal}
use beak.Text.Eating.{Eaten, is_end, eat_to-append}
use beak.Text.Hex.{to_hex}
use beak.Tar.FileName.Numbers.{free-append}
use beak.Index.Rows.Columns.{decimal-free, length-to_hex, to_hex-free}
use beak.Index.Rows.Eaten.{IndexEntry}
use beak.Index.Loading.{header_max}
use beak.Index.Loading.Scan.{scan_counted}
use beak.Index.Loading.Numbers.{scan_int-to_decimal, scan_word-to_hex}
use beak.Index.Loading.Tars.{LoadedTars, IndexTar, load_tars}
use beak.Index.Loading.Result.{
  Loaded, ok, err, undetermined, positive, checksum, check_sum, check_end, read_parts_line,
  load_end, read_tars, read_tars_line, load_tail,
}
use beak.Index.Writing.{StoredTar, line}
use beak.Index.Writing.Tars.{IsReadable}

take-length : (s t : Bytes) → take (length (s ++ t) - length t) (s ++ t) ≡ s
take-length [] t = let e : length t - length t ≡ 0 = omega arith in rw e refl
take-length (c ∷ s) t =
    let e : suc (length (s ++ t)) - length t ≡ suc (length (s ++ t) - length t) =
      omega (arith, length-append s t) in
    rw e (ap (◌∷◌ c) (take-length s t))

pub positive-small : (n : ℕ) → n < 2 ^ 31 → positive n ≡ n
unfolding positive
positive-small n h = let e : ltb n (2 ^ 31) ≡ true = ground (arith, h) in rw e refl

module _ (sha256 : Bytes → Bytes) (digest : (s : Bytes) → length (sha256 s) ≡ 32) where
  abbrev pub end_text : Bytes → Bytes
  end_text cont = codes "#end " ++ (to_hex (sha256 cont) ++ codes "\n" ++ 0 ∷ [])

  -- What is summed is what stands before the line.
  checksum-written :
      (cont : Bytes)
      → checksum sha256 (cont ++ end_text cont) (end_text cont) ≡ to_hex (sha256 cont)
  unfolding checksum
  checksum-written cont = ap (λ s. to_hex (sha256 s)) (take-length cont (end_text cont))

  check_sum-written :
      (cont : Bytes)
      → check_sum sha256 (cont ++ end_text cont) (end_text cont) (record {
        text = codes "#end " ++ (to_hex (sha256 cont) ++ codes "\n");
        rest = [];
        eof = true;
        err = false;
      })
        ≡ ok
  unfolding check_sum
  check_sum-written cont =
      let long = digest cont in
      let same = (equal_iff (to_hex (sha256 cont)) (to_hex (sha256 cont))).1 refl in
      rw
        (
          scan_word-to_hex (sha256 cont) (omega (arith, long)) (omega (arith, long)),
          checksum-written cont,
          same,
        )
        refl

  check-end : (cont : Bytes) → check_end sha256 (cont ++ end_text cont) (end_text cont) ≡ ok
  unfolding check_end has_char is_end
  check-end cont =
      let hex : Bytes = to_hex (sha256 cont) in
      let long = length-to_hex (sha256 cont) in
      ap (check_sum sha256 (cont ++ end_text cont) (end_text cont)) (
        eat_to-append (codes "#end " ++ (hex ++ codes "\n")) [] 0 4096
          (free-append hex (codes "\n") 0 (to_hex-free (sha256 cont)) refl)
          (omega (arith, long, digest cont, length-append hex (codes "\n"))))
      ∙ check_sum-written cont

  abbrev pub no_parts : Bytes
  no_parts = line (codes "#parts ") (codes "0")

  load-end :
      (cont : Bytes) → load_end sha256 (cont ++ end_text cont) (no_parts ++ 0 ∷ end_text cont) ≡ ok
  unfolding load_end has_char is_end
  load-end cont =
      ap (read_parts_line sha256 (cont ++ end_text cont))
        (eat_to-append no_parts (end_text cont) 0 4096 refl (omega arith))
      ∙ check-end cont

  module _ (ts : List StoredTar) (vs : All IsReadable ts) (few : length ts < 2 ^ 31) where
    abbrev pub counted : Bytes
    counted =
        to_decimal (length ts)
        ++ codes " with 4 columns: backup_location basis_tarfile delta_tarfile tarfile"

    abbrev pub tars_end : Bytes → Bytes
    tars_end cont = no_parts ++ 0 ∷ end_text cont

    counted-plain :
        (c : ℕ)
        → is_digit c ≡ false
        → has_char (codes " with 4 columns: backup_location basis_tarfile delta_tarfile tarfile") c
          ≡ false
        → has_char counted c ≡ false
    counted-plain c h k = free-append (to_decimal (length ts)) _ c (decimal-free (length ts) c h) k

    counted-length : length counted ≤ 100
    counted-length =
        let digits = length-to_decimal (length ts) 9 (omega (arith, few)) in
        omega (
          arith,
          digits,
          length-append (to_decimal (length ts))
              (codes " with 4 columns: backup_location basis_tarfile delta_tarfile tarfile"),
        )

    abbrev tars_result : Bytes → ℕ → List IndexEntry → ℕ → Option LoadedTars → Loaded
    tars_result v size entries n o = elim o [
      | none ↦ record { entries = entries; tars = []; size = size; rc = undetermined }
      | some r ↦ record {
        entries = entries;
        tars = r.tars;
        size = size;
        rc = if r.left == 0 && n == positive n then load_end sha256 v r.rest else err;
      }
    ]

    -- The tars and the end, after the line of the tars.
    read-tars :
        (cont rows : Bytes) (size : ℕ) (entries : List IndexEntry) (loaded : List IndexTar)
        → load_tars (length (rows ++ tars_end cont)) (length ts) (rows ++ tars_end cont)
          ≡ some (record { tars = loaded; left = 0; rest = tars_end cont })
        → read_tars sha256
            (cont ++ end_text cont)
            size
            entries
            (rows ++ tars_end cont)
            (some (length ts))
          ≡ record { entries = entries; tars = loaded; size = size; rc = ok }
    unfolding read_tars
    read-tars cont rows size entries loaded h =
        let count = positive-small (length ts) few in
        let same : (length ts == positive (length ts)) ≡ true =
          ap (λ n. length ts == n) count ∙ ==_refl (length ts) in
        ap (tars_result (cont ++ end_text cont) size entries (length ts))
          (ap (λ n. load_tars (length (rows ++ tars_end cont)) n (rows ++ tars_end cont)) count ∙ h)
        ∙ rw (same, load-end cont) refl

    scan-counted : scan_counted (codes "#tars") (codes "#tars " ++ counted) ≡ some (length ts)
    unfolding scan_counted strip_prefix is_digit
    scan-counted = scan_int-to_decimal (length ts) b' ' _ (omega (arith, few)) refl

    pub load-tail :
        (cont rows : Bytes) (size : ℕ) (entries : List IndexEntry) (loaded : List IndexTar)
        → load_tars (length (rows ++ tars_end cont)) (length ts) (rows ++ tars_end cont)
          ≡ some (record { tars = loaded; left = 0; rest = tars_end cont })
        → load_tail sha256
            (cont ++ end_text cont)
            size
            entries
            (line (codes "#tars ") counted ++ 0 ∷ (rows ++ tars_end cont))
          ≡ record { entries = entries; tars = loaded; size = size; rc = ok }
    unfolding load_tail read_tars_line has_char is_digit
    load-tail cont rows size entries loaded h =
        let text : Bytes = line (codes "#tars ") counted in
        let rest : Bytes = rows ++ tars_end cont in
        let v : Bytes = cont ++ end_text cont in
        ap (read_tars_line sha256 v size entries) (
          eat_to-append text rest 0 header_max
            (free-append counted (codes "\n") 0 (counted-plain 0 refl refl) refl)
            (omega (arith, counted-length, length-append counted (codes "\n"))))
        ∙ ap
            (λ (e : Eaten).
              read_tars sha256 v size entries rest (scan_counted (codes "#tars") e.text))
            (eat_to-append (codes "#tars " ++ counted) [] b'\n' 128 (counted-plain b'\n' refl refl)
              (omega (arith, counted-length)))
        ∙ ap (read_tars sha256 v size entries rest) scan-counted
        ∙ read-tars cont rows size entries loaded h
