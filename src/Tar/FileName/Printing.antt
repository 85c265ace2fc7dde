-- ===== src/Tar/FileName/Printing.antt =====
-- src/tarfile.cc and src/util.cc: the printing of a stored file's name. `none` is an assertion that
-- fails.
use beak.Prelude.{
  ℕ, zero, suc, ◌+◌, ◌-◌, ◌*◌, ◌/◌, ◌%◌, Option, none, some, [], ◌∷◌, ◌++◌, ltb, leb, ◌==◌,
  if◌then◌else◌, ◌>>=◌, ◌>>◌, guard, Bytes, codes, length, take,
}
use beak.Prelude.Words.{u32}
use beak.Prelude.Decimal.{to_decimal}
use beak.Text.Hex.{hex_digit}
use beak.Tar.FileName.{TarFileName, chartype, suffixtype}

-- "%0<width>...": zeros before the digits.
unfoldable pub pad : ℕ → Bytes → Bytes
pad zero s = s
pad (suc n) s = if ltb (length s) (suc n) then b'0' ∷ pad n s else s

-- "%x".
unfoldable pub hex_loop : ℕ → ℕ → Bytes
unfolding hex_digit
hex_loop zero n = []
hex_loop (suc fuel) n =
    let rest = hex_loop fuel (n / 16) in
    if ltb n 16 then hex_digit n ∷ [] else rest ++ hex_digit (n % 16) ∷ []

unfoldable pub to_hexadecimal : ℕ → Bytes
unfolding hex_loop
to_hexadecimal n = hex_loop (suc n) n

-- The number of shifts by four until nothing is left. A size_t has at most 16 hexadecimal digits.
unfoldable pub width_loop : ℕ → ℕ → ℕ
width_loop zero max_value = 0
width_loop (suc fuel) max_value =
    let rest = width_loop fuel (max_value / 16) in if max_value == 0 then 0 else suc rest

-- toHex(value, max_value).
unfoldable pub hex_padded : ℕ → ℕ → Option Bytes
unfolding width_loop pad to_hexadecimal
hex_padded value max_value = do
  let n = width_loop 16 max_value
  guard (ltb n 8)
  some (pad n (to_hexadecimal value))

abbrev pub two : ℕ → Bytes
two n = (b'0' + n / 10 % 10) ∷ (b'0' + n % 10) ∷ []

pub record Tm : Type 0 where
  pub year : ℕ
  pub month : ℕ
  pub day : ℕ
  pub hour : ℕ
  pub minute : ℕ
  pub second : ℕ

-- gmtime_r.
unfoldable pub gmtime : ℕ → Tm
gmtime sec =
    let z = sec / 86400 + 719468 in
    let doe = z % 146097 in
    let yoe = (doe - doe / 1460 + doe / 36524 - doe / 146096) / 365 in
    let doy = doe - (365 * yoe + yoe / 4 - yoe / 100) in
    let mp = (5 * doy + 2) / 153 in
    let m = if ltb mp 10 then mp + 3 else mp - 9 in
    record {
      year = yoe + z / 146097 * 400 + (if leb m 2 then 1 else 0);
      month = m;
      day = doy - (153 * mp + 2) / 5 + 1;
      hour = sec % 86400 / 3600;
      minute = sec % 3600 / 60;
      second = sec % 60;
    }

-- strftime with ".%Y-%m-%d.%H%M%S", for the years of four and five digits.
unfoldable pub strftime : Tm → Bytes
unfolding to_decimal
strftime tm =
    b'.'
    ∷ (to_decimal tm.year
        ++ (b'-'
            ∷ (two tm.month
                ++ (b'-'
                    ∷ (two tm.day ++ (b'.' ∷ (two tm.hour ++ (two tm.minute ++ two tm.second))))))))

-- The name without a directory.
unfoldable pub base_name : TarFileName → Option Bytes
unfolding chartype to_decimal pad strftime gmtime hex_padded to_hexadecimal u32 suffixtype
base_name t = do
  let usecs = pad 6 (to_decimal (t.nsec / 1000))
  let date = if t.old_style then [] else strftime (gmtime t.sec)
  partnr ← hex_padded (u32 (t.part_nr + 1)) t.num_parts
  some (
      codes "beak_"
      ++ (chartype t.type
          ∷ b'_'
          ∷ (to_decimal t.sec
              ++ (b'.'
                  ∷ ((usecs ++ date)
                      ++ (b'_'
                          ∷ (t.header_hash
                              ++ (b'_'
                                  ∷ (partnr
                                      ++ (b'-'
                                          ∷ (to_hexadecimal t.num_parts
                                              ++ (b'_'
                                                  ∷ (to_decimal t.size
                                                      ++ (b'_'
                                                          ∷ (to_decimal t.ondisk_size
                                                            ++ (b'.'
                                                            ∷ suffixtype t.type))))))))))))))))

-- writeTarFileNameIntoBuffer: snprintf stops at the size of the buffer.
unfoldable pub write_tar_file_name : ℕ → Option Bytes → TarFileName → Option Bytes
unfolding base_name
write_tar_file_name buf_len none t = base_name t >>= λ b. some (take (buf_len - 1) b)
write_tar_file_name buf_len (some dir) t = base_name t >>= λ b.
    some (take (buf_len - 1) (dir ++ ((if ltb 0 (length dir) then codes "/" else []) ++ b)))
