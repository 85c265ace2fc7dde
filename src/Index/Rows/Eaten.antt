-- ===== src/Index/Rows/Eaten.antt =====
-- src/tarentry.cc: eatEntry, which reads the row of an entry back, column by column. The entry that
-- is filled is passed on; a column that is not there leaves what the entry held. The texts in front
-- of paths are the directories to prepend.
use beak.Prelude.{
  ℕ, ◌+◌, ◌-◌, ◌*◌, ◌%◌, min, Bool, true, false, ◌&&◌, ◌||◌, Option, none, some, [], ◌∷◌, ◌++◌, ltb,
  leb, ◌==◌, if◌then◌else◌, Bytes, codes, take, drop, length, equal, at,
}
use beak.Prelude.Words.{u32, u64_mod}
use beak.Prelude.Decimal.{is_digit}
use beak.Text.Eating.{Eaten, eat_to}
use beak.Tar.FileName.{field, long_max}
use beak.Index.Permissions.{string_to_permission}
use beak.Index.Rows.{is_device}

pub record IndexEntry : Type 0 where
  pub st_mode : ℕ
  pub st_uid : ℕ
  pub st_gid : ℕ
  pub st_rdev : ℕ × ℕ
  pub st_size : ℕ
  pub mtim_sec : ℕ
  pub mtim_nsec : ℕ
  pub offset : ℕ
  pub tarr : Bytes
  pub path : Bytes
  pub link : Bytes
  pub is_sym_link : Bool
  pub is_hard_link : Bool
  pub num_parts : ℕ
  pub part_offset : ℕ
  pub part_size : ℕ
  pub last_part_size : ℕ
  pub ondisk_part_size : ℕ
  pub ondisk_last_part_size : ℕ

-- An entry, what is left, and whether that is the end; or false, with the flags err and eof.
pub data Eat : Type 0 where
  got : IndexEntry → Bytes → Bool → Eat
  stopped : Bool → Bool → Eat

-- `if (*err || *eof) return false;`
unfoldable pub go_on : Eaten → (Bytes → Bytes → Eat) → Eat
go_on e next = if e.err || e.eof then stopped e.err e.eof else next e.text e.rest

-- eatTo(v, i, c, max, eof, err) with that test behind it.
unfoldable pub take_field : Bytes → ℕ → ℕ → (Bytes → Bytes → Eat) → Eat
unfolding eat_to go_on
take_field v c max next = go_on (eat_to v (some c) max) next

-- strtol in base 10, as the 64-bit word of its result.
unfoldable pub skip_space : Bytes → Bytes
skip_space [] = []
skip_space (c ∷ s) = if c == b' ' || leb 9 c && leb c 13 then skip_space s else c ∷ s

unfoldable pub leading : ℕ → Bytes → ℕ
unfolding is_digit
leading acc [] = acc
leading acc (c ∷ s) = if is_digit c then leading (acc * 10 + (c - b'0')) s else acc

unfoldable pub signed_number : Bytes → ℕ
unfolding leading
signed_number [] = 0
signed_number (c ∷ s) =
    if c == b'-'
    then (u64_mod - min (leading 0 s) (long_max + 1)) % u64_mod
    else if c == b'+'
    then min (leading 0 s) long_max
    else min (leading 0 (c ∷ s)) long_max

unfoldable pub atol : Bytes → ℕ
unfolding skip_space signed_number
atol s = signed_number (skip_space s)

unfoldable pub atoi : Bytes → ℕ
unfolding atol u32
atoi s = u32 (atol s)

-- substr(0, find(c)) and substr(find(c)+1), which are both the whole text if it is not there.
unfoldable pub halves : ℕ → Bytes → Bytes × Bytes
unfolding field
halves c s = elim (field c s) [ none ↦ (s, s) | some r ↦ r ]

-- The newline is dropped from the hash, which is not used; that a hash is empty, where the code's
-- pop_back is undefined, is not looked at.
unfoldable pub eat_hash : IndexEntry → Bytes → Eat
unfolding eat_to
eat_hash ie v =
    let h = eat_to v (some 0) 65 in if h.err then stopped h.err h.eof else got ie h.rest h.eof

-- The last of the six numbers, up to the end of the column; then the hash.
unfoldable pub read_last : IndexEntry → ℕ → ℕ → ℕ → ℕ → ℕ → Bytes → Bytes → Eat
unfolding eat_hash eat_to atol u32
read_last ie num_parts part_offset part_size last_part_size disk_size m v =
    let last = eat_to m none 64 in
    if last.err
    then stopped last.err last.eof
    else eat_hash
        (record ie {
          num_parts = u32 num_parts;
          part_offset = part_offset;
          part_size = part_size;
          last_part_size = last_part_size;
          ondisk_part_size = disk_size;
          ondisk_last_part_size = atol last.text;
        })
        v

-- The next number, up to its comma.
unfoldable pub take_number : Bytes → (ℕ → Bytes → Eat) → Eat
unfolding take_field atol
take_number m next = take_field m b',' 64 (λ s m1. next (atol s) m1)

-- The six numbers of a tar file in parts, `v` being what follows their column.
unfoldable pub read_numbers : IndexEntry → Bytes → Bytes → Eat
unfolding take_number read_last
read_numbers ie multipart v = take_number multipart (λ num_parts m1. take_number m1 (λ offset m2.
    take_number m2 (λ part_size m3. take_number m3 (λ last_part_size m4.
      take_number m4
        (λ disk_size m5. read_last ie num_parts offset part_size last_part_size disk_size m5 v)))))

unfoldable pub read_parts : IndexEntry → Bytes → Bytes → Eat
unfolding read_numbers eat_hash
read_parts ie multipart v =
    if equal multipart (codes "1")
    then eat_hash (record ie { num_parts = 1; part_size = 0; last_part_size = 0 }) v
    else read_numbers ie multipart v

unfoldable pub eat_parts : IndexEntry → Bytes → Eat
unfolding take_field read_parts
eat_parts ie v = take_field v 0 128 (read_parts ie)

unfoldable pub read_offset : IndexEntry → Bytes → Bytes → Eat
unfolding eat_parts atol
read_offset ie off v = eat_parts (record ie { offset = atol off }) v

unfoldable pub eat_offset : IndexEntry → Bytes → Eat
unfolding take_field read_offset
eat_offset ie v = take_field v 0 32 (read_offset ie)

unfoldable pub prepend : Option Bytes → Bytes → Bytes
prepend none s = s
prepend (some dir) s = dir ++ b'/' ∷ s

unfoldable pub read_tar : Option Bytes → IndexEntry → Bytes → Bytes → Eat
unfolding eat_offset prepend
read_tar safedir ie tarp v =
    eat_offset (record ie { tarr = if ltb 0 (length tarp) then prepend safedir tarp else tarp }) v

unfoldable pub eat_tar : Option Bytes → IndexEntry → Bytes → Eat
unfolding take_field read_tar
eat_tar safedir ie v = take_field v 0 1024 (read_tar safedir ie)

-- What the text of the link says: its target is what follows the arrow or " link to ".
unfoldable pub read_link : IndexEntry → Bytes → IndexEntry
read_link ie link =
    if ltb 4 (length link) && equal (take 4 link) (codes " -> ")
    then record ie {
      link = drop 4 link;
      st_size = length (drop 4 link);
      is_sym_link = true;
      is_hard_link = false;
    }
    else if ltb 9 (length link) && equal (take 9 link) (codes " link to ")
    then record ie {
      link = drop 9 link;
      st_size = length (drop 9 link);
      is_sym_link = false;
      is_hard_link = true;
    }
    else record ie { link = link; is_sym_link = false; is_hard_link = false }

unfoldable pub eat_link : Option Bytes → IndexEntry → Bytes → Eat
unfolding take_field eat_tar read_link
eat_link safedir ie v = take_field v 0 1024 (λ link v1. eat_tar safedir (read_link ie link) v1)

unfoldable pub drop_slash : Bytes → Bytes
drop_slash s = if ltb 1 (length s) && at s (length s - 1) == b'/' then take (length s - 1) s else s

unfoldable pub read_path : Option Bytes → Option Bytes → IndexEntry → Bytes → Bytes → Eat
unfolding eat_link prepend drop_slash
read_path dir safedir ie filename v =
    eat_link safedir (record ie { path = drop_slash (prepend dir filename) }) v

unfoldable pub eat_path : Option Bytes → Option Bytes → IndexEntry → Bytes → Eat
unfolding take_field read_path
eat_path dir safedir ie v = take_field v 0 1024 (read_path dir safedir ie)

-- The nanoseconds, behind the dot.
unfoldable pub read_nanos : Option Bytes → Option Bytes → IndexEntry → Bytes → Bytes → Bytes → Eat
unfolding eat_path eat_to atol
read_nanos dir safedir ie v se j =
    let na = eat_to j none 64 in
    if na.err
    then stopped na.err na.eof
    else eat_path dir safedir (record ie { mtim_sec = atol se; mtim_nsec = atol na.text }) v

unfoldable pub read_time : Option Bytes → Option Bytes → IndexEntry → Bytes → Bytes → Eat
unfolding take_field read_nanos
read_time dir safedir ie secs_and_nanos v =
    take_field secs_and_nanos b'.' 64 (read_nanos dir safedir ie v)

unfoldable pub eat_time : Option Bytes → Option Bytes → IndexEntry → Bytes → Eat
unfolding take_field read_time
eat_time dir safedir ie v = take_field v 0 64 (read_time dir safedir ie)

unfoldable pub read_size : Option Bytes → Option Bytes → IndexEntry → Bytes → Bytes → Eat
unfolding eat_time is_device halves atoi atol
read_size dir safedir ie si v =
    eat_time dir safedir
      (if is_device ie.st_mode
        then record ie { st_rdev = (atoi (halves b',' si).0, atoi (halves b',' si).1) }
        else record ie { st_size = atol si })
      v

unfoldable pub eat_size : Option Bytes → Option Bytes → IndexEntry → Bytes → Eat
unfolding take_field read_size
eat_size dir safedir ie v = take_field v 0 32 (read_size dir safedir ie)

unfoldable pub read_owner : Option Bytes → Option Bytes → IndexEntry → Bytes → Bytes → Eat
unfolding eat_size halves atoi
read_owner dir safedir ie uidgid v =
    eat_size dir safedir
      (record ie { st_uid = atoi (halves b'/' uidgid).0; st_gid = atoi (halves b'/' uidgid).1 }) v

unfoldable pub eat_owner : Option Bytes → Option Bytes → IndexEntry → Bytes → Eat
unfolding take_field read_owner
eat_owner dir safedir ie v = take_field v 0 32 (read_owner dir safedir ie)

-- The permissions, and the column of the access control list, which is not used.
unfoldable pub read_permission : Option Bytes → Option Bytes → IndexEntry → Bytes → Bytes → Eat
unfolding take_field eat_owner string_to_permission
read_permission dir safedir ie permission v =
    if string_to_permission permission == 0
    then stopped true false
    else take_field v 0 32 (λ acl v1.
      eat_owner dir safedir (record ie { st_mode = string_to_permission permission }) v1)

unfoldable pub eat_entry : Option Bytes → Option Bytes → IndexEntry → Bytes → Eat
unfolding take_field read_permission
eat_entry dir safedir ie v = take_field v 0 32 (read_permission dir safedir ie)
