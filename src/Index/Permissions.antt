-- ===== src/Index/Permissions.antt =====
-- src/filesystem.cc: permissionString and stringToPermission, with the tests of
-- src/filesystem_posix.cc. A mode is a number; bits that are not set yet are added with +.
pub mod Completed
pub mod Plain
use beak.Prelude.{
  ℕ, ◌+◌, ◌*◌, ◌/◌, ◌%◌, Bool, true, false, not, ◌&&◌, Option, none, some, List, [], ◌∷◌, ◌==◌,
  if◌then◌else◌, ◌>>=◌, ◌>>◌, Bytes, at,
}

-- The S_IF bits.
abbrev pub s_ififo : ℕ
s_ififo = 4096

abbrev pub s_ifchr : ℕ
s_ifchr = 2 * 4096

abbrev pub s_ifdir : ℕ
s_ifdir = 4 * 4096

abbrev pub s_ifblk : ℕ
s_ifblk = 6 * 4096

abbrev pub s_ifreg : ℕ
s_ifreg = 8 * 4096

abbrev pub s_iflnk : ℕ
s_iflnk = 10 * 4096

abbrev pub s_ifsock : ℕ
s_ifsock = 12 * 4096

-- S_ISDIR and its like: the bits of the type are those of `kind`.
unfoldable pub is_kind : ℕ → ℕ → Bool
is_kind kind mode = mode / 4096 % 16 * 4096 == kind

-- mode & bit, for a bit that is a power of two.
unfoldable pub has_bit : ℕ → ℕ → Bool
has_bit bit mode = mode / bit % 2 == 1

-- The first character. `none` is the assertion that the file is a regular one.
unfoldable pub type_char : ℕ → Option ℕ
unfolding is_kind
type_char mode =
    if is_kind s_ifdir mode
    then some b'd'
    else if is_kind s_iflnk mode
    then some b'l'
    else if is_kind s_ifchr mode
    then some b'c'
    else if is_kind s_ifblk mode
    then some b'b'
    else if is_kind s_ififo mode
    then some b'p'
    else if is_kind s_ifsock mode
    then some b's'
    else if is_kind s_ifreg mode
    then some b'-'
    else none

unfoldable pub bit_char : ℕ → ℕ → ℕ → ℕ
unfolding has_bit
bit_char letter bit mode = if has_bit bit mode then letter else b'-'

unfoldable pub exec_char : ℕ → ℕ → ℕ → ℕ → ℕ
unfolding has_bit
exec_char letter special bit mode =
    if has_bit special mode then letter else if has_bit bit mode then b'x' else b'-'

unfoldable pub permission_string : ℕ → Option Bytes
unfolding type_char bit_char exec_char
permission_string mode = type_char mode >>= λ t. some (
    t
    ∷ bit_char b'r' 256 mode
    ∷ bit_char b'w' 128 mode
    ∷ exec_char b's' 2048 64 mode
    ∷ bit_char b'r' 32 mode
    ∷ bit_char b'w' 16 mode
    ∷ exec_char b's' 1024 8 mode
    ∷ bit_char b'r' 4 mode
    ∷ bit_char b'w' 2 mode
    ∷ exec_char b't' 512 1 mode
    ∷ [])

unfoldable pub read_type : ℕ → Option ℕ
read_type c =
    if c == b'd'
    then some s_ifdir
    else if c == b'l'
    then some s_iflnk
    else if c == b'c'
    then some s_ifchr
    else if c == b'b'
    then some s_ifblk
    else if c == b'p'
    then some s_ififo
    else if c == b's'
    then some s_ifsock
    else if c == b'-'
    then some s_ifreg
    else none

unfoldable pub read_bit : ℕ → ℕ → ℕ → Option ℕ
read_bit letter bit c = if c == letter then some bit else if c == b'-' then some 0 else none

unfoldable pub read_exec : ℕ → ℕ → ℕ → ℕ → Option ℕ
read_exec letter special bit c =
    if c == b'x'
    then some bit
    else if c == letter
    then some (bit + special)
    else if c == b'-'
    then some 0
    else none

-- Up to the label `err`, where the code returns 0.
unfoldable pub permission_bits : Bytes → Option ℕ
unfolding read_type read_bit read_exec at
permission_bits s = do
  t ← read_type (at s 0)
  ur ← read_bit b'r' 256 (at s 1)
  uw ← read_bit b'w' 128 (at s 2)
  ux ← read_exec b's' 2048 64 (at s 3)
  gr ← read_bit b'r' 32 (at s 4)
  gw ← read_bit b'w' 16 (at s 5)
  gx ← read_exec b's' 1024 8 (at s 6)
  or ← read_bit b'r' 4 (at s 7)
  ow ← read_bit b'w' 2 (at s 8)
  ox ← read_exec b't' 512 1 (at s 9)
  some (t + ur + uw + ux + gr + gw + gx + or + ow + ox)

unfoldable pub string_to_permission : Bytes → ℕ
unfolding permission_bits
string_to_permission s = elim (permission_bits s) [ none ↦ 0 | some rc ↦ rc ]
