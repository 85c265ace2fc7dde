-- ===== src/Index/Permissions/Completed.antt =====
-- src/filesystem.cc: what stringToPermission makes of what permissionString prints.
use beak.Prelude.{◌≤◌}
use beak.Prelude.{
  ℕ, ◌+◌, ◌*◌, ◌/◌, ◌%◌, ◌<◌, ◌≡◌, refl, ap, ◌∙◌, true, false, not, ◌&&◌, some, [], ◌∷◌, ◌==◌, inl,
  inr, arith, ◌⊎◌, if◌then◌else◌, Bytes, at, Bool-cases, ==_refl,
}
use beak.Index.Permissions.{
  has_bit, is_kind, type_char, bit_char, exec_char, permission_string, read_type, read_bit,
  read_exec, permission_bits, string_to_permission, s_ififo, s_ifchr, s_ifdir, s_ifblk, s_ifreg,
  s_iflnk, s_ifsock,
}

-- The execute bit that a special bit stands for where it is not set itself.
unfoldable pub implied : ℕ → ℕ → ℕ → ℕ
implied special bit mode = if has_bit special mode && not (has_bit bit mode) then bit else 0

-- The mode with the execute bits that its setuid, setgid and sticky bits stand for.
unfoldable pub completed : ℕ → ℕ
unfolding implied
completed mode = mode + implied 2048 64 mode + implied 1024 8 mode + implied 512 1 mode

-- The mode has one of the seven types that files have.
abbrev pub HasType : ℕ → Type 0
HasType mode =
    (mode < 65536)
    × ((is_kind s_ifdir mode ≡ true)
        ⊎ ((is_kind s_iflnk mode ≡ true)
            ⊎ ((is_kind s_ifchr mode ≡ true)
                ⊎ ((is_kind s_ifblk mode ≡ true)
                    ⊎ ((is_kind s_ififo mode ≡ true)
                        ⊎ ((is_kind s_ifsock mode ≡ true) ⊎ (is_kind s_ifreg mode ≡ true)))))))

bit_cases : (n : ℕ) → (n % 2 ≡ 1) ⊎ (n % 2 ≡ 0)
bit_cases n = grind arith

read_bit-bit_char :
    (letter bit mode : ℕ)
    → (letter == b'-') ≡ false
    → read_bit letter bit (bit_char letter bit mode) ≡ some (bit * (mode / bit % 2))
unfolding read_bit bit_char has_bit
read_bit-bit_char letter bit mode h = elim (Bool-cases (mode / bit % 2 == 1)) [
  | inl e ↦
      let one : mode / bit % 2 ≡ 1 = ground arith in
      rw (one, ==_refl letter) (ap some (omega arith))
  | inr e ↦
      let none_set : mode / bit % 2 ≡ 0 = ground arith in
      let other : (b'-' == letter) ≡ false = ground arith in
      rw (none_set, other) (ap some (omega arith))
]

read_exec-exec_char :
    (letter special bit mode : ℕ)
    → (letter == b'-') ≡ false
    → (letter == b'x') ≡ false
    → read_exec letter special bit (exec_char letter special bit mode)
      ≡ some (special * (mode / special % 2) + bit * (mode / bit % 2) + implied special bit mode)
unfolding read_exec exec_char has_bit implied
read_exec-exec_char letter special bit mode h k = elim (bit_cases (mode / special)) [
  | inl s ↦ elim (bit_cases (mode / bit)) [
    | inl x ↦ rw (s, x, k, ==_refl letter) (ap some (omega arith))
    | inr x ↦ rw (s, x, k, ==_refl letter) (ap some (omega arith))
  ]
  | inr s ↦ elim (bit_cases (mode / bit)) [
    | inl x ↦ rw (s, x) (ap some (omega arith))
    | inr x ↦
        let other : (b'-' == letter) ≡ false = ground arith in
        rw (s, x, other) (ap some (omega arith))
  ]
]

read_type-type_char :
    (mode : ℕ)
    → HasType mode
    → (t : ℕ) × (type_char mode ≡ some t) × (read_type t ≡ some (mode / 4096 * 4096))
unfolding type_char is_kind read_type
read_type-type_char mode (small, kind) = elim kind [
  | inl k ↦ let e : mode / 4096 ≡ 4 = ground (arith, small) in (b'd', rw e refl, rw e refl)
  | inr kind ↦ elim kind [
    | inl k ↦ let e : mode / 4096 ≡ 10 = ground (arith, small) in (b'l', rw e refl, rw e refl)
    | inr kind ↦ elim kind [
      | inl k ↦ let e : mode / 4096 ≡ 2 = ground (arith, small) in (b'c', rw e refl, rw e refl)
      | inr kind ↦ elim kind [
        | inl k ↦ let e : mode / 4096 ≡ 6 = ground (arith, small) in (b'b', rw e refl, rw e refl)
        | inr kind ↦ elim kind [
          | inl k ↦ let e : mode / 4096 ≡ 1 = ground (arith, small) in (b'p', rw e refl, rw e refl)
          | inr kind ↦ elim kind [
            | inl k ↦
                let e : mode / 4096 ≡ 12 = ground (arith, small) in (b's', rw e refl, rw e refl)
            | inr k ↦
                let e : mode / 4096 ≡ 8 = ground (arith, small) in (b'-', rw e refl, rw e refl)
          ]
        ]
      ]
    ]
  ]
]

mode_positive : (mode : ℕ) → HasType mode → 0 < mode
unfolding is_kind
mode_positive mode (small, kind) = ground arith

-- The text for a file of type `t`.
unfoldable pub shown : ℕ → ℕ → Bytes
shown t mode =
    t
    ∷ bit_char b'r' 256 mode
    ∷ bit_char b'w' 128 mode
    ∷ exec_char b's' 2048 64 mode
    ∷ bit_char b'r' 32 mode
    ∷ bit_char b'w' 16 mode
    ∷ exec_char b's' 1024 8 mode
    ∷ bit_char b'r' 4 mode
    ∷ bit_char b'w' 2 mode
    ∷ exec_char b't' 512 1 mode
    ∷ []

low_bits :
    (mode : ℕ)
    → mode
      ≡ mode / 4096 * 4096
        + (256 * (mode / 256 % 2))
        + (128 * (mode / 128 % 2))
        + (2048 * (mode / 2048 % 2) + 64 * (mode / 64 % 2))
        + (32 * (mode / 32 % 2))
        + (16 * (mode / 16 % 2))
        + (1024 * (mode / 1024 % 2) + 8 * (mode / 8 % 2))
        + (4 * (mode / 4 % 2))
        + (2 * (mode / 2 % 2))
        + (512 * (mode / 512 % 2) + 1 * (mode / 1 % 2))
low_bits mode = omega arith

exec_value : ℕ → ℕ → ℕ → ℕ
exec_value special bit mode =
    special * (mode / special % 2) + bit * (mode / bit % 2) + implied special bit mode

permission_bits-shown :
    (t kind mode : ℕ)
    → read_type t ≡ some kind
    → permission_bits (shown t mode)
      ≡ some (
          kind
          + 256 * (mode / 256 % 2)
          + 128 * (mode / 128 % 2)
          + exec_value 2048 64 mode
          + 32 * (mode / 32 % 2)
          + 16 * (mode / 16 % 2)
          + exec_value 1024 8 mode
          + 4 * (mode / 4 % 2)
          + 2 * (mode / 2 % 2)
          + exec_value 512 1 mode)
unfolding permission_bits shown exec_value at
permission_bits-shown t kind mode back =
    rw
      (
        back,
        read_bit-bit_char b'r' 256 mode refl,
        read_bit-bit_char b'w' 128 mode refl,
        read_exec-exec_char b's' 2048 64 mode refl refl,
        read_bit-bit_char b'r' 32 mode refl,
        read_bit-bit_char b'w' 16 mode refl,
        read_exec-exec_char b's' 1024 8 mode refl refl,
        read_bit-bit_char b'r' 4 mode refl,
        read_bit-bit_char b'w' 2 mode refl,
        read_exec-exec_char b't' 512 1 mode refl refl,
        permission_bits,
      )
      refl

-- For a mode of 16 bits with one of the seven types of files, permissionString fails no assertion,
-- and stringToPermission reads from its text the mode with the execute bits added that the setuid,
-- the setgid and the sticky bit stand for; the result is not the 0 of an error.
pub string-permission_string :
    (mode : ℕ)
    → HasType mode
    → (s : Bytes) × (permission_string mode ≡ some s)
      × (string_to_permission s ≡ completed mode)
      × (0 < completed mode)
unfolding shown permission_string string_to_permission completed exec_value
string-permission_string mode h =
    let (t, typed, back) = read_type-type_char mode h in
    let bits = permission_bits-shown t (mode / 4096 * 4096) mode back in
    (
      shown t mode,
      rw typed refl,
      value (shown t mode) _ bits ∙ omega (arith, low_bits mode),
      omega (arith, mode_positive mode h),
    )
  where
    value : (s : Bytes) (rc : ℕ) → permission_bits s ≡ some rc → string_to_permission s ≡ rc
    value s rc e = rw (e, string_to_permission) refl

implied_bound : (special bit mode : ℕ) → implied special bit mode + bit * (mode / bit % 2) ≤ bit
unfolding implied has_bit
implied_bound special bit mode = elim (bit_cases (mode / bit)) [
  | inl x ↦
      let set : (mode / bit % 2 == 1) ≡ true = ground arith in
      elim (Bool-cases (mode / special % 2 == 1)) [
        | inl s ↦ rw (s, x) (omega arith)
        | inr s ↦ rw (s, x) (omega arith)
      ]
  | inr x ↦ elim (Bool-cases (mode / special % 2 == 1)) [
    | inl s ↦ rw (s, x) (omega arith)
    | inr s ↦ rw (s, x) (omega arith)
  ]
]

-- The execute bits that are added leave the type alone.
pub completed-div : (mode : ℕ) → completed mode / 4096 ≡ mode / 4096
unfolding completed
completed-div mode = omega (
  arith,
  low_bits mode,
  implied_bound 2048 64 mode,
  implied_bound 1024 8 mode,
  implied_bound 512 1 mode,
)
