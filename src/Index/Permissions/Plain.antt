-- ===== src/Index/Permissions/Plain.antt =====
-- src/filesystem.cc: the characters that permissionString prints.
use beak.Prelude.{>>=-eq-some, some_inj, subst, has_char, length}
use beak.Prelude.{ℕ, ◌≡◌, refl, false, some, ◌==◌, inl, inr, arith, Bytes, Bool-cases}
use beak.Index.Permissions.{has_bit, type_char, bit_char, exec_char, permission_string}
use beak.Index.Permissions.Completed.{shown}

bit_char-plain :
    (letter bit mode : ℕ) → (letter == 0) ≡ false → (bit_char letter bit mode == 0) ≡ false
unfolding bit_char
bit_char-plain letter bit mode h = elim (Bool-cases (has_bit bit mode)) [
  | inl e ↦ rw e h
  | inr e ↦ rw e refl
]

exec_char-plain :
    (letter special bit mode : ℕ)
    → (letter == 0) ≡ false
    → (exec_char letter special bit mode == 0) ≡ false
unfolding exec_char
exec_char-plain letter special bit mode h = elim (Bool-cases (has_bit special mode)) [
  | inl e ↦ rw e h
  | inr s ↦ elim (Bool-cases (has_bit bit mode)) [ inl e ↦ rw (s, e) refl | inr e ↦ rw (s, e) refl ]
]

type_char-plain : (mode t : ℕ) → type_char mode ≡ some t → (t == 0) ≡ false
unfolding type_char
type_char-plain mode t h = ground arith

plain :
    (t mode : ℕ)
    → (t == 0) ≡ false
    → (has_char (shown t mode) 0 ≡ false) × (length (shown t mode) ≡ 10)
unfolding has_char shown
plain t mode h = (
  rw
      (
        h,
        bit_char-plain b'r' 256 mode refl,
        bit_char-plain b'w' 128 mode refl,
        exec_char-plain b's' 2048 64 mode refl,
        bit_char-plain b'r' 32 mode refl,
        bit_char-plain b'w' 16 mode refl,
        exec_char-plain b's' 1024 8 mode refl,
        bit_char-plain b'r' 4 mode refl,
        bit_char-plain b'w' 2 mode refl,
        exec_char-plain b't' 512 1 mode refl,
      )
      refl,
  omega arith,
)

-- The text of the permissions has ten characters, none of them zero.
pub permission_string-plain :
    (mode : ℕ) (s : Bytes)
    → permission_string mode ≡ some s
    → (has_char s 0 ≡ false) × (length s ≡ 10)
unfolding permission_string
permission_string-plain mode s h =
    let (t, typed, e) = >>=-eq-some (type_char mode) _ h in
    let same : shown t mode ≡ s = unfold shown in some_inj e in
    subst (λ (u : Bytes). (has_char u 0 ≡ false) × (length u ≡ 10)) same
      (plain t mode (type_char-plain mode t typed))
