-- ===== src/Index/Rows/Rests.antt =====
-- src/tarentry.cc: the iterator of eatEntry only moves on, so that what it has before it is always
-- an end of the text.
use mathlib.Core.List.{append_assoc}
use beak.Prelude.{
  ℕ, ◌≡◌, sym, ap, ◌∙◌, ◌||◌, Option, none, some, ◌++◌, inl, inr, Bool-cases, ◌==◌, if◌then◌else◌,
  Bytes, codes, length, ltb, equal,
}
use beak.Text.Eating.{eat_to, eat_to_lem}
use beak.Index.Rows.Eaten.{
  IndexEntry, Eat, got, stopped, go_on, take_field, take_number, eat_hash, read_last, read_numbers,
  read_parts, eat_parts, read_offset, eat_offset, read_tar, eat_tar, eat_link, read_path, eat_path,
  read_nanos, read_time, eat_time, read_size, eat_size, read_owner, eat_owner, read_permission,
  eat_entry, atol, atoi, halves, read_link, prepend, drop_slash,
}
use beak.Index.Rows.{is_device}
use beak.Index.Permissions.{string_to_permission}

-- The text is an end of the file.
abbrev pub IsRest : Bytes → Bytes → Type 0
IsRest v r = (s : Bytes) × (v ≡ s ++ r)

-- The scanner stands behind what it was given.
pub eat_to-IsRest : (v : Bytes) (c max : ℕ) → IsRest v (eat_to v (some c) max).rest
eat_to-IsRest v c max =
    let ((gap, joined, short, flag), free, fits) = eat_to_lem v c max in
    (
      (eat_to v (some c) max).text ++ gap,
      joined ∙ sym (append_assoc (eat_to v (some c) max).text gap (eat_to v (some c) max).rest),
    )

module _ (w : Bytes) where
  IsRest-trans : (v r : Bytes) → IsRest w v → IsRest v r → IsRest w r
  IsRest-trans v r (s, e) (t, f) = (s ++ t, e ∙ ap (λ u. s ++ u) f ∙ sym (append_assoc s t r))

  pub eaten-IsRest : (v : Bytes) (c max : ℕ) → IsRest w v → IsRest w (eat_to v (some c) max).rest
  eaten-IsRest v c max h = IsRest-trans v _ h (eat_to-IsRest v c max)

  -- What an entry leaves is an end of the file.
  abbrev pub LeavesRest : Eat → Type 0
  LeavesRest (got e r end) = IsRest w r
  LeavesRest (stopped err end) = Unit

  take_field-LeavesRest :
      (v : Bytes) (c max : ℕ) (next : Bytes → Bytes → Eat)
      → LeavesRest (next (eat_to v (some c) max).text (eat_to v (some c) max).rest)
      → LeavesRest (take_field v c max next)
  unfolding take_field go_on
  take_field-LeavesRest v c max next h =
      elim (Bool-cases ((eat_to v (some c) max).err || (eat_to v (some c) max).eof)) [
        | inl e ↦ rw e tt
        | inr e ↦ rw e h
      ]

  column :
      (v : Bytes) (c max : ℕ) (next : Bytes → Bytes → Eat)
      → IsRest w v
      → ((s r : Bytes) → IsRest w r → LeavesRest (next s r))
      → LeavesRest (take_field v c max next)
  column v c max next h k = take_field-LeavesRest v c max next (k _ _ (eaten-IsRest v c max h))

  eat_hash-LeavesRest : (ie : IndexEntry) (v : Bytes) → IsRest w v → LeavesRest (eat_hash ie v)
  unfolding eat_hash
  eat_hash-LeavesRest ie v h = elim (Bool-cases (eat_to v (some 0) 65).err) [
    | inl e ↦ rw e tt
    | inr e ↦ rw e (eaten-IsRest v 0 65 h)
  ]

  read_last-LeavesRest :
      (ie : IndexEntry) (a b c d e : ℕ) (m v : Bytes)
      → IsRest w v
      → LeavesRest (read_last ie a b c d e m v)
  unfolding read_last
  read_last-LeavesRest ie a b c d e m v h = eat_hash-LeavesRest _ v h

  take_number-LeavesRest :
      (m : Bytes) (next : ℕ → Bytes → Eat)
      → ((n : ℕ) (m1 : Bytes) → LeavesRest (next n m1))
      → LeavesRest (take_number m next)
  unfolding take_number
  take_number-LeavesRest m next h =
      take_field-LeavesRest m b',' 64 (λ s m1. next (atol s) m1) (h _ _)

  read_numbers-LeavesRest :
      (ie : IndexEntry) (m v : Bytes) → IsRest w v → LeavesRest (read_numbers ie m v)
  unfolding read_numbers
  read_numbers-LeavesRest ie m v h = take_number-LeavesRest m _ (λ a m1.
      take_number-LeavesRest m1 _ (λ b m2. take_number-LeavesRest m2 _ (λ c m3.
        take_number-LeavesRest m3 _ (λ d m4.
          take_number-LeavesRest m4 _ (λ e m5. read_last-LeavesRest ie a b c d e m5 v h)))))

  read_parts-LeavesRest :
      (ie : IndexEntry) (m v : Bytes) → IsRest w v → LeavesRest (read_parts ie m v)
  unfolding read_parts
  read_parts-LeavesRest ie m v h = elim (Bool-cases (equal m (codes "1"))) [
    | inl e ↦ rw e (eat_hash-LeavesRest _ v h)
    | inr e ↦ rw e (read_numbers-LeavesRest ie m v h)
  ]

  eat_offset-LeavesRest : (ie : IndexEntry) (v : Bytes) → IsRest w v → LeavesRest (eat_offset ie v)
  unfolding eat_offset read_offset eat_parts
  eat_offset-LeavesRest ie v h = column v 0 32 (read_offset ie) h (λ s r k.
      column r 0 128 (read_parts (record ie { offset = atol s })) k
        (λ m v1. read_parts-LeavesRest (record ie { offset = atol s }) m v1))

  module _ (safedir : Option Bytes) where
    eat_link-LeavesRest :
        (ie : IndexEntry) (v : Bytes) → IsRest w v → LeavesRest (eat_link safedir ie v)
    unfolding eat_link eat_tar read_tar
    eat_link-LeavesRest ie v h =
        column v 0 1024 (λ s r. eat_tar safedir (read_link ie s) r) h
          (λ s r k. column r 0 1024 (read_tar safedir (read_link ie s)) k (λ t v1 l.
            eat_offset-LeavesRest
              (record (read_link ie s) { tarr = if ltb 0 (length t) then prepend safedir t else t })
              v1 l))

    module _ (dir : Option Bytes) where
      eat_path-LeavesRest :
          (ie : IndexEntry) (v : Bytes) → IsRest w v → LeavesRest (eat_path dir safedir ie v)
      unfolding eat_path read_path
      eat_path-LeavesRest ie v h =
          column v 0 1024 (read_path dir safedir ie) h
            (λ s r k. eat_link-LeavesRest (record ie { path = drop_slash (prepend dir s) }) r k)

      read_nanos-LeavesRest :
          (ie : IndexEntry) (v se j : Bytes)
          → IsRest w v
          → LeavesRest (read_nanos dir safedir ie v se j)
      unfolding read_nanos
      read_nanos-LeavesRest ie v se j h =
          eat_path-LeavesRest
            (record ie { mtim_sec = atol se; mtim_nsec = atol (eat_to j none 64).text }) v h

      eat_time-LeavesRest :
          (ie : IndexEntry) (v : Bytes) → IsRest w v → LeavesRest (eat_time dir safedir ie v)
      unfolding eat_time read_time
      eat_time-LeavesRest ie v h = column v 0 64 (read_time dir safedir ie) h (λ s r k.
          take_field-LeavesRest s b'.' 64 (read_nanos dir safedir ie r) (
            read_nanos-LeavesRest ie r (eat_to s (some b'.') 64).text (eat_to s (some b'.') 64).rest
              k))

      read_size-LeavesRest :
          (ie : IndexEntry) (si v : Bytes) → IsRest w v → LeavesRest (read_size dir safedir ie si v)
      unfolding read_size
      read_size-LeavesRest ie si v h =
          eat_time-LeavesRest
            (if is_device ie.st_mode
              then record ie { st_rdev = (atoi (halves b',' si).0, atoi (halves b',' si).1) }
              else record ie { st_size = atol si })
            v h

      eat_owner-LeavesRest :
          (ie : IndexEntry) (v : Bytes) → IsRest w v → LeavesRest (eat_owner dir safedir ie v)
      unfolding eat_owner read_owner eat_size
      eat_owner-LeavesRest ie v h = column v 0 32 (read_owner dir safedir ie) h (λ s r k.
          column r 0 32
            (read_size dir safedir
              (record ie { st_uid = atoi (halves b'/' s).0; st_gid = atoi (halves b'/' s).1 }))
            k
            (λ t v1 l.
              read_size-LeavesRest
                (record ie { st_uid = atoi (halves b'/' s).0; st_gid = atoi (halves b'/' s).1 }) t
                v1 l))

      pub eat_entry-LeavesRest :
          (ie : IndexEntry) (v : Bytes) → IsRest w v → LeavesRest (eat_entry dir safedir ie v)
      unfolding eat_entry read_permission
      eat_entry-LeavesRest ie v h = column v 0 32 (read_permission dir safedir ie) h (λ s r k.
          elim (Bool-cases (string_to_permission s == 0)) [
            | inl e ↦ rw e tt
            | inr e ↦ rw e (
                column r 0 32
                  (λ acl v1.
                    eat_owner dir safedir (record ie { st_mode = string_to_permission s }) v1)
                  k
                  (λ acl v1 l.
                    eat_owner-LeavesRest (record ie { st_mode = string_to_permission s }) v1 l))
          ])
