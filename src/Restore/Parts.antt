-- ===== src/Restore/Parts.antt =====
-- src/restore.cc, findPartContainingOffset, against src/tarfile.cc: the part and the offset that a
-- restore reads are those where the backup put the byte.
use beak.Prelude.{
  ℕ, ◌+◌, ◌-◌, ◌*◌, ◌/◌, ◌≤◌, ◌<◌, ◌≡◌, ◌∙◌, refl, true, some, arith, ltb, inl, inr, Bool-cases,
  lt→ltb, le→ltb, ap,
}
use beak.Prelude.Words.{
  u64_mod, u32_mod, u32_exact, add64_exact, sub64_exact, mul64_exact, sub32_exact,
}
use beak.Tar.Parts.{PartSizes, calculate_origin_tar_offset}
use beak.Tar.Parts.Origin.{IsSplitFile, IsDataOffset, part_content_size_lem, origin_exact, size_of}
use beak.Tar.Parts.Places.{part_of, offset_of, place_of}
use beak.Restore.{RestoreEntry, find_part_containing_offset, length_of_part}

-- The sizes of the tar file that the entry is stored in.
pub record HasSizes (e : RestoreEntry) (t : PartSizes) : Type 0 where
  pub same_count : e.num_parts ≡ t.num_parts
  pub same_header : e.part_offset ≡ t.part_header_size
  pub same_size : e.part_size ≡ t.part_size
  pub same_last : e.last_part_size ≡ t.last_part_size

-- In words: without the first part, the part before is counted, and the rest lies behind its
-- header.
later_part :
    (p h o n total count : ℕ)
    → h < p
    → p ≤ o
    → o < total
    → (o - p) / (p - h) ≡ n
    → ((o - h) / (p - h) ≡ n + 1)
      × (n * (p - h) ≤ o - p)
      × (o - p - n * (p - h) + h ≡ o - (n + 1) * (p - h))
later_part p h o n total count a b c e = grind arith

find_part_later :
    (e : RestoreEntry) (p h o n : ℕ)
    → e.part_size ≡ p
    → e.part_offset ≡ h
    → h < p
    → p ≤ o
    → o < u64_mod
    → (o - p) / (p - h) ≡ n
    → n + 1 < u32_mod
    → n * (p - h) ≤ o - p
    → find_part_containing_offset e o ≡ some (n + 1, o - p - n * (p - h) + h)
unfolding find_part_containing_offset
find_part_later e p h o n x y a b c q k m =
    rw
      (
        x,
        y,
        le→ltb o p b,
        sub64_exact o p b c,
        sub64_exact p h (omega arith) (omega arith),
        lt→ltb 0 (p - h) (omega arith),
        q,
        u32_exact n (omega arith),
        mul64_exact n (p - h) (omega arith),
        sub64_exact (o - p) (n * (p - h)) m (omega arith),
        u32_exact (n + 1) k,
        add64_exact (o - p - n * (p - h)) h (omega arith),
      )
      refl

first_part :
    (e : RestoreEntry) (o p : ℕ)
    → e.part_size ≡ p
    → ltb o p ≡ true
    → find_part_containing_offset e o ≡ some (0, o)
unfolding find_part_containing_offset
first_part e o p x h = rw (x, h) refl

pub length_of_part-size_of :
    (e : RestoreEntry) (t : PartSizes) (k : ℕ)
    → IsSplitFile t
    → HasSizes e t
    → k < t.num_parts
    → length_of_part e k ≡ size_of t k
unfolding length_of_part
length_of_part-size_of e t k v s h =
    let last = sub32_exact t.num_parts 1 (omega (arith, v.several)) v.count_fits in
    rw (s.same_count, last, s.same_last, s.same_size) (ground arith)

pub find_part_exact :
    (e : RestoreEntry) (t : PartSizes) (o : ℕ)
    → IsSplitFile t
    → HasSizes e t
    → o < t.content_size
    → find_part_containing_offset e o ≡ some (part_of t o, offset_of t o)
unfolding part_of offset_of
find_part_exact e t o v s h = elim (Bool-cases (ltb o t.part_size)) [
  | inl first ↦
      first_part e o t.part_size s.same_size first
      ∙ rw first (ap (λ (k : ℕ). some (0, k)) (omega arith))
  | inr later ↦
      let n = (o - t.part_size) / (t.part_size - t.part_header_size) in
      let (count, below, rest) =
        later_part t.part_size t.part_header_size o n t.content_size t.num_parts v.header_fits
          (ground arith) h refl in
      let part : part_of t o ≡ n + 1 = rw later count in
      let bound : n + 1 < u32_mod = omega (arith, part, (place_of t o v h).0, v.count_fits) in
      find_part_later e t.part_size t.part_header_size o n s.same_size s.same_header v.header_fits
        (ground arith) (omega (arith, v.size_fits)) refl bound below
      ∙ rw (later, count) (ap (λ (k : ℕ). some (n + 1, k)) rest)
]

-- For an entry with the sizes of a split tar file, the part and the offset that a restore finds for
-- a byte of the tar file hold data there, inside of the part, and calculateOriginTarOffset gives
-- the byte back.
pub find_part_containing_offset_origin :
    (e : RestoreEntry) (t : PartSizes) (o : ℕ)
    → IsSplitFile t
    → HasSizes e t
    → o < t.content_size
    → (k : ℕ) × (offset : ℕ) × (find_part_containing_offset e o ≡ some (k, offset))
      × IsDataOffset t k offset
      × (offset < length_of_part e k)
      × (calculate_origin_tar_offset t k offset ≡ some o)
find_part_containing_offset_origin e t o v s h =
    let (a, b, c, same) = place_of t o v h in
    let k = part_of t o in
    let offset = offset_of t o in
    (
      k,
      offset,
      find_part_exact e t o v s h,
      (size_of t k, part_content_size_lem t k v a, a, b, c),
      rw (length_of_part-size_of e t k v s a) c,
      origin_exact t k offset v a b c ∙ ap some same,
    )
