-- ===== src/Restore/Reading.antt =====
-- src/restore.cc, readParts: a read that runs over the parts of a split tar file gives the bytes of
-- the tar file as it was before it was split.
use beak.Prelude.{
  ℕ, zero, suc, ◌+◌, ◌-◌, ◌^◌, ◌≤◌, ◌<◌, ◌≡◌, ◌∙◌, refl, false, Option, some, [], ◌∷◌, ◌++◌, arith,
  ltb, ◌==◌, inl, inr, Bool-cases, lt→ltb, ap, ◌>>=◌, Bytes, take, drop,
}
use beak.Prelude.Words.{u64_mod, add64, sub64, add64_exact, sub64_exact}
use beak.Prelude.Integers.{pos}
use beak.Tar.Parts.{PartSizes, calculate_origin_tar_offset}
use beak.Tar.Parts.Origin.{IsSplitFile, IsDataOffset, size_of, part_content_size_lem, origin_exact}
use beak.Tar.Parts.Places.{part_of, offset_of, place_of, size_of-le}
use beak.Restore.{
  RestoreEntry, PartReader, find_part_containing_offset, length_of_part, length_to_read,
  read_parts_loop, read_parts,
}
use beak.Restore.Parts.{HasSizes, find_part_exact, length_of_part-size_of}

-- So many bytes of a file, from an offset on.
abbrev pub bytes_from : (ℕ → ℕ) → ℕ → ℕ → Bytes
bytes_from f o zero = []
bytes_from f o (suc n) = f o ∷ bytes_from f (o + 1) n

-- A reader that fills the buffer with all that it is asked for. A byte of a part is the byte of the
-- unsplit tar file, `f`, at its origin.
abbrev pub Serves : PartSizes → (ℕ → ℕ) → PartReader → Type 0
Serves t f cb =
    (k offset amount origin : ℕ) (buffer : Bytes)
    → IsDataOffset t k offset
    → 0 < amount
    → offset + amount ≤ size_of t k
    → amount < 2 ^ 31
    → calculate_origin_tar_offset t k offset ≡ some origin
    → cb k offset buffer amount
      ≡ some (pos amount, bytes_from f origin amount ++ drop amount buffer)

bytes_from_add :
    (f : ℕ → ℕ) (o a b : ℕ) (s : Bytes)
    → bytes_from f o a ++ (bytes_from f (o + a) b ++ s) ≡ bytes_from f o (a + b) ++ s
bytes_from_add f o zero b s =
    let same : o + 0 ≡ o = omega arith in
    rw same (ap (λ (i : ℕ). bytes_from f o i ++ s) (omega arith))
bytes_from_add f o (suc a) b s =
    let same : o + suc a ≡ o + 1 + a = omega arith in
    let counted : suc a + b ≡ suc (a + b) = omega arith in
    rw (same, counted) (ap (λ (r : Bytes). f o ∷ r) (bytes_from_add f (o + 1) a b s))

take-bytes_from :
    (f : ℕ → ℕ) (o n : ℕ) (s : Bytes) → take n (bytes_from f o n ++ s) ≡ bytes_from f o n
take-bytes_from f o zero s = refl
take-bytes_from f o (suc n) s = ap (λ (r : Bytes). f o ∷ r) (take-bytes_from f (o + 1) n s)

drop-bytes_from : (f : ℕ → ℕ) (o n : ℕ) (s : Bytes) → drop n (bytes_from f o n ++ s) ≡ s
drop-bytes_from f o zero s = refl
drop-bytes_from f o (suc n) s = drop-bytes_from f (o + 1) n s

drop_nothing : (n : ℕ) → drop {A = ℕ} n [] ≡ []
drop_nothing zero = refl
drop_nothing (suc n) = refl

drop-drop : (a b : ℕ) (s : Bytes) → drop b (drop a s) ≡ drop (a + b) s
drop-drop zero b s = ap (λ (i : ℕ). drop i s) (omega arith)
drop-drop (suc a) b [] =
    let same : suc a + b ≡ suc (a + b) = omega arith in rw same (drop_nothing b)
drop-drop (suc a) b (x ∷ s) =
    let same : suc a + b ≡ suc (a + b) = omega arith in rw same (drop-drop a b s)

length_to_read_lem :
    (e : RestoreEntry) (k offset left size : ℕ)
    → length_of_part e k ≡ size
    → offset < size
    → size < u64_mod
    → left + offset < u64_mod
    → 0 < left
    → (m : ℕ) × (length_to_read e k offset left ≡ suc m) × (suc m ≤ left) × (offset + suc m ≤ size)
unfolding length_to_read
length_to_read_lem e k offset left size same a b c d =
    rw (same, add64_exact left offset c)
      (elim (Bool-cases (ltb size (left + offset))) [
        | inl short ↦ (
          size - offset - 1,
          rw (short, sub64_exact size offset (omega arith) b) (omega arith),
          ground arith,
          omega arith,
        )
        | inr whole ↦ (left - 1, rw whole (omega arith), omega arith, ground arith)
      ])

-- One round of the loop that reads something.
read_step :
    (fuel n o left k offset m : ℕ) (e : RestoreEntry) (cb : PartReader) (buffer filled : Bytes)
    → 0 < left
    → find_part_containing_offset e o ≡ some (k, offset)
    → length_to_read e k offset left ≡ suc m
    → cb k offset buffer (suc m) ≡ some (pos (suc m), filled)
    → read_parts_loop (suc fuel) e cb n o buffer left ≡ (
        read_parts_loop fuel e cb
          (n + suc m)
          (add64 o (suc m))
          (drop (suc m) filled)
          (sub64 left (suc m))
        >>= λ r. some (r.0, take (suc m) filled ++ r.1))
unfolding read_parts_loop
read_step fuel n o left k offset m e cb buffer filled some_left found amount served =
    let more : (left == 0) ≡ false = ground arith in
    rw (more, found) (rw amount (rw (lt→ltb 0 (suc m) (omega arith)) (rw served (rw amount refl))))

abbrev answer : ℕ → Bytes → Option (ℕ × Bytes)
answer n s = some (n, s)

-- What a round and the rounds after it answer together.
read_joined :
    (f : ℕ → ℕ) (n o left m : ℕ) (buffer : Bytes)
    → suc m ≤ left
    → answer (n + suc m + (left - suc m)) (
        bytes_from f o (suc m)
        ++ (bytes_from f (o + suc m) (left - suc m) ++ drop (left - suc m) (drop (suc m) buffer)))
      ≡ some (n + left, bytes_from f o left ++ drop left buffer)
read_joined f n o left m buffer h =
    let total : n + suc m + (left - suc m) ≡ n + left = omega arith in
    let split : suc m + (left - suc m) ≡ left = omega arith in
    let same =
      bytes_from_add f o (suc m) (left - suc m) (drop (left - suc m) (drop (suc m) buffer)) in
    ap (answer (n + suc m + (left - suc m))) same
    ∙ rw (total, drop-drop (suc m) (left - suc m) buffer, split) refl

-- A round that fills `m + 1` bytes, and then what the rounds after it do.
read_round :
    (fuel n o left k offset m : ℕ) (e : RestoreEntry) (f : ℕ → ℕ) (cb : PartReader)
    (buffer filled : Bytes)
    → o + left < u64_mod
    → suc m ≤ left
    → find_part_containing_offset e o ≡ some (k, offset)
    → length_to_read e k offset left ≡ suc m
    → cb k offset buffer (suc m) ≡ some (pos (suc m), filled)
    → take (suc m) filled ≡ bytes_from f o (suc m)
    → drop (suc m) filled ≡ drop (suc m) buffer
    → read_parts_loop fuel e cb (n + suc m) (o + suc m) (drop (suc m) buffer) (left - suc m)
      ≡ some (
        n + suc m + (left - suc m),
        bytes_from f (o + suc m) (left - suc m) ++ drop (left - suc m) (drop (suc m) buffer),
      )
    → read_parts_loop (suc fuel) e cb n o buffer left
      ≡ some (n + left, bytes_from f o left ++ drop left buffer)
read_round fuel n o left k offset m e f cb buffer filled fits le found amount served head tail
      rest =
    read_step fuel n o left k offset m e cb buffer filled (omega arith) found amount served
    ∙ rw
        (
          head,
          tail,
          add64_exact o (suc m) (omega arith),
          sub64_exact left (suc m) le (omega arith),
          rest,
        )
        (read_joined f n o left m buffer le)

read_parts_loop_exact :
    (fuel n o left : ℕ) (e : RestoreEntry) (t : PartSizes) (f : ℕ → ℕ) (cb : PartReader)
    (buffer : Bytes)
    → IsSplitFile t
    → HasSizes e t
    → Serves t f cb
    → left < 2 ^ 31
    → left ≤ fuel
    → o + left ≤ t.content_size
    → read_parts_loop fuel e cb n o buffer left
      ≡ some (n + left, bytes_from f o left ++ drop left buffer)
unfolding read_parts_loop
read_parts_loop_exact zero n o left e t f cb buffer v s serves small a b =
    let none_left : left ≡ 0 = omega arith in
    rw none_left (ap (λ (i : ℕ). some (i, buffer)) (omega arith))
read_parts_loop_exact (suc fuel) n o left e t f cb buffer v s serves small a b =
    elim (Bool-cases (left == 0)) [
      | inl done ↦
          let none_left : left ≡ 0 = ground arith in
          rw none_left (ap (λ (i : ℕ). some (i, buffer)) (omega arith))
      | inr more ↦
          let (inner, start, below, same) = place_of t o v (ground arith) in
          let k = part_of t o in
          let offset = offset_of t o in
          let (m, amount, le, inside) =
            length_to_read_lem e k offset left (size_of t k)
              (length_of_part-size_of e t k v s inner) below
              (omega (arith, size_of-le t k v, v.size_fits, v.conserved))
              (omega (arith, v.size_fits)) (ground arith) in
          let holds : IsDataOffset t k offset =
            (size_of t k, part_content_size_lem t k v inner, inner, start, below) in
          let origin = origin_exact t k offset v inner start below ∙ ap some same in
          read_round fuel n o left k offset m e f cb buffer
            (bytes_from f o (suc m) ++ drop (suc m) buffer) (omega (arith, v.size_fits)) le
            (find_part_exact e t o v s (ground arith)) amount
            (serves k offset (suc m) o buffer holds (omega arith) inside (omega arith) origin)
            (take-bytes_from f o (suc m) (drop (suc m) buffer))
            (drop-bytes_from f o (suc m) (drop (suc m) buffer))
            (read_parts_loop_exact fuel (n + suc m) (o + suc m) (left - suc m) e t f cb
              (drop (suc m) buffer) v s serves (omega arith) (omega arith) (omega arith))
    ]

-- With enough room.
pub read_parts_exact :
    (e : RestoreEntry) (t : PartSizes) (f : ℕ → ℕ) (cb : PartReader) (file_offset left : ℕ)
    (buffer : Bytes)
    → IsSplitFile t
    → HasSizes e t
    → Serves t f cb
    → left < 2 ^ 31
    → file_offset + e.offset + left ≤ t.content_size
    → read_parts e cb file_offset buffer left
      ≡ some (left, bytes_from f (file_offset + e.offset) left ++ drop left buffer)
unfolding read_parts
read_parts_exact e t f cb file_offset left buffer v s serves small h =
    rw (add64_exact file_offset e.offset (omega (arith, v.size_fits))) (
      read_parts_loop_exact left 0 (file_offset + e.offset) left e t f cb buffer v s serves small
        (omega arith) h
      ∙ ap (λ (i : ℕ). some (i, bytes_from f (file_offset + e.offset) left ++ drop left buffer))
          (omega arith))
