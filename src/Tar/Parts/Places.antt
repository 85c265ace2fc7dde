-- ===== src/Tar/Parts/Places.antt =====
-- src/tarfile.cc, calculateOriginTarOffset: the data bytes of the parts of a split file and the
-- bytes of the unsplit tar file correspond one to one.
use beak.Prelude.{
  ℕ, zero, suc, ◌+◌, ◌-◌, ◌*◌, ◌/◌, ◌≤◌, ◌<◌, ◌≡◌, refl, some, arith, ltb, if◌then◌else◌, inl, inr,
  Bool-cases, ap, sym, ◌∙◌, ℕ-cases, some_inj,
}
use beak.Tar.Parts.{PartSizes, calculate_origin_tar_offset}
use beak.Tar.Parts.Origin.{
  IsSplitFile, IsDataOffset, data_start, size_of, part_content_size_lem, origin_exact, below_size,
}

pub size_of-le : (t : PartSizes) (k : ℕ) → IsSplitFile t → size_of t k ≤ t.part_size
size_of-le t k v = ground (arith, v.last_fits)

data_start-pos : (t : PartSizes) (k : ℕ) → 0 < k → data_start t k ≡ t.part_header_size
data_start-pos t zero h = elim h [ ]
data_start-pos t (suc k) h = refl

-- A later part's data comes later in the tar file.
origins_apart :
    (t : PartSizes) (j k a b : ℕ)
    → IsSplitFile t
    → j < k
    → a < size_of t j
    → data_start t k ≤ b
    → a + j * (t.part_size - t.part_header_size) < b + k * (t.part_size - t.part_header_size)
origins_apart t j k a b v h l m =
    let d = t.part_size - t.part_header_size in
    let steps : (j + 1) * d ≤ k * d = grind arith in
    omega (arith, size_of-le t j v, data_start-pos t k (omega arith), v.header_fits)

same_place :
    (t : PartSizes) (j k a b : ℕ)
    → IsSplitFile t
    → IsDataOffset t j a
    → IsDataOffset t k b
    → a + j * (t.part_size - t.part_header_size) ≡ b + k * (t.part_size - t.part_header_size)
    → (j ≡ k) × (a ≡ b)
same_place t j k a b v x y e =
    let p = below_size t j a v x in
    let q = below_size t k b v y in
    let one : j ≡ k = elim (ℕ-cases j k) [
      | inl less ↦ absurd (omega (arith, origins_apart t j k a b v less p y.3))
      | inr (inl same) ↦ same
      | inr (inr more) ↦ absurd (omega (arith, origins_apart t k j b a v more q x.3))
    ] in
    (one, omega (arith, ap (λ (n : ℕ). n * (t.part_size - t.part_header_size)) one))

-- The place of a byte: its part, and its offset there.
unfoldable pub part_of : PartSizes → ℕ → ℕ
part_of t o =
    if ltb o t.part_size then 0 else (o - t.part_header_size) / (t.part_size - t.part_header_size)

unfoldable pub offset_of : PartSizes → ℕ → ℕ
offset_of t o = o - part_of t o * (t.part_size - t.part_header_size)

quotient_of :
    (h p last m total o k : ℕ)
    → h < p
    → p + m * (p - h) + (last - h) ≡ total
    → h < last
    → last ≤ p
    → p ≤ o
    → o < total
    → (o - h) / (p - h) ≡ k
    → (1 ≤ k)
      × (k < m + 2)
      × (k * (p - h) + h ≤ o)
      × (o < k * (p - h) + p)
      × (k ≡ m + 1 → o < k * (p - h) + last)
quotient_of h p last m total o k a e b c d f g = grind arith

pub place_of :
    (t : PartSizes) (o : ℕ)
    → IsSplitFile t
    → o < t.content_size
    → (part_of t o < t.num_parts)
      × (data_start t (part_of t o) ≤ offset_of t o)
      × (offset_of t o < size_of t (part_of t o))
      × (offset_of t o + part_of t o * (t.part_size - t.part_header_size) ≡ o)
unfolding part_of offset_of
place_of t o v h = elim (Bool-cases (ltb o t.part_size)) [
  | inl first ↦
      rw first (omega (arith, v.several), omega arith, ground (arith, v.several), omega arith)
  | inr later ↦
      let k = (o - t.part_header_size) / (t.part_size - t.part_header_size) in
      let (one, count, low, high, last) =
        quotient_of t.part_header_size t.part_size t.last_part_size (t.num_parts - 2) t.content_size
          o k v.header_fits v.conserved v.last_holds_data v.last_fits (ground arith) h refl in
      rw later (
        omega (arith, v.several),
        omega (arith, data_start-pos t k one),
        ground (arith, v.several, last),
        omega arith,
      )
]

-- In a split file, every byte of the unsplit tar file is the origin of a data offset of some part.
pub calculate_origin_tar_offset-onto :
    (t : PartSizes) (o : ℕ)
    → IsSplitFile t
    → o < t.content_size
    → (k : ℕ) × (offset : ℕ) × IsDataOffset t k offset
      × (calculate_origin_tar_offset t k offset ≡ some o)
calculate_origin_tar_offset-onto t o v h =
    let (a, b, c, e) = place_of t o v h in
    let k = part_of t o in
    let offset = offset_of t o in
    (
      k,
      offset,
      (size_of t k, part_content_size_lem t k v a, a, b, c),
      origin_exact t k offset v a b c ∙ ap some e,
    )

-- In a split file, two data offsets with one origin are the same offset of the same part.
pub calculate_origin_tar_offset_inj :
    (t : PartSizes) (j k a b : ℕ)
    → IsSplitFile t
    → IsDataOffset t j a
    → IsDataOffset t k b
    → calculate_origin_tar_offset t j a ≡ calculate_origin_tar_offset t k b
    → (j ≡ k) × (a ≡ b)
calculate_origin_tar_offset_inj t j k a b v x y e = same_place t j k a b v x y (
    some_inj (
      sym (origin_exact t j a v x.2 x.3 (below_size t j a v x))
      ∙ e
      ∙ origin_exact t k b v y.2 y.3 (below_size t k b v y)))
