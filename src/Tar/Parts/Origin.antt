-- ===== src/Tar/Parts/Origin.antt =====
-- src/tarfile.cc, calculateOriginTarOffset: the data bytes of the parts of a split file have an
-- origin in the unsplit tar file.
use beak.Prelude.{
  ℕ, zero, suc, ◌+◌, ◌-◌, ◌*◌, ◌≤◌, ◌<◌, ◌≡◌, false, some, arith, ltb, ◌==◌, if◌then◌else◌, inl,
  inr, Bool-cases, lt→ltb, le→leb, ap,
}
use beak.Prelude.Words.{u64_mod, u32_mod, add64_exact, sub64_exact, mul64_exact, sub32_exact}
use beak.Tar.Parts.{PartSizes, part_content_size, calculate_origin_tar_offset}

-- The sizes of a file that fixSize has split, within the range of the machine's words.
pub record IsSplitFile (t : PartSizes) : Type 0 where
  pub header_fits : t.part_header_size < t.part_size
  pub several : 2 ≤ t.num_parts
  pub count_fits : t.num_parts < u32_mod
  pub last_holds_data : t.part_header_size < t.last_part_size
  pub last_fits : t.last_part_size ≤ t.part_size
  pub conserved :
      t.part_size
        + (t.num_parts - 2) * (t.part_size - t.part_header_size)
        + (t.last_part_size - t.part_header_size)
      ≡ t.content_size
  pub size_fits : t.part_header_size + t.content_size < u64_mod

-- Where the data of a part begins: behind its header, which the first part does not have.
abbrev pub data_start : PartSizes → ℕ → ℕ
data_start t zero = 0
data_start t (suc k) = t.part_header_size

abbrev pub size_of : PartSizes → ℕ → ℕ
size_of t k = if ltb k (t.num_parts - 1) then t.part_size else t.last_part_size

pub part_content_size_lem :
    (t : PartSizes) (k : ℕ)
    → IsSplitFile t
    → k < t.num_parts
    → part_content_size t k ≡ some (size_of t k)
unfolding part_content_size
part_content_size_lem t k v h =
    let one : (t.num_parts == 1) ≡ false = ground (arith, v.several) in
    rw (
      lt→ltb k t.num_parts h,
      one,
      sub32_exact t.num_parts 1 (omega (arith, v.several)) v.count_fits,
    )

-- The arithmetic of a full part, and of the last one. `m` counts the parts between.
full_part :
    (p h m last total k offset : ℕ)
    → p + m * (p - h) + (last - h) ≡ total
    → h < last
    → k ≤ m
    → offset < p
    → offset + k * (p - h) < total
full_part p h m last total k offset e a b c =
    let steps : k * (p - h) ≤ m * (p - h) = grind arith in omega arith

last_part :
    (p h m last total offset : ℕ)
    → p + m * (p - h) + (last - h) ≡ total
    → h < last
    → last ≤ p
    → offset < last
    → offset + (m + 1) * (p - h) < total
last_part p h m last total offset e a b c = omega arith

origin_in_range :
    (t : PartSizes) (k offset : ℕ)
    → IsSplitFile t
    → k < t.num_parts
    → offset < size_of t k
    → offset + k * (t.part_size - t.part_header_size) < t.content_size
origin_in_range t k offset v a b = elim (Bool-cases (ltb k (t.num_parts - 1))) [
  | inl inner ↦
      full_part t.part_size t.part_header_size (t.num_parts - 2) t.last_part_size t.content_size k
        offset v.conserved v.last_holds_data (ground arith) (ground arith)
  | inr outer ↦
      let last : k ≡ t.num_parts - 2 + 1 = ground (arith, v.several) in
      rw last (
        last_part t.part_size t.part_header_size (t.num_parts - 2) t.last_part_size t.content_size
          offset v.conserved v.last_holds_data v.last_fits (ground arith))
]

-- In one formula: a part's offset moves by what the parts before it hold.
pub origin_exact :
    (t : PartSizes) (k offset : ℕ)
    → IsSplitFile t
    → k < t.num_parts
    → data_start t k ≤ offset
    → offset < size_of t k
    → calculate_origin_tar_offset t k offset
      ≡ some (offset + k * (t.part_size - t.part_header_size))
unfolding calculate_origin_tar_offset
origin_exact t zero offset v a b c = rw (lt→ltb 0 t.num_parts a) (ap some (omega arith))
origin_exact t (suc k) offset v a b c =
    let range = origin_in_range t (suc k) offset v a c in
    let fewer : suc k - 1 ≡ k = omega arith in
    let later : (suc k == 0) ≡ false = ground arith in
    rw
      (
        later,
        lt→ltb (suc k) t.num_parts a,
        le→leb t.part_header_size offset b,
        sub64_exact offset t.part_header_size b (omega (arith, v.size_fits)),
        sub32_exact (suc k) 1 (omega arith) (omega (arith, v.count_fits)),
        fewer,
        sub64_exact t.part_size t.part_header_size (omega (arith, v.header_fits))
            (omega (arith, v.size_fits, v.conserved)),
        mul64_exact k (t.part_size - t.part_header_size) (omega (arith, v.size_fits)),
        add64_exact (offset - t.part_header_size) t.part_size
            (omega (arith, v.size_fits, v.header_fits)),
        add64_exact (offset - t.part_header_size + t.part_size)
            (k * (t.part_size - t.part_header_size)) (omega (arith, v.size_fits, v.header_fits)),
      )
      (ap some (omega (arith, v.header_fits)))

-- The offsets of a part at which it holds data of the tar file.
abbrev pub IsDataOffset : PartSizes → ℕ → ℕ → Type 0
IsDataOffset t k offset =
    (size : ℕ) × (part_content_size t k ≡ some size)
    × (k < t.num_parts)
    × (data_start t k ≤ offset)
    × (offset < size)

pub below_size :
    (t : PartSizes) (k offset : ℕ) → IsSplitFile t → IsDataOffset t k offset → offset < size_of t k
below_size t k offset v (size, e, a, b, c) = ground (arith, part_content_size_lem t k v a)

-- Every data offset of every part has an origin, inside the tar file.
pub calculate_origin_tar_offset_bounds :
    (t : PartSizes) (k offset : ℕ)
    → IsSplitFile t
    → IsDataOffset t k offset
    → (origin : ℕ) × (calculate_origin_tar_offset t k offset ≡ some origin)
      × (origin < t.content_size)
calculate_origin_tar_offset_bounds t k offset v (size, e, a, b, c) =
    let below = below_size t k offset v (size, e, a, b, c) in
    (
      offset + k * (t.part_size - t.part_header_size),
      origin_exact t k offset v a b below,
      origin_in_range t k offset v a below,
    )
