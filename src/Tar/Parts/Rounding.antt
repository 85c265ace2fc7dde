-- ===== src/Tar/Parts/Rounding.antt =====
-- src/util.cc, roundToThousandMultiple, and src/tarfile.cc, onDiskSize_: padded sizes.
use beak.Prelude.{
  ℕ, ◌+◌, ◌-◌, ◌%◌, ◌≤◌, ◌<◌, ◌≡◌, refl, not, ◌&&◌, Option, some, arith, ltb, leb, ◌==◌,
  if◌then◌else◌, inl, inr, Bool-cases,
}
use beak.Prelude.Words.{u64_mod, add64}
use beak.Tar.Split.{TarContents, PaddingStyle, no_padding, relative, absolute, is_index}
use beak.Tar.Parts.{rounding_unit, round_up, round_to_thousand_multiple, on_disk_size}

-- The least multiple of `m` that is not below `from`.
abbrev pub RoundsUp : ℕ → ℕ → Option ℕ → Type 0
RoundsUp from m r =
    (up : ℕ) × (r ≡ some up) × (from ≤ up) × (up < from + m) × (up % m ≡ 0) × (up % 1_000 ≡ 0)

rounded : ℕ → ℕ → ℕ
rounded from m = if from % m == 0 then from else from + (m - from % m)

RoundsUp-1000 : (from : ℕ) → from + 1_000_000 < u64_mod → RoundsUp from 1_000 (round_up from 1_000)
unfolding round_up add64 rounded
RoundsUp-1000 from h =
    (rounded from 1_000, ground arith, ground arith, ground arith, ground arith, ground arith)

RoundsUp-10000 :
    (from : ℕ) → from + 1_000_000 < u64_mod → RoundsUp from 10_000 (round_up from 10_000)
unfolding round_up add64 rounded
RoundsUp-10000 from h =
    (rounded from 10_000, ground arith, ground arith, ground arith, ground arith, ground arith)

RoundsUp-100000 :
    (from : ℕ) → from + 1_000_000 < u64_mod → RoundsUp from 100_000 (round_up from 100_000)
unfolding round_up add64 rounded
RoundsUp-100000 from h =
    (rounded from 100_000, ground arith, ground arith, ground arith, ground arith, ground arith)

RoundsUp-1000000 :
    (from : ℕ) → from + 1_000_000 < u64_mod → RoundsUp from 1_000_000 (round_up from 1_000_000)
unfolding round_up add64 rounded
RoundsUp-1000000 from h =
    (rounded from 1_000_000, ground arith, ground arith, ground arith, ground arith, ground arith)

-- Below 2^64 - 10^6, rounding passes its assertion and gives the least multiple of its unit that is
-- not below its argument; that is a multiple of 1000, less than a unit away.
pub round_to_thousand_multiple-RoundsUp :
    (from : ℕ)
    → from + 1_000_000 < u64_mod
    → RoundsUp from (rounding_unit from) (round_to_thousand_multiple from)
unfolding round_to_thousand_multiple rounding_unit
round_to_thousand_multiple-RoundsUp from h = elim (Bool-cases (ltb 1_000_000 from)) [
  | inl a ↦ rw a (RoundsUp-1000000 from h)
  | inr a ↦ elim (Bool-cases (ltb 100_000 from)) [
    | inl b ↦ rw (a, b) (RoundsUp-100000 from h)
    | inr b ↦ elim (Bool-cases (ltb 10_000 from)) [
      | inl c ↦ rw (a, b, c) (RoundsUp-10000 from h)
      | inr c ↦ rw (a, b, c) (RoundsUp-1000 from h)
    ]
  ]
]

-- A part on disk is never shorter than its content, whatever the padding.
pub on_disk_size-le :
    (from : ℕ) (type : TarContents) (pad : PaddingStyle) (target_size : ℕ)
    → from + 1_000_000 < u64_mod
    → (disk : ℕ) × (on_disk_size from type pad target_size ≡ some disk) × (from ≤ disk)
unfolding on_disk_size
on_disk_size-le from type no_padding target_size h = (from, refl, omega arith)
on_disk_size-le from type relative target_size h = elim (Bool-cases (from == 0)) [
  | inl zero_size ↦ (0, rw zero_size, ground arith)
  | inr content ↦
      let (up, run, le, _, _, _) = round_to_thousand_multiple-RoundsUp from h in
      (up, rw content run, le)
]
on_disk_size-le from type absolute target_size h = elim (Bool-cases (from == 0)) [
  | inl zero_size ↦ (0, rw zero_size, ground arith)
  | inr content ↦ elim (Bool-cases (not (is_index type) && leb from target_size)) [
    | inl fits ↦ (target_size, rw (content, fits), ground arith)
    | inr large ↦
        let (up, run, le, _, _, _) = round_to_thousand_multiple-RoundsUp from h in
        (up, rw (content, large) run, le)
  ]
]
