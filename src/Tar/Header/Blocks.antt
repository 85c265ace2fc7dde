-- ===== src/Tar/Header/Blocks.antt =====
-- src/tar.cc and src/tarentry.cc: the blocks of an entry hold its header, its long names and its
-- content.
use beak.Prelude.{
  ℕ, ◌+◌, ◌-◌, ◌*◌, ◌/◌, ◌%◌, ◌^◌, ◌≤◌, ◌<◌, ◌≡◌, refl, Bool, not, ◌&&◌, Option, none, some, [],
  ◌∷◌, arith, if◌then◌else◌, ◌⊎◌, inl, inr, Bytes, length, le→leb,
}
use beak.Prelude.Words.{add64, add64_exact, mul64_exact}
use beak.Tar.Split.{TarHeaderStyle, none_style, simple, full}
use beak.Tar.Header.{
  long_blocks, link_blocks, header_blocks, stored_link, calculate_header_size, EntryMeta,
  EntrySizes, style_header, round_block, update_sizes,
}

-- The bytes of content that an entry stores.
abbrev pub stored_size : EntryMeta → ℕ
stored_size m = if m.is_regular_file && not m.is_hard_linked then m.st_size else 0

abbrev pub link_length : Option Bytes → ℕ
link_length none = 0
link_length (some link) = length link

-- Paths and contents far below the limits of a machine word.
pub record IsModest (m : EntryMeta) : Type 0 where
  pub path_fits : length m.tarpath < 2 ^ 60
  pub link_fits : link_length m.link < 2 ^ 60
  pub size_fits : stored_size m < 2 ^ 62

-- A path in the header's own field, or in blocks of its own: one is a header, and the others hold
-- every byte of it and a final zero.
abbrev pub HasRoom : Bytes → Type 0
HasRoom path =
    (long_blocks path ≡ 0) × (length path ≤ 100)
    ⊎ (100 < length path) × (length path + 1 ≤ (long_blocks path - 1) * 512)

long_blocks_room : (path : Bytes) → HasRoom path × (long_blocks path ≤ 2 + length path / 512)
unfolding long_blocks
long_blocks_room path = ground arith

link_length-stored :
    (l : Option Bytes) (hard : Bool) → link_length (stored_link l hard) ≤ link_length l
unfolding stored_link
link_length-stored none hard = omega arith
link_length-stored (some []) hard = ground arith
link_length-stored (some (c ∷ path)) hard = ground arith

link_blocks-le : (l : Option Bytes) → link_blocks l ≤ 2 + link_length l / 512
unfolding link_blocks
link_blocks-le none = omega arith
link_blocks-le (some link) = (long_blocks_room link).1

-- The header is one block, the blocks of a long path and those of a long link. The path of the
-- entry is stored whole: in the header's field if it has up to 100 bytes, and otherwise in blocks
-- of its own, behind a header block, with a final zero.
pub calculate_header_size_lem :
    (tarpath : Bytes) (link : Option Bytes) (hard : Bool)
    → length tarpath < 2 ^ 60
    → link_length link < 2 ^ 60
    → (calculate_header_size tarpath link hard
        ≡ (1 + long_blocks tarpath + link_blocks (stored_link link hard)) * 512)
      × HasRoom tarpath
unfolding calculate_header_size header_blocks
calculate_header_size_lem tarpath link hard a b =
    let p = (long_blocks_room tarpath).1 in
    let l = link_blocks-le (stored_link link hard) in
    let s = link_length-stored link hard in
    (
      rw
          (
            add64_exact 1 (long_blocks tarpath) (omega arith),
            add64_exact (1 + long_blocks tarpath) (link_blocks (stored_link link hard))
                (omega arith),
            mul64_exact (1 + long_blocks tarpath + link_blocks (stored_link link hard)) 512
                (omega arith),
          )
          refl,
      (long_blocks_room tarpath).0,
    )

round_block_lem :
    (size : ℕ)
    → size < 2 ^ 63
    → (size ≤ round_block size) × (round_block size < size + 512) × (round_block size % 512 ≡ 0)
unfolding round_block add64
round_block_lem size h = ground arith

calculated_bounds :
    (m : EntryMeta)
    → IsModest m
    → (calculate_header_size m.tarpath m.link m.is_hard_linked < 2 ^ 62)
      × (calculate_header_size m.tarpath m.link m.is_hard_linked % 512 ≡ 0)
      × (512 ≤ calculate_header_size m.tarpath m.link m.is_hard_linked)
calculated_bounds m v =
    let (e, _) =
      calculate_header_size_lem m.tarpath m.link m.is_hard_linked v.path_fits v.link_fits in
    let p = (long_blocks_room m.tarpath).1 in
    let l = link_blocks-le (stored_link m.link m.is_hard_linked) in
    let s = link_length-stored m.link m.is_hard_linked in
    let a = v.path_fits in let b = v.link_fits in rw e (omega arith, omega arith, omega arith)

header_sum :
    (m : EntryMeta) (header : ℕ)
    → header < 2 ^ 62
    → stored_size m < 2 ^ 62
    → (if m.is_regular_file && not m.is_hard_linked then add64 header m.st_size else header)
      ≡ header + stored_size m
unfolding add64
header_sum m header a b = ground arith

style_header_bounds :
    (m : EntryMeta) (ths : TarHeaderStyle)
    → IsModest m
    → (style_header m ths < 2 ^ 62)
      × (style_header m ths % 512 ≡ 0)
      × ((ths ≡ none_style) ⊎ (512 ≤ style_header m ths))
unfolding style_header
style_header_bounds m none_style v = (omega arith, omega arith, inl refl)
style_header_bounds m simple v = let (a, b, c) = calculated_bounds m v in (a, b, inr c)
style_header_bounds m full v = let (a, b, c) = calculated_bounds m v in (a, b, inr c)

-- Within modest lengths updateSizes passes its assertion. The header and the whole entry take a
-- whole number of 512 byte blocks, the entry holds its header and its content with less than a
-- block to spare, and unless headers are left out the entry takes a block at least.
pub update_sizes_lem :
    (m : EntryMeta)
    → IsModest m
    → (s : EntrySizes) × (update_sizes m ≡ some s)
      × (s.header_size % 512 ≡ 0)
      × (s.blocked_size % 512 ≡ 0)
      × (s.header_size + stored_size m ≤ s.blocked_size)
      × (s.blocked_size < s.header_size + stored_size m + 512)
      × ((m.tar_header_style ≡ none_style) ⊎ (512 ≤ s.header_size))
unfolding update_sizes
update_sizes_lem m v =
    let header = style_header m m.tar_header_style in
    let (small, whole, some_block) = style_header_bounds m m.tar_header_style v in
    let sum : (if m.is_regular_file && not m.is_hard_linked then add64 header m.st_size else header)
        ≡ header + stored_size m =
      header_sum m header small v.size_fits in
    let (le, lt, even) = round_block_lem (header + stored_size m) (omega (arith, v.size_fits)) in
    (
      record { header_size = header; blocked_size = round_block (header + stored_size m) },
      rw (sum, le→leb header (header + stored_size m) (omega arith), le→leb _ _ le) refl,
      whole,
      even,
      le,
      lt,
      some_block,
    )
