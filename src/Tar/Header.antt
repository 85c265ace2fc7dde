-- ===== src/Tar/Header.antt =====
-- src/tar.cc, the space that the tar header of an entry takes (store_path_, calculate_header_size_,
-- calculateHeaderSize), and src/tarentry.cc, the entry's sizes from it (updateSizes). A failed
-- assertion is `none`. A path is its bytes, with single slashes and none at the end.
pub mod Blocks
use beak.Prelude.{
  ℕ, suc, ◌+◌, ◌-◌, ◌*◌, ◌/◌, ◌%◌, Bool, true, false, not, ◌&&◌, Option, none, some, List, [], ◌∷◌,
  ltb, leb, ◌==◌, if◌then◌else◌, ◌>>=◌, ◌>>◌, guard, Bytes, length,
}
use beak.Prelude.Words.{add64, mul64}
use beak.Tar.Split.{TarHeaderStyle, none_style, simple, full}

pub record HeaderBlocks : Type 0 where
  pub num_long_path_blocks : ℕ
  pub num_long_link_blocks : ℕ
  pub num_header_blocks : ℕ

-- Whether a path fits the name field of `nlen` bytes.
unfoldable pub store_path : Bytes → ℕ → Bool
store_path path nlen = leb (length path) nlen

-- The blocks of a GNU long name or long link; none if the header's field is large enough.
unfoldable pub long_blocks : Bytes → ℕ
unfolding store_path
long_blocks path = if store_path path 100 then 0 else 2 + length path / 512

unfoldable pub link_blocks : Option Bytes → ℕ
unfolding long_blocks
link_blocks none = 0
link_blocks (some link) = long_blocks link

unfoldable pub header_blocks : Bytes → Option Bytes → HeaderBlocks
unfolding link_blocks
header_blocks tarpath link = record {
  num_long_path_blocks = long_blocks tarpath;
  num_long_link_blocks = link_blocks link;
  num_header_blocks = add64 (add64 1 (long_blocks tarpath)) (link_blocks link);
}

-- Path::unRoot: the root has no path without its slash.
unfoldable pub un_root : Bytes → Option Bytes
un_root [] = none
un_root (c ∷ path) = if c == b'/' then some path else some (c ∷ path)

unfoldable pub stored_link : Option Bytes → Bool → Option Bytes
unfolding un_root
stored_link none is_hard_link = none
stored_link (some link) is_hard_link = if is_hard_link then un_root link else some link

unfoldable pub calculate_header_size : Bytes → Option Bytes → Bool → ℕ
unfolding header_blocks stored_link
calculate_header_size tarpath link is_hard_link =
    mul64 (header_blocks tarpath (stored_link link is_hard_link)).num_header_blocks 512

-- The fields of TarEntry that updateSizes reads.
pub record EntryMeta : Type 0 where
  pub tarpath : Bytes
  pub link : Option Bytes
  pub is_regular_file : Bool
  pub is_hard_linked : Bool
  pub st_size : ℕ
  pub tar_header_style : TarHeaderStyle

pub record EntrySizes : Type 0 where
  pub header_size : ℕ
  pub blocked_size : ℕ

unfoldable pub style_header : EntryMeta → TarHeaderStyle → ℕ
style_header m none_style = 0
style_header m simple = calculate_header_size m.tarpath m.link m.is_hard_linked
style_header m full = calculate_header_size m.tarpath m.link m.is_hard_linked

unfoldable pub round_block : ℕ → ℕ
round_block size = if size % 512 == 0 then size else add64 size (512 - size % 512)

unfoldable pub update_sizes : EntryMeta → Option EntrySizes
unfolding style_header round_block
update_sizes m = do
  let header = style_header m m.tar_header_style
  let size = if m.is_regular_file && not m.is_hard_linked then add64 header m.st_size else header
  let blocked = round_block size
  guard (leb header size && leb size blocked)
  some (record { header_size = header; blocked_size = blocked })
