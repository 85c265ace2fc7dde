-- ===== src/Backup/Settings.antt =====
-- src/backup.cc, scanFileSystem: the target size of a tar file, the size from which on a directory
-- gets tar files of its own, and the size of the parts that large files are split into. `none` is
-- the end in error(...), or an assertion that fails. A setting is `none` where it is not supplied.
use beak.Prelude.{
  ℕ, ◌+◌, ◌*◌, ◌^◌, ◌%◌, ◌≤◌, ◌<◌, ◌≡◌, refl, Option, none, some, leb, le→leb, ◌==◌, ◌>>=◌, ◌>>◌,
  guard, arith, inl, inr, ◌⊎◌,
}
use beak.Prelude.Words.{mul64, mul64_exact}
use beak.Text.Sizes.{down_to_block_size, block_size_lem}
use beak.Tar.Split.{TarHeaderStyle, none_style, simple, full, header_size}
use beak.Tar.Parts.{round_to_thousand_multiple, rounding_unit}
use beak.Tar.Parts.Rounding.{round_to_thousand_multiple-RoundsUp}

pub record TarSizes : Type 0 where
  pub tar_target_size : ℕ
  pub tar_trigger_size : ℕ
  pub tar_split_size : ℕ

unfoldable pub choose_target_size : Option ℕ → ℕ
choose_target_size none = 10_000_000
choose_target_size (some targetsize) = targetsize

unfoldable pub choose_trigger_size : ℕ → Option ℕ → ℕ
choose_trigger_size target none = mul64 target 3
choose_trigger_size target (some triggersize) = triggersize

unfoldable pub choose_split_size : ℕ → Option ℕ → Option ℕ
choose_split_size target none =
    round_to_thousand_multiple (mul64 target 2) >>= λ size. down_to_block_size size
choose_split_size target (some splitsize) = guard (splitsize % 512 == 0) >> some splitsize

unfoldable pub choose_sizes : Option ℕ → Option ℕ → Option ℕ → Option TarSizes
choose_sizes targetsize triggersize splitsize = do
  let target = choose_target_size targetsize
  split ← choose_split_size target splitsize
  guard (leb target split)
  some (record {
    tar_target_size = target;
    tar_trigger_size = choose_trigger_size target triggersize;
    tar_split_size = split;
  })

-- A split size that parts of whole blocks fit, with room behind the header of a part.
pub record HasRoom (target split : ℕ) (ths : TarHeaderStyle) : Type 0 where
  pub whole_blocks : split % 512 ≡ 0
  pub not_below : target ≤ split
  pub behind_header : header_size ths < split
  pub not_far : split < 2 * target + 1_000_000

header_size_small : (ths : TarHeaderStyle) → header_size ths ≤ 512
unfolding header_size
header_size_small none_style = omega arith
header_size_small simple = omega arith
header_size_small full = omega arith

rounding_unit_small : (from : ℕ) → rounding_unit from ≤ 1_000_000
unfolding rounding_unit
rounding_unit_small from = ground arith

-- What is above 1000 and a multiple of it, rounded down to blocks.
rounded_down :
    (target up below above : ℕ)
    → 512 < target
    → target * 2 ≤ up
    → up % 1000 ≡ 0
    → up ≤ above
    → ((up ≡ above) × (up ≡ below)) ⊎ (above ≡ below + 512)
    → (target ≤ below) × (512 < below)
rounded_down target up below above a b c d (inl (e, f)) = (omega arith, omega arith)
rounded_down target up below above a b c d (inr e) = (omega arith, omega arith)

default_split :
    (target : ℕ) (ths : TarHeaderStyle)
    → 512 < target
    → target < 2 ^ 61
    → (split : ℕ) × (choose_split_size target none ≡ some split) × HasRoom target split ths
unfolding choose_split_size
default_split target ths a b =
    let (up, run, le, x, y, z) = round_to_thousand_multiple-RoundsUp (target * 2) (omega arith) in
    let unit = rounding_unit_small (target * 2) in
    let (above, below, run_up, run_down, whole, down, enough, near) =
      block_size_lem up (omega (arith, unit)) in
    let (reached, roomy) = rounded_down target up below above a le z enough near in
    (
      below,
      rw (mul64_exact target 2 (omega arith), run) run_down,
      record {
        whole_blocks = whole;
        not_below = reached;
        behind_header = omega (arith, header_size_small ths);
        not_far = omega (arith, unit);
      },
    )

-- A target size above 512 bytes and below 2^61, with no split size supplied, is accepted. The split
-- size that is chosen is a multiple of 512, not below the target size and less than twice that and
-- a million, and leaves room behind the header of a part.
pub choose_sizes-HasRoom :
    (target : ℕ) (triggersize : Option ℕ) (ths : TarHeaderStyle)
    → 512 < target
    → target < 2 ^ 61
    → (r : TarSizes) × (choose_sizes (some target) triggersize none ≡ some r)
      × HasRoom r.tar_target_size r.tar_split_size ths
unfolding choose_sizes choose_target_size
choose_sizes-HasRoom target triggersize ths a b =
    let (split, run, room) = default_split target ths a b in
    (
      record {
        tar_target_size = target;
        tar_trigger_size = choose_trigger_size target triggersize;
        tar_split_size = split;
      },
      rw (run, le→leb target split room.not_below) refl,
      room,
    )
