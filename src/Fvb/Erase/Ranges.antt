-- ===== src/Fvb/Erase/Ranges.antt =====
-- FvbEraseBlocks over the ranges that a call lists: all are checked first, and then erased.
use native.Mathlib.Nat.{mod-eq_of_lt}
use odp_platform_radxa_orion.Common.{
  ℕ, ◌+◌, ◌<◌, ◌≡◌, ◌⊎◌, Bool, true, false, ◌||◌, ◌&&◌, not, some, List, [], ◌∷◌, refl, arith, ltb,
  leb, ◌==◌, if◌then◌else◌, add64, u64, ne→==,
}
use odp_platform_radxa_orion.Efi.{success, error}
use odp_platform_radxa_orion.Efi.{invalid_parameter, access_denied}
use odp_platform_radxa_orion.Flash.{NorFlashInstance, NorFlashLib}
use odp_platform_radxa_orion.Common.Lists.{All}
use odp_platform_radxa_orion.Fvb.Erase.{
  lba_list_terminator, check_ranges, erase_ranges, fvb_erase_blocks,
}

-- A range of blocks, its first block counted from the start of the volume.
pub record Range : Type 0 where
  pub starting_lba : ℕ
  pub num_of_lba : ℕ

-- The words of a call's variable argument list.
abbrev pub arguments : List Range → List ℕ
arguments [] = lba_list_terminator ∷ []
arguments (r ∷ rs) = r.starting_lba ∷ r.num_of_lba ∷ arguments rs

-- A range of 64-bit words whose end is a 64-bit word too; it does not start at the terminator.
abbrev pub IsRange : Range → Type 0
IsRange r = r.starting_lba + r.num_of_lba < lba_list_terminator

-- Whether a range is not empty and lies in a volume of `blocks` blocks.
abbrev pub in_volume : ℕ → Range → Bool
in_volume blocks r = not (r.num_of_lba == 0) && leb (r.starting_lba + r.num_of_lba) blocks

abbrev pub all_in_volume : ℕ → List Range → Bool
all_in_volume blocks [] = true
all_in_volume blocks (r ∷ rs) = in_volume blocks r && all_in_volume blocks rs

range_test :
    (blocks : ℕ) (r : Range)
    → IsRange r
    → (r.num_of_lba == 0 || ltb blocks (add64 r.starting_lba r.num_of_lba))
      ≡ not (in_volume blocks r)
range_test blocks r h =
    rw (mod-eq_of_lt {n = r.starting_lba + r.num_of_lba} {m = u64} (omega arith)) (ground arith)

if-not : (a b : Bool) → (if not a then some false else some b) ≡ some (a && b)
if-not a b = ground arith

-- The first loop decides what it is there to decide.
check_ranges_lem :
    (inst : NorFlashInstance) (rs : List Range)
    → All IsRange rs
    → check_ranges inst (arguments rs) ≡ some (all_in_volume inst.blocks rs)
unfolding check_ranges
check_ranges_lem inst [] h = refl
check_ranges_lem inst (r ∷ rs) h =
    rw
      (
        check_ranges_lem inst rs h.1,
        ne→== r.starting_lba lba_list_terminator (omega arith),
        range_test inst.blocks r h.0,
      )
      (if-not _ _)

module _ {W : Type 0} (lib : NorFlashLib W) (inst : NorFlashInstance) (rs : List Range) (w : W)
    (ranges : All IsRange rs) where
  -- A call of FvbEraseBlocks whose ranges each have an end below the terminator, on a read-only
  -- volume or with a range that is empty or leaves the volume, calls nothing of the device. It
  -- returns EFI_ACCESS_DENIED on a read-only volume and EFI_INVALID_PARAMETER on another.
  pub fvb_erase_blocks_refused :
      (inst.media.read_only ≡ true) ⊎ (all_in_volume inst.blocks rs ≡ false)
      → fvb_erase_blocks lib inst (arguments rs) w
        ≡ some (error (if inst.media.read_only then access_denied else invalid_parameter), w)
  unfolding fvb_erase_blocks
  fvb_erase_blocks_refused h = ground (arith, check_ranges_lem inst rs ranges)

  -- Where the check passes the call is its second loop.
  pub fvb_erase_blocks_accepted :
      inst.media.read_only ≡ false
      → all_in_volume inst.blocks rs ≡ true
      → fvb_erase_blocks lib inst (arguments rs) w ≡ erase_ranges lib inst (arguments rs) success w
  unfolding fvb_erase_blocks
  fvb_erase_blocks_accepted h k = ground (arith, check_ranges_lem inst rs ranges)

pub fvb_erase_blocks-read_only :
    {W : Type 0} (lib : NorFlashLib W) (inst : NorFlashInstance) (args : List ℕ) (w : W)
    → inst.media.read_only ≡ true
    → fvb_erase_blocks lib inst args w ≡ some (error access_denied, w)
unfolding fvb_erase_blocks
fvb_erase_blocks-read_only lib inst args w h = rw h
