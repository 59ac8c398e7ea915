-- ===== src/Fvb/Erase/Overflow.antt =====
-- The 64-bit sum in the test of FvbEraseBlocks.
use odp_platform_radxa_orion.Common.{
  ◌+◌, ◌-◌, ◌<◌, ◌≤◌, ◌≡◌, false, some, [], ◌∷◌, arith, if◌then◌else◌, u64,
}
use odp_platform_radxa_orion.Efi.{error, efi_error, device_error}
use odp_platform_radxa_orion.Flash.{NorFlashInstance, NorFlashLib}
use odp_platform_radxa_orion.Fvb.Erase.{
  lba_list_terminator, check_ranges, erase_range, erase_ranges, fvb_erase_blocks,
}
use odp_platform_radxa_orion.Fvb.Erase.Ranges.{Range, arguments}

module _ {W : Type 0} (lib : NorFlashLib W) (inst : NorFlashInstance) (r : Range) (w : W) where
  -- If the one range of a call on a writable volume starts behind the volume, and its end is at
  -- least 2^64 and wraps round to at most the number of blocks, FvbEraseBlocks hands it to the
  -- device all the same, and returns EFI_DEVICE_ERROR for an error of the device and its status
  -- else.
  pub wrapped_range_erased :
      r.starting_lba < lba_list_terminator
      → r.num_of_lba < u64
      → u64 ≤ r.starting_lba + r.num_of_lba
      → r.starting_lba + r.num_of_lba - u64 ≤ inst.blocks
      → inst.blocks ≤ r.starting_lba
      → inst.media.read_only ≡ false
      → let (status, w') = erase_range lib inst r.starting_lba r.num_of_lba w in
        fvb_erase_blocks lib inst (arguments (r ∷ [])) w
        ≡ some (if efi_error status then error device_error else status, w')
  unfolding fvb_erase_blocks check_ranges erase_ranges
  wrapped_range_erased h1 h2 h3 h4 h5 h6 = ground arith
